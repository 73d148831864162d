-- ===== src/Tests/Absent.antt =====
-- The theorems on a new key at a concrete input: a trie of a head and a tail, whose next free index
-- is 2^39. Its database has the nodes of three paths only.
use linea_sgx_prover.Prelude.{ℕ, ◌+◌, ◌^◌, some, none, [], ◌∷◌, ◌++◌, ◌≡◌, refl, arith, replicate}
use linea_sgx_prover.Prelude.Results.{ok}
use linea_sgx_prover.Bytes.{Bytes}
use linea_sgx_prover.Bytes.Endian.{to_be, from_be, from_be_from}
use linea_sgx_prover.BtreeMap
use linea_sgx_prover.BtreeMap.{bytes_ord}
use linea_sgx_prover.EthTypes.{big_endian_types, narrow, exactly_32}
use linea_sgx_prover.Zktrie.Types.{Node, Error, KeyRange, leaf, zero_hash, empty_leaf}
use linea_sgx_prover.Zktrie.Node.{
  trie_hash, value, empty_leaf_node, branch_node, leaf_node, new, value_hash, to_bytes, top_node,
}
use linea_sgx_prover.Zktrie.Path.{get_leaf_path, write_bits, prefix_len, parse_node_index}
use linea_sgx_prover.Zktrie.Opening
use linea_sgx_prover.Zktrie.Opening.{LeafOpening, parse}
use linea_sgx_prover.Zktrie.Opening.Codec.{layout}
use linea_sgx_prover.Zktrie.Database.{Database, IsLawful}
use linea_sgx_prover.Zktrie.Sparse
use linea_sgx_prover.Zktrie.Sparse.{levels, get_from, SpareMerkleTrie}
use linea_sgx_prover.Zktrie.Sparse.Tree.{
  Tree, tip, fork, tree_hash, node_of, tree_put, put_tip, new_tip, new_fork, path_nodes,
}
use linea_sgx_prover.Zktrie.Sparse.Refine.{Held}
use linea_sgx_prover.Zktrie.Sparse.Refine.Fresh.{IsFresh}
use linea_sgx_prover.Zktrie.Sparse.Refine.Calls.{write_all}
use linea_sgx_prover.Zktrie.Sparse.Laws.{rooted}
use linea_sgx_prover.Zktrie.Trie.{parse_node, next_free_node, put}
use linea_sgx_prover.Zktrie.Trie.Present.{KeepsNodes}
use linea_sgx_prover.Zktrie.Trie.Lookups.{Reads}
use linea_sgx_prover.Zktrie.Trie.Insert.{Insertion, after_index, after_new, after_right}
use linea_sgx_prover.Zktrie.Trie.Absent.{put-absent, get_node-put_absent}
use linea_sgx_prover.Tests.Toys.{digest, env, NodeMap, node_map, node_map-IsLawful}

abbrev pub key : Bytes
key = 5 ∷ []

abbrev pub val : Bytes
val = 7 ∷ []

abbrev pub free : ℕ
free = 2 ^ 39

abbrev near : KeyRange
near = record { left_index = 0; center = none; right_index = 2 ^ 38 }

-- The toy database, with this range around every key.
abbrev between : Database NodeMap
between = record node_map { get_nearest_keys = λ s root k. ok near }

between-IsLawful : IsLawful between
between-IsLawful = record {
  update_ok = node_map-IsLawful.update_ok;
  get-update_self = node_map-IsLawful.get-update_self;
  get-update_ne = node_map-IsLawful.get-update_ne;
}

between-KeepsNodes : KeepsNodes between
between-KeepsNodes = λ k v s h. refl

abbrev pub ends : Bytes
ends = replicate 38 0 ++ 0x16 ∷ []

abbrev pub left : Bytes
left = 1 ∷ 0 ∷ 0 ∷ ends

abbrev pub added : Bytes
added = 1 ∷ 1 ∷ 0 ∷ ends

abbrev pub right : Bytes
right = 1 ∷ 0 ∷ 1 ∷ ends

-- A head and a tail.
abbrev pub head : LeafOpening
head = record { hkey = zero_hash; hval = zero_hash; prev_leaf = 0; next_leaf = 0 }

abbrev pub last : LeafOpening
last = record { hkey = Opening.tail_hkey; hval = zero_hash; prev_leaf = 0; next_leaf = 0 }

-- The openings of the neighbours as they are stored at first, as they are read, and afterwards.
abbrev head_stored : LeafOpening
head_stored = record head { prev_leaf = 2; next_leaf = 1 }

abbrev head_read : LeafOpening
head_read = record head { prev_leaf = 2; next_leaf = 2 }

abbrev head_after : LeafOpening
head_after = record head { prev_leaf = 2; next_leaf = free }

abbrev last_stored : LeafOpening
last_stored = record last { prev_leaf = 3; next_leaf = 1 }

abbrev last_read : LeafOpening
last_read = record last { prev_leaf = 3; next_leaf = 3 }

abbrev last_after : LeafOpening
last_after = record last { prev_leaf = free; next_leaf = 3 }

abbrev pub fresh_leaf : LeafOpening
fresh_leaf = record { hkey = digest key; hval = digest val; prev_leaf = 0; next_leaf = 2 ^ 38 }

abbrev pub coded : LeafOpening → Bytes
coded o = to_be 32 o.prev_leaf ++ (to_be 32 o.next_leaf ++ (o.hkey ++ o.hval))

abbrev pub leaf_of : Bytes → LeafOpening → Tree
leaf_of rest o =
    tip (record { raw = leaf (record { path = rest; value = coded o }); hash = digest (coded o) })

abbrev pub over : Tree → Tree → Tree
over l r = fork (digest (tree_hash l ++ tree_hash r)) l r

abbrev pub state : LeafOpening → Tree → LeafOpening → Tree
state l n r = over (over (leaf_of ends l) (leaf_of ends r)) n

abbrev pub counter : ℕ → Tree
counter n = tip (record { raw = empty_leaf; hash = to_be 32 n })

abbrev begin : Tree
begin = over (counter free) (state head_stored (tip empty_leaf_node) last_stored)

abbrev nodes : NodeMap
nodes =
    (zero_hash, empty_leaf_node)
    ∷ (digest (coded head_stored), node_of (leaf_of ends head_stored))
    ∷ (digest (coded last_stored), node_of (leaf_of ends last_stored))
    ∷ (
      tree_hash (over (leaf_of ends head_stored) (leaf_of ends last_stored)),
      node_of (over (leaf_of ends head_stored) (leaf_of ends last_stored)),
    )
    ∷ (
      tree_hash (state head_stored (tip empty_leaf_node) last_stored),
      node_of (state head_stored (tip empty_leaf_node) last_stored),
    )
    ∷ (tree_hash begin, node_of begin)
    ∷ []

abbrev insertion : Insertion
insertion = record {
  lefts = over (counter free) (state head_after (tip empty_leaf_node) last_stored);
  news = over (counter free) (state head_after (leaf_of (0 ∷ ends) fresh_leaf) last_stored);
  top =
      tree_hash (over (counter free) (state head_after (leaf_of (0 ∷ ends) fresh_leaf) last_after));
  sub = state head_after (leaf_of (0 ∷ ends) fresh_leaf) last_after;
  root =
      node_of
        (over (counter (free + 1)) (state head_after (leaf_of (0 ∷ ends) fresh_leaf) last_after));
}

left-Held : Held between nodes left begin
unfolding Held BtreeMap.get to_be
left-Held = (refl, (refl, (refl, (refl, tt))))

added-Held : Held between nodes added begin
unfolding Held BtreeMap.get to_be
added-Held = (refl, (refl, (refl, tt)))

right-Held : Held between nodes right begin
unfolding Held BtreeMap.get to_be
right-Held = (refl, (refl, (refl, (refl, tt))))

pub keyed : trie_hash env key ≡ ok (digest key)
unfolding trie_hash
keyed = refl

hashed : trie_hash env val ≡ ok (digest val)
unfolding trie_hash
hashed = refl

counts : parse_node_index {E = Error} (to_be 32 free) ≡ ok free
unfolding parse_node_index to_be from_be from_be_from
counts = refl

pub on_left : get_leaf_path {E = Error} 0 ≡ ok left
unfolding get_leaf_path write_bits
on_left = refl

pub on_added : get_leaf_path {E = Error} free ≡ ok added
unfolding get_leaf_path write_bits
on_added = refl

pub on_right : get_leaf_path {E = Error} (2 ^ 38) ≡ ok right
unfolding get_leaf_path write_bits
on_right = refl

read_left : parse_node between env left (rooted begin, nodes) ≡ ok head_read
unfolding parse_node Sparse.get_node get_from BtreeMap.get value parse big_endian_types from_be
    narrow exactly_32 to_be from_be_from
read_left = refl

read_right : parse_node between env right (rooted begin, nodes) ≡ ok last_read
unfolding parse_node Sparse.get_node get_from BtreeMap.get value parse big_endian_types from_be
    narrow exactly_32 to_be from_be_from
read_right = refl

made_left :
    tree_put env levels left (layout env.eth 2 free zero_hash zero_hash) begin ≡ ok insertion.lefts
unfolding tree_put put_tip new_tip new_fork branch_node leaf_node new value_hash to_bytes
    big_endian_types to_be prefix_len
made_left = refl

made_added :
    tree_put env levels added (layout env.eth 0 (2 ^ 38) (digest key) (digest val)) insertion.lefts
    ≡ ok insertion.news
unfolding tree_put put_tip new_tip new_fork branch_node leaf_node new value_hash to_bytes
    big_endian_types to_be prefix_len
made_added = refl

made_right :
    tree_put env levels right (layout env.eth free 3 Opening.tail_hkey zero_hash) insertion.news
    ≡ ok (fork insertion.top (counter free) insertion.sub)
unfolding tree_put put_tip new_tip new_fork branch_node leaf_node new value_hash to_bytes
    big_endian_types to_be prefix_len
made_right = refl

made_top : top_node env {E = Error} (free + 1) (tree_hash insertion.sub) ≡ ok insertion.root
unfolding top_node branch_node new value_hash to_bytes big_endian_types to_be
made_top = refl

unused_left : IsFresh between (path_nodes left insertion.lefts) nodes
unfolding path_nodes BtreeMap.get BtreeMap.insert to_be
unused_left =
    (λ m h. absurd (cc), (λ m h. absurd (cc), (λ m h. absurd (cc), (λ m h. absurd (cc), tt))))

unused_added :
    IsFresh between
      (path_nodes added insertion.news)
      (after_index between env insertion left (digest key) free val nodes)
unfolding path_nodes BtreeMap.get BtreeMap.insert to_be write_all
unused_added = (λ m h. absurd (cc), (λ m h. absurd (cc), (λ m h. absurd (cc), tt)))

unused_right :
    IsFresh between
      (path_nodes right (fork insertion.top (counter free) insertion.sub))
      (after_new between env insertion left added (digest key) free val nodes)
unfolding path_nodes BtreeMap.get BtreeMap.insert to_be write_all
unused_right =
    (λ m h. absurd (cc), (λ m h. absurd (cc), (λ m h. absurd (cc), (λ m h. absurd (cc), tt))))

unused_top :
    (m : Node)
    → between.get_node
        (after_right between env insertion
          (counter free)
          left
          added
          right
          (digest key)
          free
          val
          nodes)
        insertion.root.hash
      ≡ ok (some m)
    → m ≡ insertion.root
unfolding path_nodes BtreeMap.get BtreeMap.insert to_be write_all
unused_top m h = absurd (cc)

put-absent_example :
    (after : SpareMerkleTrie × NodeMap) × (put between env key val (rooted begin, nodes)
      ≡ (ok tt, after))
    × (next_free_node between env after ≡ ok (free + 1))
    × Reads between env after left (layout env.eth 2 free zero_hash zero_hash)
    × Reads between env after added (layout env.eth 0 (2 ^ 38) (digest key) (digest val))
    × Reads between env after right (layout env.eth free 3 Opening.tail_hkey zero_hash)
    × (last_read.next_leaf ≡ last_read.prev_leaf)
put-absent_example =
    put-absent between between-IsLawful between-KeepsNodes env insertion key val (tree_hash begin)
      (counter free) (state head_stored (tip empty_leaf_node) last_stored) nodes keyed hashed refl
      refl counts on_left on_added on_right (λ e. absurd (omega arith)) (λ e. absurd (omega arith))
      (λ e. absurd (omega arith)) left-Held added-Held right-Held read_left read_right made_left
      made_added made_right made_top unused_left unused_added unused_right unused_top

abbrev elsewhere : Bytes
elsewhere = 1 ∷ 1 ∷ 1 ∷ ends

on_elsewhere : get_leaf_path {E = Error} (2 ^ 39 + 2 ^ 38) ≡ ok elsewhere
unfolding get_leaf_path write_bits
on_elsewhere = refl

elsewhere-Held : Held between nodes elsewhere begin
unfolding Held BtreeMap.get to_be
elsewhere-Held = (refl, (refl, (refl, tt)))

found_nothing : Sparse.get_node between (rooted begin) elsewhere nodes ≡ ok none
unfolding Sparse.get_node get_from BtreeMap.get to_be
found_nothing = refl

get_node-put_absent_example :
    (after : SpareMerkleTrie × NodeMap) × (put between env key val (rooted begin, nodes)
      ≡ (ok tt, after))
    × (Sparse.get_node between after.0 elsewhere after.1 ≡ ok none)
get_node-put_absent_example =
    get_node-put_absent between between-IsLawful between-KeepsNodes env insertion key val
      (tree_hash begin) (counter free) (state head_stored (tip empty_leaf_node) last_stored) nodes
      keyed hashed refl refl counts on_left on_added on_right (λ e. absurd (omega arith))
      (λ e. absurd (omega arith)) (λ e. absurd (omega arith)) left-Held added-Held right-Held
      read_left read_right made_left made_added made_right made_top unused_left unused_added
      unused_right unused_top (2 ^ 39 + 2 ^ 38) on_elsewhere (λ e. absurd (omega arith))
      (λ e. absurd (omega arith)) (λ e. absurd (omega arith)) elsewhere-Held found_nothing

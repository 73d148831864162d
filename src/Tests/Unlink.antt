-- ===== src/Tests/Unlink.antt =====
-- The theorem on a removed key at a concrete input: the leaf 2^39 between a head and a tail, in a
-- database that has the nodes of these three paths.
use linea_sgx_prover.Prelude.{◌+◌, ◌^◌, some, none, [], ◌∷◌, ◌≡◌, refl, arith}
use linea_sgx_prover.Prelude.Results.{ok}
use linea_sgx_prover.Bytes.Endian.{to_be, from_be, from_be_from}
use linea_sgx_prover.BtreeMap
use linea_sgx_prover.BtreeMap.{bytes_ord}
use linea_sgx_prover.EthTypes.{big_endian_types, narrow, exactly_32}
use linea_sgx_prover.Zktrie.Types.{KeyRange, zero_hash}
use linea_sgx_prover.Zktrie.Node.{
  value, empty_leaf_node, branch_node, leaf_node, new, value_hash, to_bytes,
}
use linea_sgx_prover.Zktrie.Path.{prefix_len}
use linea_sgx_prover.Zktrie.Opening
use linea_sgx_prover.Zktrie.Opening.{LeafOpening, parse}
use linea_sgx_prover.Zktrie.Opening.Codec.{layout}
use linea_sgx_prover.Zktrie.Database.{Database, IsLawful}
use linea_sgx_prover.Zktrie.Sparse
use linea_sgx_prover.Zktrie.Sparse.{levels, get_from, SpareMerkleTrie}
use linea_sgx_prover.Zktrie.Sparse.Tree.{
  Tree, tip, tree_hash, node_of, tree_put, put_tip, new_tip, new_fork, path_nodes,
}
use linea_sgx_prover.Zktrie.Sparse.Tree.Removal.{tree_remove, path_forks}
use linea_sgx_prover.Zktrie.Sparse.Refine.{Held}
use linea_sgx_prover.Zktrie.Sparse.Refine.Fresh.{IsFresh}
use linea_sgx_prover.Zktrie.Sparse.Refine.Calls.{write_all}
use linea_sgx_prover.Zktrie.Sparse.Laws.{rooted}
use linea_sgx_prover.Zktrie.Trie.{parse_node, remove}
use linea_sgx_prover.Zktrie.Trie.Lookups.{Reads}
use linea_sgx_prover.Zktrie.Trie.Unlink.{ForgetsNothing, unindexed, cleared, remove-unlinks}
use linea_sgx_prover.Tests.Toys.{digest, env, NodeMap, node_map, node_map-IsLawful}
use linea_sgx_prover.Tests.Absent.{
  free, ends, left, added, right, head, last, fresh_leaf, coded, leaf_of, over, state, counter, key,
  val, keyed, on_left, on_added, on_right,
}

abbrev near : KeyRange
near = record {
  left_index = 0;
  center = some (record { leaf_index = free; leaf_value = val });
  right_index = 2 ^ 38;
}

-- The toy database, with this range around every key.
abbrev around : Database NodeMap
around = record node_map { get_nearest_keys = λ s root k. ok near }

around-IsLawful : IsLawful around
around-IsLawful = record {
  update_ok = node_map-IsLawful.update_ok;
  get-update_self = node_map-IsLawful.get-update_self;
  get-update_ne = node_map-IsLawful.get-update_ne;
}

around-ForgetsNothing : ForgetsNothing around env
around-ForgetsNothing = λ k s h. refl

-- The openings as they were written before, and as they are read.
abbrev head_before : LeafOpening
head_before = record head { prev_leaf = 2; next_leaf = free }

abbrev head_read : LeafOpening
head_read = record head { prev_leaf = 2; next_leaf = 2 }

abbrev head_after : LeafOpening
head_after = record head { prev_leaf = 2; next_leaf = 2 ^ 38 }

abbrev last_before : LeafOpening
last_before = record last { prev_leaf = free; next_leaf = 1 }

abbrev last_read : LeafOpening
last_read = record last { prev_leaf = free; next_leaf = free }

abbrev last_after : LeafOpening
last_after = record last { prev_leaf = 0; next_leaf = free }

abbrev here : Tree
here = leaf_of (0 ∷ ends) fresh_leaf

abbrev gone_read : LeafOpening
gone_read = record fresh_leaf { next_leaf = 0 }

abbrev begin : Tree
begin = over (counter (free + 1)) (state head_before here last_before)

abbrev nodes : NodeMap
nodes =
    (zero_hash, empty_leaf_node)
    ∷ (digest (coded head_before), node_of (leaf_of ends head_before))
    ∷ (digest (coded last_before), node_of (leaf_of ends last_before))
    ∷ (tree_hash here, node_of here)
    ∷ (
      tree_hash (over (leaf_of ends head_before) (leaf_of ends last_before)),
      node_of (over (leaf_of ends head_before) (leaf_of ends last_before)),
    )
    ∷ (tree_hash (state head_before here last_before), node_of (state head_before here last_before))
    ∷ (tree_hash begin, node_of begin)
    ∷ []

-- The trees after each step.
abbrev lefts : Tree
lefts = over (counter (free + 1)) (state head_after here last_before)

abbrev clear : Tree
clear = over (counter (free + 1)) (state head_after (tip empty_leaf_node) last_before)

abbrev end : Tree
end = over (counter (free + 1)) (state head_after (tip empty_leaf_node) last_after)

left-Held : Held around nodes left begin
unfolding Held BtreeMap.get to_be
left-Held = (refl, (refl, (refl, (refl, tt))))

added-Held : Held around nodes added begin
unfolding Held BtreeMap.get to_be
added-Held = (refl, (refl, (refl, tt)))

right-Held : Held around nodes right begin
unfolding Held BtreeMap.get to_be
right-Held = (refl, (refl, (refl, (refl, tt))))

read_left : parse_node around env left (rooted begin, nodes) ≡ ok head_read
unfolding parse_node Sparse.get_node get_from BtreeMap.get value parse big_endian_types from_be
    narrow exactly_32 to_be from_be_from
read_left = refl

read_added : parse_node around env added (rooted begin, nodes) ≡ ok gone_read
unfolding parse_node Sparse.get_node get_from BtreeMap.get value parse big_endian_types from_be
    narrow exactly_32 to_be from_be_from
read_added = refl

read_right : parse_node around env right (rooted begin, nodes) ≡ ok last_read
unfolding parse_node Sparse.get_node get_from BtreeMap.get value parse big_endian_types from_be
    narrow exactly_32 to_be from_be_from
read_right = refl

made_left :
    tree_put env levels left (layout env.eth 2 (2 ^ 38) zero_hash zero_hash) begin ≡ ok lefts
unfolding tree_put put_tip new_tip new_fork branch_node leaf_node new value_hash to_bytes
    big_endian_types to_be prefix_len
made_left = refl

made_clear : tree_remove env levels added lefts ≡ ok clear
unfolding tree_remove new_fork branch_node new value_hash to_bytes to_be
made_clear = refl

made_right :
    tree_put env levels right (layout env.eth 0 free Opening.tail_hkey zero_hash) clear ≡ ok end
unfolding tree_put put_tip new_tip new_fork branch_node leaf_node new value_hash to_bytes
    big_endian_types to_be prefix_len
made_right = refl

unused_left : IsFresh around (path_nodes left lefts) nodes
unfolding path_nodes BtreeMap.get BtreeMap.insert to_be
unused_left =
    (λ m h. absurd (cc), (λ m h. absurd (cc), (λ m h. absurd (cc), (λ m h. absurd (cc), tt))))

unused_clear :
    IsFresh around (path_forks added clear) (unindexed around env left lefts (digest key) nodes)
unfolding path_nodes path_forks BtreeMap.get BtreeMap.insert to_be write_all
unused_clear = (λ m h. absurd (cc), (λ m h. absurd (cc), tt))

unused_right :
    IsFresh around
      (path_nodes right end)
      (cleared around env left lefts added clear (digest key) nodes)
unfolding path_nodes path_forks BtreeMap.get BtreeMap.insert to_be write_all
unused_right =
    (λ m h. absurd (cc), (λ m h. absurd (cc), (λ m h. absurd (cc), (λ m h. absurd (cc), tt))))

has_empty : BtreeMap.get zero_hash nodes ≡ some empty_leaf_node
unfolding BtreeMap.get
has_empty = refl

remove-unlinks_example :
    (after : SpareMerkleTrie × NodeMap) × (remove around env key (rooted begin, nodes)
      ≡ (ok tt, after))
    × (Sparse.get_node around after.0 added after.1 ≡ ok none)
    × Reads around env after left (layout env.eth 2 (2 ^ 38) zero_hash zero_hash)
    × Reads around env after right (layout env.eth 0 free Opening.tail_hkey zero_hash)
    × (last_read.next_leaf ≡ last_read.prev_leaf)
remove-unlinks_example =
    remove-unlinks around env around-IsLawful around-ForgetsNothing key begin lefts clear end nodes
      keyed refl refl on_left on_added on_right (λ e. absurd (omega arith))
      (λ e. absurd (omega arith)) (λ e. absurd (omega arith)) (λ i. ok (has_empty i)) left-Held
      added-Held right-Held read_left read_added read_right made_left made_clear made_right
      unused_left unused_clear unused_right

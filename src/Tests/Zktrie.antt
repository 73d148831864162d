-- ===== src/Tests/Zktrie.antt =====
-- The theorems on the sparse Merkle trie and its store at concrete inputs: a trie of two empty
-- leaves, into which the left leaf is put.
use linea_sgx_prover.Prelude.{
  none, some, List, [], ◌∷◌, ◌++◌, ◌≡◌, ◌≢◌, ◌⊎◌, refl, arith, replicate,
}
use linea_sgx_prover.Prelude.Results.{Result, ok, err, panic}
use linea_sgx_prover.Bytes.{Bytes}
use linea_sgx_prover.BtreeMap
use linea_sgx_prover.BtreeMap.{bytes_ord}
use linea_sgx_prover.EthTypes.{Sh256, big_endian_types, exactly_32}
use linea_sgx_prover.Zktrie.Types.{Node, Error, zero_hash, branch, leaf}
use linea_sgx_prover.Zktrie.Node.{
  empty_leaf_node, init_world_state, grow_empty, branch_node, leaf_node, new, value_hash, to_bytes,
  value, raw_branch_auto, parse_branch,
}
use linea_sgx_prover.Zktrie.Sparse.{SpareMerkleTrie, levels, get_node, put, get_from}
use linea_sgx_prover.Zktrie.Sparse.Tree.{
  Tree, tip, fork, node_of, tree_get, tree_put, put_tip, new_tip, new_fork, path_nodes,
}
use linea_sgx_prover.Zktrie.Sparse.Refine.{Held}
use linea_sgx_prover.Zktrie.Sparse.Refine.Fresh.{IsFresh}
use linea_sgx_prover.Zktrie.Sparse.Laws.{
  rooted, Ends, get_node-tree_get, put-tree_put, get_node-put_self, get_node-put_ne,
}
use linea_sgx_prover.Zktrie.Store.{MemStore, fold_proof, sibling_node}
use linea_sgx_prover.Zktrie.Store.Inclusion.{Clash, fold_proof_binding}
use linea_sgx_prover.Zktrie.Store.Instance.{prefix_db, prefix_db-get_update}
use linea_sgx_prover.Tests.Toys.{digest, env, NodeMap, node_map, node_map-IsLawful}

abbrev top : Sh256
top = replicate 31 0 ++ 9 ∷ []

abbrev two_empty : Tree
two_empty = fork top (tip empty_leaf_node) (tip empty_leaf_node)

abbrev nodes : NodeMap
nodes = (zero_hash, empty_leaf_node) ∷ (top, node_of two_empty) ∷ []

abbrev pub left_path : Bytes
left_path = 0 ∷ 0x16 ∷ []

abbrev pub right_path : Bytes
right_path = 1 ∷ 0x16 ∷ []

left-Held : Held node_map nodes left_path two_empty
unfolding Held BtreeMap.get
left-Held = (refl, (refl, tt))

right-Held : Held node_map nodes right_path two_empty
unfolding Held BtreeMap.get
right-Held = (refl, (refl, tt))

abbrev pub new_leaf : Node
new_leaf = record {
  raw = leaf (record { path = 0x16 ∷ []; value = 42 ∷ [] });
  hash = digest (42 ∷ []);
}

abbrev pub one_leaf : Tree
one_leaf = fork (digest (digest (42 ∷ []) ++ zero_hash)) (tip new_leaf) (tip empty_leaf_node)

put_left : tree_put env levels left_path (42 ∷ []) two_empty ≡ ok one_leaf
unfolding tree_put put_tip new_tip new_fork branch_node leaf_node new value_hash to_bytes
put_left = refl

put_left-IsFresh : IsFresh node_map (path_nodes left_path one_leaf) nodes
unfolding path_nodes BtreeMap.get BtreeMap.insert
put_left-IsFresh = (λ m h. absurd (cc), (λ m h. absurd (cc), tt))

get_node-tree_get_example :
    get_node node_map (rooted two_empty) right_path nodes ≡ tree_get levels right_path two_empty
get_node-tree_get_example = get_node-tree_get node_map right_path two_empty nodes right-Held

put-tree_put_example :
    Ends node_map
      (path_nodes left_path)
      (rooted two_empty, nodes)
      (tree_put env levels left_path (42 ∷ []) two_empty)
      (put node_map env left_path (42 ∷ []) (rooted two_empty, nodes))
put-tree_put_example =
    put-tree_put node_map node_map-IsLawful env left_path (42 ∷ []) two_empty nodes left-Held

get_node-put_self_example :
    (after : SpareMerkleTrie × NodeMap) × (n : Node) × (put node_map env left_path
        (42 ∷ [])
        (rooted two_empty, nodes)
      ≡ (ok tt, after))
    × (get_node node_map after.0 left_path after.1 ≡ ok (some n))
    × (value n.raw ≡ some (42 ∷ []))
get_node-put_self_example =
    get_node-put_self node_map node_map-IsLawful env left_path (42 ∷ []) two_empty nodes left-Held
      put_left put_left-IsFresh

nothing_right : get_node node_map (rooted two_empty) right_path nodes ≡ ok none
unfolding get_node get_from BtreeMap.get
nothing_right = refl

get_node-put_ne_example :
    (after : SpareMerkleTrie × NodeMap) × (put node_map env left_path
        (42 ∷ [])
        (rooted two_empty, nodes)
      ≡ (ok tt, after))
    × (get_node node_map after.0 right_path after.1 ≡ ok none)
get_node-put_ne_example =
    get_node-put_ne node_map node_map-IsLawful env left_path right_path (42 ∷ []) two_empty nodes
      left-Held right-Held put_left put_left-IsFresh (omega arith, refl) (omega arith, refl) refl
      (λ e. absurd (cc)) nothing_right

abbrev siblings : List Bytes
siblings = [] ∷ (replicate 32 1 ++ replicate 32 2) ∷ []

abbrev sibling : Node
sibling = record {
  raw = branch (record { left = replicate 32 1; right = replicate 32 2 });
  hash = digest (replicate 32 1 ++ replicate 32 2);
}

abbrev parent : Node
parent = record {
  raw = branch (record { left = digest []; right = sibling.hash });
  hash = digest (digest [] ++ sibling.hash);
}

fold_runs :
    fold_proof env 1 5 0x16 (1 ∷ 0 ∷ []) siblings (digest [])
    ≡ ok (parent.hash, sibling ∷ parent ∷ [])
unfolding fold_proof sibling_node raw_branch_auto branch_node new value_hash to_bytes parse_branch
    big_endian_types exactly_32
fold_runs = refl

fold_proof_binding_example :
    (digest [] ≡ digest []) ⊎ Clash (sibling ∷ parent ∷ []) (sibling ∷ parent ∷ [])
fold_proof_binding_example =
    fold_proof_binding env 1 5 0x16 5 0x16 (1 ∷ 0 ∷ []) siblings siblings (digest []) (digest [])
      fold_runs fold_runs

abbrev ok_or_nothing : Result Error (Node × NodeMap) → Node × NodeMap
ok_or_nothing (ok r) = r
ok_or_nothing (err e) = (empty_leaf_node, [])
ok_or_nothing panic = (empty_leaf_node, [])

abbrev empty_world : Node × NodeMap
empty_world = ok_or_nothing (init_world_state env)

empty_world_defined : init_world_state env {E = Error} ≡ ok (empty_world.0, empty_world.1)
unfolding init_world_state grow_empty branch_node new value_hash to_bytes BtreeMap.insert
empty_world_defined = refl

-- A hash that no node of the empty trie has, under which the store has another node, and a second
-- hash.
abbrev taken : MemStore
taken = record {
  nodes = (replicate 32 9, sibling) ∷ (replicate 32 10, parent) ∷ [];
  index = [];
  staging = [];
  codes = [];
}

abbrev nine : Sh256
nine = replicate 32 9

abbrev ten : Sh256
ten = replicate 32 10

ten_is_not_nine : ten ≢ nine
ten_is_not_nine e = absurd (cc)

prefix_db-get_update_example :
    ((prefix_db env 3).update_node nine parent taken).0 ≡ ok parent
    × (((BtreeMap.get nine empty_world.1 ≡ none)
          × ((prefix_db env 3).get_node ((prefix_db env 3).update_node nine parent taken).1 nine
              ≡ ok (some parent)))
        ⊎ ((m : Node) × (BtreeMap.get nine empty_world.1 ≡ some m)
            × ((prefix_db env 3).get_node ((prefix_db env 3).update_node nine parent taken).1 nine
                ≡ ok (some m))))
    × ((prefix_db env 3).get_node ((prefix_db env 3).update_node nine parent taken).1 ten
        ≡ (prefix_db env 3).get_node taken ten)
prefix_db-get_update_example =
    prefix_db-get_update env empty_world.0 empty_world.1 empty_world_defined 3 nine ten parent taken
      ten_is_not_nine

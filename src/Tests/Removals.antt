-- ===== src/Tests/Removals.antt =====
-- The theorems on the removal of leaves at a concrete input: a trie of one leaf, on the left.
use linea_sgx_prover.Prelude.{none, some, [], ◌∷◌, ◌++◌, ◌≡◌, refl, arith}
use linea_sgx_prover.Prelude.Results.{ok}
use linea_sgx_prover.BtreeMap
use linea_sgx_prover.BtreeMap.{bytes_ord}
use linea_sgx_prover.Zktrie.Types.{zero_hash}
use linea_sgx_prover.Zktrie.Node.{empty_leaf_node, branch_node, new, value_hash, to_bytes}
use linea_sgx_prover.Zktrie.Sparse.{SpareMerkleTrie, levels, get_node, remove, get_from}
use linea_sgx_prover.Zktrie.Sparse.Tree.{Tree, tip, fork, node_of, new_fork}
use linea_sgx_prover.Zktrie.Sparse.Tree.Removal.{tree_remove, path_forks}
use linea_sgx_prover.Zktrie.Sparse.Refine.{Held}
use linea_sgx_prover.Zktrie.Sparse.Refine.Fresh.{IsFresh}
use linea_sgx_prover.Zktrie.Sparse.Laws.{rooted, Ends}
use linea_sgx_prover.Zktrie.Sparse.Removals.{
  remove-tree_remove, get_node-remove_self, get_node-remove_ne,
}
use linea_sgx_prover.Tests.Toys.{digest, env, NodeMap, node_map, node_map-IsLawful}
use linea_sgx_prover.Tests.Zktrie.{left_path, right_path, new_leaf, one_leaf}

abbrev nodes : NodeMap
nodes =
    (zero_hash, empty_leaf_node)
    ∷ (new_leaf.hash, new_leaf)
    ∷ (digest (digest (42 ∷ []) ++ zero_hash), node_of one_leaf)
    ∷ []

left-Held : Held node_map nodes left_path one_leaf
unfolding Held BtreeMap.get
left-Held = (refl, (refl, tt))

right-Held : Held node_map nodes right_path one_leaf
unfolding Held BtreeMap.get
right-Held = (refl, (refl, tt))

abbrev no_leaf : Tree
no_leaf = fork (digest (zero_hash ++ zero_hash)) (tip empty_leaf_node) (tip empty_leaf_node)

removed_left : tree_remove env levels left_path one_leaf ≡ ok no_leaf
unfolding tree_remove new_fork branch_node new value_hash to_bytes
removed_left = refl

removed_left-IsFresh : IsFresh node_map (path_forks left_path no_leaf) nodes
unfolding path_forks BtreeMap.get BtreeMap.insert
removed_left-IsFresh = (λ m h. absurd (cc), tt)

has_empty : node_map.get_node nodes zero_hash ≡ ok (some empty_leaf_node)
unfolding BtreeMap.get
has_empty = refl

remove-tree_remove_example :
    Ends node_map
      (path_forks left_path)
      (rooted one_leaf, nodes)
      (tree_remove env levels left_path one_leaf)
      (remove node_map env left_path (rooted one_leaf, nodes))
remove-tree_remove_example =
    remove-tree_remove node_map node_map-IsLawful env left_path one_leaf nodes left-Held

get_node-remove_self_example :
    (after : SpareMerkleTrie × NodeMap) × (remove node_map env left_path (rooted one_leaf, nodes)
      ≡ (ok tt, after))
    × (get_node node_map after.0 left_path after.1 ≡ ok none)
get_node-remove_self_example =
    get_node-remove_self node_map node_map-IsLawful env left_path one_leaf nodes has_empty left-Held
      removed_left removed_left-IsFresh

leaf_left : get_node node_map (rooted one_leaf) left_path nodes ≡ ok (some new_leaf)
unfolding get_node get_from BtreeMap.get
leaf_left = refl

nothing_right : get_node node_map (rooted one_leaf) right_path nodes ≡ ok none
unfolding get_node get_from BtreeMap.get
nothing_right = refl

get_node-remove_ne_example :
    (after : SpareMerkleTrie × NodeMap) × (remove node_map env left_path (rooted one_leaf, nodes)
      ≡ (ok tt, after))
    × (get_node node_map after.0 right_path after.1 ≡ ok none)
get_node-remove_ne_example =
    get_node-remove_ne node_map node_map-IsLawful env left_path right_path one_leaf nodes has_empty
      left-Held right-Held removed_left removed_left-IsFresh leaf_left (omega arith, refl)
      (omega arith, refl) refl (λ e. absurd (cc)) nothing_right

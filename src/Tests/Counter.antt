-- ===== src/Tests/Counter.antt =====
-- The theorem on the counter of free leaves at a concrete input: a top node with the counter 2.
use linea_sgx_prover.Prelude.{ℕ, some, [], ◌∷◌, ◌++◌, ◌≡◌, refl, arith, replicate}
use linea_sgx_prover.Prelude.Results.{ok}
use linea_sgx_prover.BtreeMap
use linea_sgx_prover.BtreeMap.{bytes_ord}
use linea_sgx_prover.EthTypes.{big_endian_types}
use linea_sgx_prover.Bytes.Endian.{to_be, from_be}
use linea_sgx_prover.Zktrie.Types.{BranchNode, Node, Error, branch}
use linea_sgx_prover.Zktrie.Node.{top_node, branch_node, new, value_hash, to_bytes, as_branch}
use linea_sgx_prover.Zktrie.Path.{parse_node_index}
use linea_sgx_prover.Zktrie.Sparse
use linea_sgx_prover.Zktrie.Sparse.{SpareMerkleTrie, root_branch, root_node}
use linea_sgx_prover.Zktrie.Trie.{
  next_free_node, sub_root_hash, increment_next_free_leaf_node_index,
}
use linea_sgx_prover.Zktrie.Trie.Counter.{HasTop, next_free_node-increment}
use linea_sgx_prover.Tests.Toys.{digest, env, NodeMap, node_map, node_map-IsLawful}

abbrev top : ℕ → BranchNode
top n = record { left = replicate 31 0 ++ n ∷ []; right = replicate 32 7 }

abbrev top_at : ℕ → Node
top_at n = record { raw = branch (top n); hash = digest ((top n).left ++ (top n).right) }

abbrev state : SpareMerkleTrie × NodeMap
state = (record { root_hash = (top_at 2).hash }, ((top_at 2).hash, top_at 2) ∷ [])

state-HasTop : HasTop node_map node_map-IsLawful env state (top 2)
unfolding root_branch root_node as_branch BtreeMap.get
state-HasTop = refl

counter : next_free_node node_map env state ≡ ok 2
unfolding next_free_node Sparse.next_free_node root_branch root_node as_branch parse_node_index
    from_be BtreeMap.get
counter = refl

next_top : top_node env {E = Error} 3 (replicate 32 7) ≡ ok (top_at 3)
unfolding top_node branch_node new value_hash to_bytes to_be big_endian_types
next_top = refl

unused : (m : Node) → node_map.get_node state.1 (top_at 3).hash ≡ ok (some m) → m ≡ top_at 3
unfolding BtreeMap.get
unused m h = absurd (cc)

next_free_node-increment_example :
    (after : SpareMerkleTrie × NodeMap) × (increment_next_free_leaf_node_index node_map env state
      ≡ (ok 3, after))
    × (next_free_node node_map env after ≡ ok 3)
    × (sub_root_hash node_map env after ≡ sub_root_hash node_map env state)
next_free_node-increment_example =
    next_free_node-increment node_map node_map-IsLawful env state 2 (top 2) state-HasTop counter
      (omega arith) next_top unused

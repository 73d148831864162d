-- ===== src/Tests/Stores.antt =====
-- The theorem on the nodes of reached stores at a concrete input: the store of the empty trie.
use linea_sgx_prover.Prelude.{
  ℕ, get_elem?, ◌+◌, ◌*◌, ◌%◌, ◌∷◌, replicate, ◌≡◌, refl, some, none, Option,
}
use linea_sgx_prover.Prelude.Results.{Result, ok, err, panic}
use linea_sgx_prover.EthTypes.{Sh256}
use linea_sgx_prover.Zktrie.Types.{Env, Node, Error}
use linea_sgx_prover.Bytes.{Bytes}
use linea_sgx_prover.Bytes.Endian.{from_be, from_be_from}
use linea_sgx_prover.BtreeMap
use linea_sgx_prover.BtreeMap.{bytes_ord}
use linea_sgx_prover.Zktrie.Path.{get_leaf_path, parse_node_index, prefix_len, write_bits}
use linea_sgx_prover.Zktrie.Opening
use linea_sgx_prover.Zktrie.Sparse
use linea_sgx_prover.Zktrie.Node.{
  value_hash, empty_leaf_node, init_world_state, as_branch, child, leaf_node, branch_node,
  grow_empty, new, new_replace, to_bytes, top_node,
}
use linea_sgx_prover.Zktrie.Sparse.{SpareMerkleTrie}
use linea_sgx_prover.Zktrie.Trie
use linea_sgx_prover.Zktrie.Store.{MemStore, empty_store, get_node, update_node, update_index}
use linea_sgx_prover.Zktrie.Store.Instance.{prefix_db}
use linea_sgx_prover.Zktrie.Store.Reached.{fresh, emptied, get_node-Reached}
use linea_sgx_prover.EthTypes.{big_endian_types}

-- A hash whose first byte tells.
abbrev pub quick : Bytes → Sh256
quick b = ((at 0 * 3 + at 31 * 5 + at 32 * 7 + at 63 * 11 + 1) % 1000003) ∷ replicate 31 0
  where
    at : ℕ → ℕ
    at i = elim (get_elem? b i) [ some x ↦ x | none ↦ 0 ]

abbrev pub quick_env : Env
quick_env = record { eth = big_endian_types; sum = λ b. ok (quick b); keccak = quick }

abbrev begun : SpareMerkleTrie × MemStore
begun = (Trie.empty (prefix_db quick_env 3) quick_env empty_store).1

abbrev found : Result Error (Option Node)
found = get_node quick_env begun.1 begun.0.root_hash

abbrev root_of : Result Error (Option Node) → Node
root_of (ok (some n)) = n
root_of (ok none) = empty_leaf_node
root_of (err e) = empty_leaf_node
root_of panic = empty_leaf_node

found_root : get_node quick_env begun.1 begun.0.root_hash ≡ ok (some (root_of found))
unfolding get_node init_world_state BtreeMap.get Trie.empty Trie.set_head_and_tail
    Trie.next_free_node Sparse.next_free_node Sparse.root_branch Sparse.root_node as_branch
    parse_node_index get_leaf_path Trie.put_opening Sparse.put Sparse.add_leaf child
    Sparse.add_leaf_node leaf_node Sparse.db_add BtreeMap.insert from_be from_be_from branch_node
    grow_empty new new_replace to_bytes top_node value_hash Opening.to_bytes prefix_len write_bits
    Sparse.set_next_free_node Trie.increment_next_free_leaf_node_index update_node update_index
    big_endian_types
found_root = refl

get_node-Reached_example :
    ((root_of found).hash ≡ begun.0.root_hash)
    × (value_hash quick_env {E = Error} (root_of found).raw ≡ ok (root_of found).hash)
get_node-Reached_example =
    get_node-Reached quick_env begun.0.root_hash (emptied 3 empty_store fresh) found_root

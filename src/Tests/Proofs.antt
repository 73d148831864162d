-- ===== src/Tests/Proofs.antt =====
-- A proof of 40 levels that the store accepts.
use linea_sgx_prover.Prelude.{some, ◌⊎◌, List, [], ◌∷◌, ◌++◌, ◌≡◌, refl, replicate}
use linea_sgx_prover.Prelude.Results.{Result, ok, err, panic}
use linea_sgx_prover.Bytes.{Bytes}
use linea_sgx_prover.BtreeMap
use linea_sgx_prover.BtreeMap.{bytes_ord, slot_ord}
use linea_sgx_prover.EthTypes.{Sh256, big_endian_types, exactly_32}
use linea_sgx_prover.Zktrie.Types.{Node, BranchNode, KeyRange, Error, zero_hash}
use linea_sgx_prover.Zktrie.Path.{get_leaf_path, write_bits}
use linea_sgx_prover.Zktrie.Node.{
  as_branch, branch_node, new, value_hash, to_bytes, raw_branch_auto, parse_branch, parse_leaf,
}
use linea_sgx_prover.Zktrie.Store.{
  MemStore, empty_store, level, or_range, insert_nodes, sibling_node, fold_proof, accept, add_proof,
  get_nearest_keys,
}
use linea_sgx_prover.Zktrie.Store.Ranges.{get_nearest_keys-add_proof}
use linea_sgx_prover.Tests.Toys.{digest, env}

abbrev path : Bytes
path = 1 ∷ replicate 40 0 ++ 0x16 ∷ []

abbrev below : List Bytes
below = replicate 39 (replicate 64 3) ++ (1 ∷ []) ∷ (2 ∷ []) ∷ []

abbrev first_or_nothing : Result Error (Sh256 × List Node) → Sh256
first_or_nothing (ok r) = r.0
first_or_nothing (err e) = []
first_or_nothing panic = []

abbrev top : Sh256
top = first_or_nothing (fold_proof env 40 40 0x16 path ([] ∷ below) (digest (2 ∷ [])))

abbrev siblings : List Bytes
siblings = (zero_hash ++ top) ∷ below

abbrev key : Sh256
key = replicate 32 8

abbrev stored_or_nothing : Result Error (Sh256 × MemStore) → Sh256 × MemStore
stored_or_nothing (ok r) = r
stored_or_nothing (err e) = ([], empty_store)
stored_or_nothing panic = ([], empty_store)

abbrev added : Sh256 × MemStore
added = stored_or_nothing (add_proof env 3 0 key (some (4 ∷ [])) siblings empty_store)

accepted : add_proof env 3 0 key (some (4 ∷ [])) siblings empty_store ≡ ok (added.0, added.1)
unfolding add_proof accept fold_proof sibling_node raw_branch_auto branch_node new value_hash
    to_bytes parse_branch parse_leaf as_branch get_leaf_path write_bits big_endian_types exactly_32
    level or_range insert_nodes BtreeMap.get BtreeMap.insert
accepted = refl

get_nearest_keys-add_proof_example :
    (root : Node) × ((b : BranchNode) × ((range : KeyRange) × BtreeMap.get added.0 added.1.nodes
          ≡ some root
        × as_branch root.raw ≡ some b
        × get_nearest_keys 3 added.1 added.0 key ≡ ok range
        × ((get_nearest_keys 3 empty_store added.0 key ≡ ok range)
            ⊎ ((v : Bytes) × (get_nearest_keys 3 empty_store added.0 key ≡ panic)
                × (some (4 ∷ []) ≡ some v)
                × (range ≡ record {
                  left_index = 0;
                  center = some (record { leaf_index = 0; leaf_value = v });
                  right_index = 0;
                })))))
get_nearest_keys-add_proof_example =
    get_nearest_keys-add_proof env 3 0 key (some (4 ∷ [])) siblings empty_store accepted

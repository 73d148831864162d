-- ===== src/Tests/Traces.antt =====
-- The theorem on the store of honest traces at a concrete input: the trace of one update.
use linea_sgx_prover.Prelude.{◌++◌, ◌≡◌, refl, none, some, List, [], ◌∷◌, Option, replicate}
use linea_sgx_prover.Prelude.Results.{Result, ok, err, panic}
use linea_sgx_prover.Bytes.{Bytes}
use linea_sgx_prover.Bytes.Endian.{to_be, from_be, from_be_from}
use linea_sgx_prover.BtreeMap
use linea_sgx_prover.BtreeMap.{Map, bytes_ord}
use linea_sgx_prover.EthTypes.{big_endian_types, exactly_32, narrow}
use linea_sgx_prover.Zktrie.Path.{get_leaf_path, write_bits}
use linea_sgx_prover.Zktrie.Opening
use linea_sgx_prover.Zktrie.Types.{Node, Error, zero_hash}
use linea_sgx_prover.Zktrie.Node.{
  empty_leaf_node, top_node, init_world_state, grow_empty, leaf_node, next_free_node, branch_node,
  new, new_next_free, to_bytes, trie_hash, value_hash,
}
use linea_sgx_prover.Zktrie.Opening.{LeafOpening}
use linea_sgx_prover.Zktrie.Trace.{
  bottom, climb, old_state, nodes, key, key_range, old_top_hash, old_top_node, Trace, UpdateTrace,
  TraceProof, update, build_nodes,
}
use linea_sgx_prover.Zktrie.Store.{
  trace_nodes, levels_from_traces, add_traces, add_trace, insert_nodes, level, MemStore,
  from_traces, empty_store, get_node, update_node,
}
use linea_sgx_prover.Zktrie.Store.Climbs.{last_hash, beside}
use linea_sgx_prover.Zktrie.Store.Traced.{updated}
use linea_sgx_prover.Zktrie.Store.Instance.{prefix_db}
use linea_sgx_prover.Zktrie.Sparse
use linea_sgx_prover.Zktrie.Sparse.Tree.{Tree, fork}
use linea_sgx_prover.Zktrie.Sparse.Refine.{Held}
use linea_sgx_prover.Zktrie.Store.Readable.{NoClash, Answers, from_traces-Answers}
use linea_sgx_prover.Tests.Stores.{quick_env}

abbrev opening : LeafOpening
opening = record { hkey = replicate 32 5; hval = replicate 32 6; prev_leaf = 0; next_leaf = 1 }

abbrev proof : TraceProof
proof = record { leaf_index = 2; siblings = replicate 40 zero_hash }

abbrev or_default : {A : Type 0} → A → Result Error A → A
or_default a (ok b) = b
or_default a (err e) = a
or_default a panic = a

abbrev climbed : List Node
climbed = or_default [] (build_nodes quick_env proof (some opening))

abbrev sub : Bytes
sub = elim (last_hash climbed) [ some h ↦ h | none ↦ zero_hash ]

abbrev change : UpdateTrace
change = record {
  location = [];
  new_next_free_node = 3;
  old_sub_root = sub;
  new_sub_root = zero_hash;
  proof = proof;
  key = 5 ∷ [];
  old_value = 6 ∷ [];
  new_value = 7 ∷ [];
  prior_updated_leaf = opening;
}

abbrev traced : Trace
traced = update change

abbrev store : MemStore
store = or_default empty_store (from_traces quick_env (traced ∷ []))

abbrev root : Node
root = or_default empty_leaf_node (top_node quick_env {E = Error} 3 sub)

abbrev begun : MemStore
begun = (update_node root.hash root store).1

abbrev look : MemStore → List Node → List (Result Error (Option Node))
look s [] = []
look s (n ∷ ns) = get_node quick_env s n.hash ∷ look s ns

abbrev found : List Node → List (Result Error (Option Node))
found [] = []
found (n ∷ ns) = ok (some n) ∷ found ns

abbrev world : Node × Map Bytes Node
world = or_default (empty_leaf_node, []) (init_world_state quick_env {E = Error})

abbrev path : Bytes
path = 1 ∷ replicate 38 0 ++ 1 ∷ 0 ∷ 0x16 ∷ []

look-NoClash : (s : MemStore) (ns : List Node) → look s ns ≡ found ns → NoClash quick_env s ns
look-NoClash s [] h = tt
look-NoClash s (n ∷ ns) h =
    (λ m e. let same : get_node quick_env s n.hash ≡ ok (some n) = cc in cc, look-NoClash s ns (cc))

looked : look begun (root ∷ climbed) ≡ found (root ∷ climbed)
unfolding get_node init_world_state grow_empty BtreeMap.get top_node big_endian_types build_nodes
    get_leaf_path bottom leaf_node climb Opening.to_bytes update_node from_traces trace_nodes
    old_state next_free_node nodes levels_from_traces add_traces BtreeMap.insert to_be branch_node
    new new_next_free to_bytes trie_hash value_hash write_bits add_trace insert_nodes level key
    key_range old_top_hash old_top_node exactly_32 narrow from_be from_be_from
looked = refl

built : build_nodes quick_env {E = Error} proof (some opening) ≡ ok climbed
unfolding get_node init_world_state grow_empty BtreeMap.get top_node big_endian_types build_nodes
    get_leaf_path bottom leaf_node climb Opening.to_bytes update_node from_traces trace_nodes
    old_state next_free_node nodes levels_from_traces add_traces BtreeMap.insert to_be branch_node
    new new_next_free to_bytes trie_hash value_hash write_bits add_trace insert_nodes level key
    key_range old_top_hash old_top_node exactly_32 narrow from_be from_be_from
built = refl

made : from_traces quick_env (traced ∷ []) ≡ ok store
unfolding get_node init_world_state grow_empty BtreeMap.get top_node big_endian_types build_nodes
    get_leaf_path bottom leaf_node climb Opening.to_bytes update_node from_traces trace_nodes
    old_state next_free_node nodes levels_from_traces add_traces BtreeMap.insert to_be branch_node
    new new_next_free to_bytes trie_hash value_hash write_bits add_trace insert_nodes level key
    key_range old_top_hash old_top_node exactly_32 narrow from_be from_be_from
made = refl

topped : top_node quick_env {E = Error} 3 sub ≡ ok root
unfolding get_node init_world_state grow_empty BtreeMap.get top_node big_endian_types build_nodes
    get_leaf_path bottom leaf_node climb Opening.to_bytes update_node from_traces trace_nodes
    old_state next_free_node nodes levels_from_traces add_traces BtreeMap.insert to_be branch_node
    new new_next_free to_bytes trie_hash value_hash write_bits add_trace insert_nodes level key
    key_range old_top_hash old_top_node exactly_32 narrow from_be from_be_from
topped = refl

honest : last_hash climbed ≡ some sub
unfolding get_node init_world_state grow_empty BtreeMap.get top_node big_endian_types build_nodes
    get_leaf_path bottom leaf_node climb Opening.to_bytes update_node from_traces trace_nodes
    old_state next_free_node nodes levels_from_traces add_traces BtreeMap.insert to_be branch_node
    new new_next_free to_bytes trie_hash value_hash write_bits add_trace insert_nodes level key
    key_range old_top_hash old_top_node exactly_32 narrow from_be from_be_from
honest = refl

dated : old_state {E = Error} traced ≡ ok (3, sub)
unfolding old_state
dated = refl

located : get_leaf_path {E = Error} 2 ≡ ok (1 ∷ replicate 38 0 ++ 1 ∷ 0 ∷ 0x16 ∷ [])
unfolding get_leaf_path write_bits
located = refl

world_defined : init_world_state quick_env {E = Error} ≡ ok (world.0, world.1)
unfolding init_world_state grow_empty BtreeMap.insert branch_node new value_hash to_bytes
world_defined = refl

from_traces-Answers_example :
    (whole : Tree) × Held
      (prefix_db quick_env 3)
      begun
      path
      (fork root.hash (beside (quick_env.eth.to_big_endian 3)) whole)
    × Answers quick_env
        (some opening)
        (Sparse.get_node (prefix_db quick_env 3) (record { root_hash = root.hash }) path begun)
from_traces-Answers_example =
    from_traces-Answers quick_env 3 0 (traced ∷ []) refl (updated change) made world_defined located
      built refl dated honest topped (look-NoClash begun (root ∷ climbed) looked)

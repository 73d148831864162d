-- ===== src/Zktrie/Store.antt =====
-- `MemStore`, `LevelMap` and `PrefixDB` of src/common/zktrie/src/storage.rs.
pub mod Instance
pub mod Inclusion
pub mod Ranges
pub mod Authentic
pub mod Contents
pub mod Reached
pub mod Climbs
pub mod Traced
pub mod Readable
use linea_sgx_prover.Prelude.{
  ℕ, zero, suc, ◌+◌, ◌-◌, ◌^◌, Option, none, some, List, [], ◌∷◌, ◌++◌, ◌==◌, if◌then◌else◌, length,
  get_elem?,
}
use linea_sgx_prover.Prelude.Results.{Result, ok, err, panic, ◌>>=◌, ◌>>◌, expect, assert}
use linea_sgx_prover.Bytes.{Bytes, bytes_eq}
use linea_sgx_prover.BtreeMap
use linea_sgx_prover.BtreeMap.{Map, bytes_ord, slot_ord}
use linea_sgx_prover.EthTypes.{Sh256}
use linea_sgx_prover.Zktrie.Types.{Env, Node, Error, FlattenedLeaf, KeyRange, invalid_proof}
use linea_sgx_prover.Zktrie.Path.{get_leaf_path}
use linea_sgx_prover.Zktrie.Node.{
  new, as_branch, branch_node, raw_branch_auto, parse_branch, parse_leaf, trie_hash, next_free_node,
  init_world_state,
}
use linea_sgx_prover.Zktrie.Trace
use linea_sgx_prover.Zktrie.Trace.{Trace, old_state, old_top_hash, key_range, nodes}

-- `LevelMap`: for each root the ranges of the keys that were traced under it.
abbrev pub LevelMap : Type 0
LevelMap = Map Sh256 (Map (ℕ × Sh256) KeyRange)

pub record MemStore : Type 0 where
  pub nodes : Map Sh256 Node
  pub index : LevelMap
  pub staging : Map Sh256 FlattenedLeaf
  pub codes : Map Sh256 Bytes

-- `u64::max_value()`, the prefix of the account trie.
abbrev pub max_u64 : ℕ
max_u64 = 2 ^ 64 - 1

-- `MemStore::new`.
abbrev pub empty_store : MemStore
empty_store = record { nodes = []; index = []; staging = []; codes = [] }

-- The entry of a root, `or_insert_with(BTreeMap::new)`.
unfoldable pub level : Sh256 → LevelMap → Map (ℕ × Sh256) KeyRange
level root vals = elim (BtreeMap.get root vals) [ some m ↦ m | none ↦ [] ]

-- `or_insert_with` of `add_proof`: an entry that is there stays, and a new one needs the value.
unfoldable pub or_range : Option KeyRange → ℕ → Option Bytes → Result Error KeyRange
or_range (some r) leaf_index value = ok r
or_range none leaf_index value = do
  v ← expect value
  ok (record {
    left_index = 0;
    center = some (record { leaf_index = leaf_index; leaf_value = v });
    right_index = 0;
  })

module _ (env : Env) where
  -- One round of `LevelMap::from_traces`.
  unfoldable pub add_trace : LevelMap → Trace → Result Error LevelMap
  add_trace vals trace = do
    top_hash ← old_top_hash env trace
    hkey ← trie_hash env (Trace.key trace)
    ok (
        BtreeMap.insert top_hash
          (BtreeMap.insert (max_u64, hkey) (key_range trace) (level top_hash vals)) vals)

  unfoldable pub add_traces : LevelMap → List Trace → Result Error LevelMap
  add_traces vals [] = ok vals
  add_traces vals (trace ∷ traces) = do next ← add_trace vals trace; add_traces next traces

  -- `LevelMap::from_traces`: the loop reads `traces[0]` before its test.
  unfoldable pub levels_from_traces : List Trace → Result Error LevelMap
  levels_from_traces [] = panic
  levels_from_traces (trace ∷ traces) = add_traces [] (trace ∷ traces)

  unfoldable pub insert_nodes : List Node → Map Sh256 Node → Map Sh256 Node
  insert_nodes [] m = m
  insert_nodes (n ∷ ns) m = insert_nodes ns (BtreeMap.insert n.hash n m)

  -- `trace_nodes`, from the map `m`.
  unfoldable pub trace_nodes : List Trace → Map Sh256 Node → Result Error (Map Sh256 Node)
  trace_nodes [] m = ok m
  trace_nodes (trace ∷ traces) m = do
    (free, sub_root) ← old_state trace
    free_node ← next_free_node env free
    root ← branch_node env free_node.hash sub_root
    ns ← nodes env trace
    trace_nodes traces (insert_nodes ns (insert_nodes (root ∷ free_node ∷ []) m))

  -- `MemStore::from_traces`.
  unfoldable pub from_traces : List Trace → Result Error MemStore
  from_traces traces = do
    ns ← trace_nodes traces []
    index ← levels_from_traces traces
    ok (record { nodes = ns; index = index; staging = []; codes = [] })

  -- `MemStore::add_codes`.
  unfoldable pub add_codes : List Bytes → MemStore → MemStore
  add_codes [] s = s
  add_codes (code ∷ codes) s =
      add_codes codes (record s { codes = BtreeMap.insert (env.keccak code) code s.codes })

  -- The sibling of one round of `add_proof`: the one beside the leaf is a leaf.
  unfoldable pub sibling_node : ℕ → ℕ → ℕ → Bytes → Result Error Node
  sibling_node idx sibling_leaf_idx marker bytes =
      if idx == sibling_leaf_idx
      then new env (parse_leaf (marker ∷ []) bytes)
      else (do raw ← parse_branch env bytes; new env raw)

  -- The loop of `add_proof`, from the index `idx` down to 1: the hash at the top, and the nodes in
  -- the order of `out`.
  unfoldable pub fold_proof :
      ℕ → ℕ → ℕ → Bytes → List Bytes → Sh256 → Result Error (Sh256 × List Node)
  fold_proof zero sibling_leaf_idx marker trie_path siblings leaf_hash = ok (leaf_hash, [])
  fold_proof (suc i) sibling_leaf_idx marker trie_path siblings leaf_hash = do
    bytes ← expect (get_elem? siblings (suc i))
    sibling ← sibling_node (suc i) sibling_leaf_idx marker bytes
    bit ← expect (get_elem? trie_path (suc i))
    up ← raw_branch_auto env bit leaf_hash sibling.hash
    (top, rest) ← fold_proof i sibling_leaf_idx marker trie_path siblings up.hash
    ok (top, sibling ∷ up ∷ rest)

  -- The end of `add_proof`: the hash at the top is the right child of the root, and the nodes and
  -- the range are kept.
  unfoldable pub accept :
      ℕ
      → ℕ
      → Sh256
      → Option Bytes
      → Node
      → Sh256 × List Node
      → MemStore
      → Result Error (Sh256 × MemStore)
  accept prefix leaf_index hkey value root folded s = do
    b ← expect (as_branch root.raw)
    if bytes_eq folded.0 b.right
        then (do
          range ← or_range (BtreeMap.get (prefix, hkey) (level root.hash s.index)) leaf_index value
          ok (
            root.hash,
            record s {
              nodes = insert_nodes (folded.1 ++ root ∷ []) s.nodes;
              index =
                  BtreeMap.insert root.hash
                    (BtreeMap.insert (prefix, hkey) range (level root.hash s.index)) s.index;
            },
          ))
        else err invalid_proof

  -- `MemStore::add_proof`: the root hash and the store.
  unfoldable pub add_proof :
      ℕ → ℕ → Sh256 → Option Bytes → List Bytes → MemStore → Result Error (Sh256 × MemStore)
  add_proof prefix leaf_index hkey value siblings s = do
    trie_path ← get_leaf_path leaf_index
    assert (length siblings == length trie_path)
    root_bytes ← expect (get_elem? siblings 0)
    root_raw ← parse_branch env root_bytes
    root ← new env root_raw
    leaf_value ← expect (get_elem? siblings (length siblings - 1))
    marker ← expect (get_elem? trie_path (length trie_path - 1))
    leaf ← new env (parse_leaf (marker ∷ []) leaf_value)
    folded ←
        fold_proof (length siblings - 2) (length siblings - 2) marker trie_path siblings leaf.hash
    accept prefix leaf_index hkey value root folded s

  -- `MemStore::get_node`: the nodes of the empty trie come first.
  unfoldable pub get_node : MemStore → Sh256 → Result Error (Option Node)
  get_node s key = do
    (_, empty_nodes) ← init_world_state env
    elim (BtreeMap.get key empty_nodes) [
      | some n ↦ ok (some n)
      | none ↦ ok (BtreeMap.get key s.nodes)
    ]

-- `MemStore::update_node`.
unfoldable pub update_node : Sh256 → Node → MemStore → Result Error Node × MemStore
update_node key node s = (ok node, record s { nodes = BtreeMap.insert key node s.nodes })

-- `MemStore::get_code`.
unfoldable pub get_code : MemStore → Sh256 → Option Bytes
get_code s hash = BtreeMap.get hash s.codes

-- `MemStore::update_index` and `MemStore::remove_index`.
unfoldable pub update_index : Sh256 → FlattenedLeaf → MemStore → MemStore
update_index k v s = record s { staging = BtreeMap.insert k v s.staging }

unfoldable pub remove_index : Sh256 → MemStore → MemStore
remove_index k s = record s { staging = BtreeMap.remove k s.staging }

-- `MemStore::get_nearest_keys`.
unfoldable pub get_nearest_keys : ℕ → MemStore → Sh256 → Sh256 → Result Error KeyRange
get_nearest_keys prefix s root k = do
  map ← expect (BtreeMap.get root s.index)
  expect (BtreeMap.get (prefix, k) map)

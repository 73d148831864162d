-- ===== src/Zktrie/Trie.antt =====
-- `ZkTrie` of src/common/zktrie/src/trie.rs over any `Database`: the linked list of leaf openings
-- in a sparse Merkle trie. Methods run on the trie and the database; what they wrote before an
-- error stays written.
pub mod Counter
pub mod Present
pub mod Writes
pub mod Paths
pub mod Leaves
pub mod Lookups
pub mod Insert
pub mod Absent
pub mod Unlink
use linea_sgx_prover.Prelude.{ℕ, ◌+◌, ◌^◌, Option, none, some, [], ◌∷◌, ltb, if◌then◌else◌}
use linea_sgx_prover.Prelude.Results
use linea_sgx_prover.Prelude.Results.{Result, ok, err, panic}
use linea_sgx_prover.Prelude.Exec.{Exec, pure, lift, reads, ◌>>=◌, ◌>>◌}
use linea_sgx_prover.Bytes.{Bytes}
use linea_sgx_prover.EthTypes.{Sh256}
use linea_sgx_prover.Zktrie.Types.{
  Env, Error, FlattenedLeaf, KeyRange, leaf_type_next_free_node, zk_trie_key_not_found,
  zk_trie_parse_node_fail,
}
use linea_sgx_prover.Zktrie.Path.{get_leaf_path}
use linea_sgx_prover.Zktrie.Node
use linea_sgx_prover.Zktrie.Node.{trie_hash, init_world_state, ty}
use linea_sgx_prover.Zktrie.Opening
use linea_sgx_prover.Zktrie.Opening.{LeafOpening}
use linea_sgx_prover.Zktrie.Database.{Database}
use linea_sgx_prover.Zktrie.Sparse
use linea_sgx_prover.Zktrie.Sparse.{SpareMerkleTrie}

-- `FlattenedLeaf::head` and `FlattenedLeaf::tail`.
abbrev pub head_leaf : FlattenedLeaf
head_leaf = record { leaf_index = 0; leaf_value = Opening.head.hval }

abbrev pub tail_leaf : FlattenedLeaf
tail_leaf = record { leaf_index = 1; leaf_value = Opening.tail.hval }

-- `FlattenedLeaf::leaf_path`, `KeyRange::left_path` and `KeyRange::right_path`.
unfoldable pub leaf_path : {E : Type 0} → FlattenedLeaf → Result E Bytes
leaf_path l = get_leaf_path l.leaf_index

unfoldable pub left_path : {E : Type 0} → KeyRange → Result E Bytes
left_path r = get_leaf_path r.left_index

unfoldable pub right_path : {E : Type 0} → KeyRange → Result E Bytes
right_path r = get_leaf_path r.right_index

-- `get_next_free_node_path`.
unfoldable pub get_next_free_node_path : Bytes
get_next_free_node_path = 0 ∷ leaf_type_next_free_node ∷ []

-- `found_free_node + 1` on a `u64`.
abbrev pub succ_u64 : {E : Type 0} → ℕ → Result E ℕ
succ_u64 n = if ltb (n + 1) (2 ^ 64) then ok (n + 1) else panic

module _ {D : Type 0} (db : Database D) (env : Env) where
  abbrev pub Run : Type 0 → Type 0
  Run A = Exec (SpareMerkleTrie × D) Error A

  -- `update_index` and `remove_index` of the database.
  abbrev pub update_index : Sh256 → FlattenedLeaf → Run (Unit {0})
  update_index k v (t, s) = (ok tt, (t, db.update_index k v s))

  abbrev pub remove_index : Sh256 → Run (Unit {0})
  remove_index k (t, s) = (ok tt, (t, db.remove_index k s))

  -- `next_free_node`, which is also `get_next_free_leaf_node`.
  unfoldable pub next_free_node : SpareMerkleTrie × D → Result Error ℕ
  next_free_node (t, s) = Sparse.next_free_node db t s

  unfoldable pub sub_root_hash : SpareMerkleTrie × D → Result Error Sh256
  sub_root_hash (t, s) = Sparse.sub_root_hash db t s

  -- `increment_next_free_leaf_node_index`.
  unfoldable pub increment_next_free_leaf_node_index : Run ℕ
  increment_next_free_leaf_node_index = do
    found_free_node ← reads next_free_node
    next ← lift (succ_u64 found_free_node)
    Sparse.set_next_free_node db env next
    pure next

  -- `parse_node` with `LeafOpening::parse`.
  unfoldable pub parse_node : Bytes → SpareMerkleTrie × D → Result Error LeafOpening
  parse_node key (t, s) = Results.◌>>=◌ (Sparse.get_node db t key s) (λ found. elim found [
    | some node ↦ elim (Node.value node.raw) [
      | some bytes ↦ Opening.parse env.eth bytes
      | none ↦ err (zk_trie_parse_node_fail key (ty node.raw))
    ]
    | none ↦ err (zk_trie_key_not_found key)
  ])

  -- `self.state.put(db, path, opening.to_bytes())`.
  unfoldable pub put_opening : Bytes → LeafOpening → Run (Unit {0})
  put_opening path o = Sparse.put db env path (Opening.to_bytes env.eth o)

  -- `set_head_and_tail`.
  unfoldable pub set_head_and_tail : Run (Unit {0})
  set_head_and_tail = do
    index ← reads next_free_node
    head_path ← lift (get_leaf_path index)
    put_opening head_path Opening.head
    update_index Opening.head.hkey head_leaf
    increment_next_free_leaf_node_index
    tail_index ← reads next_free_node
    update_index Opening.tail.hkey tail_leaf
    tail_path ← lift (get_leaf_path tail_index)
    put_opening tail_path Opening.tail
    increment_next_free_leaf_node_index
    pure tt

  -- `empty`: the new trie and the database.
  unfoldable pub empty : D → Result Error (Unit {0}) × (SpareMerkleTrie × D)
  empty s =
      (do
        (root, _) ← lift (init_world_state env)
        Sparse.set_root db env root.hash
        set_head_and_tail)
        (record { root_hash = [] }, s)

  -- `read`.
  unfoldable pub read : Bytes → SpareMerkleTrie × D → Result Error (Option Bytes)
  read key (t, s) = Results.◌>>=◌ (trie_hash env key) (λ hkey.
      Results.◌>>=◌ (db.get_nearest_keys s t.root_hash hkey)
        (λ nearest. ok (elim nearest.center [ some leaf ↦ some leaf.leaf_value | none ↦ none ])))

  -- The range of keys around a hash, under the root that the trie has.
  abbrev pub nearest_keys : Sh256 → SpareMerkleTrie × D → Result Error KeyRange
  nearest_keys hkey (t, s) = db.get_nearest_keys s t.root_hash hkey

  -- `remove`, where the key is present.
  unfoldable pub remove_present : Sh256 → KeyRange → FlattenedLeaf → Run (Unit {0})
  remove_present hkey nearest current = do
    left_leaf_path ← lift (left_path nearest)
    right_leaf_path ← lift (right_path nearest)
    prior_left_leaf ← reads (parse_node left_leaf_path)
    put_opening left_leaf_path (Opening.new_next_leaf prior_left_leaf nearest.right_index)
    leaf_path_to_delete ← lift (get_leaf_path current.leaf_index)
    prior_deleted_leaf ← reads (parse_node leaf_path_to_delete)
    remove_index hkey
    Sparse.remove db env leaf_path_to_delete
    prior_right_leaf ← reads (parse_node right_leaf_path)
    put_opening right_leaf_path (Opening.new_prev_leaf prior_right_leaf nearest.left_index)

  -- `remove`.
  unfoldable pub remove : Bytes → Run (Unit {0})
  remove key = do
    hkey ← lift (trie_hash env key)
    nearest ← reads (nearest_keys hkey)
    elim nearest.center [ some current ↦ remove_present hkey nearest current | none ↦ pure tt ]

  -- `put` of a new key.
  unfoldable pub put_absent : Sh256 → KeyRange → Bytes → Run (Unit {0})
  put_absent hkey nearest value = do
    left_leaf_path ← lift (left_path nearest)
    right_leaf_path ← lift (right_path nearest)
    next ← reads next_free_node
    prior_left_leaf ← reads (parse_node left_leaf_path)
    put_opening left_leaf_path (Opening.new_next_leaf prior_left_leaf next)
    leaf_path_to_add ← lift (get_leaf_path next)
    hval ← lift (trie_hash env value)
    update_index hkey (record { leaf_index = next; leaf_value = value })
    put_opening leaf_path_to_add (Opening.new nearest.left_index nearest.right_index hkey hval)
    prior_right_leaf ← reads (parse_node right_leaf_path)
    put_opening right_leaf_path (Opening.new_prev_leaf prior_right_leaf next)
    increment_next_free_leaf_node_index
    pure tt

  -- `put` of a present key.
  unfoldable pub put_present : Sh256 → FlattenedLeaf → Bytes → Run (Unit {0})
  put_present hkey current value = do
    leaf_path_to_update ← lift (leaf_path current)
    hval ← lift (trie_hash env value)
    update_index hkey (record { leaf_index = current.leaf_index; leaf_value = value })
    prior_updated_leaf ← reads (parse_node leaf_path_to_update)
    put_opening leaf_path_to_update (Opening.new_hval prior_updated_leaf hval)

  -- `put`. The roots that it logs are read, and may fail.
  unfoldable pub put : Bytes → Bytes → Run (Unit {0})
  put key value = do
    hkey ← lift (trie_hash env key)
    nearest ← reads (nearest_keys hkey)
    before ← reads sub_root_hash
    elim nearest.center [
      | none ↦ put_absent hkey nearest value
      | some current ↦ put_present hkey current value
    ]
    after ← reads sub_root_hash
    pure tt

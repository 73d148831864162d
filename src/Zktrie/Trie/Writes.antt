-- ===== src/Zktrie/Trie/Writes.antt =====
-- What the methods of src/common/zktrie/src/trie.rs leave in the database, whether they succeed or
-- fail.
use linea_sgx_prover.Prelude.{ℕ, Option, none, some, []}
use linea_sgx_prover.Prelude.Exec.{
  Exec, pure, reads, ◌>>=◌, ◌>>◌, Keeps, continue-Keeps, bind-Keeps,
}
use linea_sgx_prover.Bytes.{Bytes}
use linea_sgx_prover.EthTypes.{Sh256}
use linea_sgx_prover.Zktrie.Types.{Env, Error, FlattenedLeaf, KeyRange}
use linea_sgx_prover.Zktrie.Path.{get_leaf_path}
use linea_sgx_prover.Zktrie.Node.{trie_hash, init_world_state}
use linea_sgx_prover.Zktrie.Opening
use linea_sgx_prover.Zktrie.Opening.{LeafOpening}
use linea_sgx_prover.Zktrie.Database.{Database}
use linea_sgx_prover.Zktrie.Sparse
use linea_sgx_prover.Zktrie.Sparse.{SpareMerkleTrie}
use linea_sgx_prover.Zktrie.Sparse.Writes.{
  IsClosed, put-Keeps, remove-Keeps, set_next_free_node-Keeps,
}
use linea_sgx_prover.Zktrie.Trie
use linea_sgx_prover.Zktrie.Trie.{
  left_path, right_path, leaf_path, succ_u64, next_free_node, sub_root_hash, parse_node,
  put_opening, update_index, remove_index, nearest_keys, increment_next_free_leaf_node_index,
  remove_present, set_head_and_tail, head_leaf, tail_leaf, put_absent, put_present,
}

module _ {D : Type 0} (db : Database D) (env : Env) where
  -- A predicate of the database that every write of the state trie keeps.
  pub record AreWritesKept (P : D → Type 0) : Type 0 where
    pub added : IsClosed db env P
    pub updated : (s : D) (k : Sh256) (v : FlattenedLeaf) → P s → P (db.update_index k v s)
    pub removed : (s : D) (k : Sh256) → P s → P (db.remove_index k s)

  module _ (P : D → Type 0) (kept : AreWritesKept P) where
    abbrev H : SpareMerkleTrie × D → Type 0
    H ts = P ts.1

    put_opening-Keeps : (path : Bytes) (o : LeafOpening) → Keeps H (put_opening db env path o)
    unfolding put_opening
    put_opening-Keeps path o = put-Keeps db env P kept.added path (Opening.to_bytes env.eth o)

    -- An opening is read, changed and written.
    change-Keeps :
        (at path : Bytes) (f : LeafOpening → LeafOpening)
        → Keeps H (reads (parse_node db env at) >>= λ o. put_opening db env path (f o))
    change-Keeps at path f =
        bind-Keeps H (reads (parse_node db env at)) _ (λ ts p. p)
          (λ o. put_opening-Keeps path (f o))

    increment-Keeps : Keeps H (increment_next_free_leaf_node_index db env)
    unfolding increment_next_free_leaf_node_index
    increment-Keeps =
        bind-Keeps H (reads (next_free_node db env)) _ (λ ts p. p)
          (λ found. continue-Keeps H (succ_u64 found) _ (λ next _.
            bind-Keeps H (Sparse.set_next_free_node db env next) _
              (set_next_free_node-Keeps db env P kept.added next) (λ _ ts p. p)))

    indexed-Keeps :
        {A : Type 0} (k : Sh256) (v : FlattenedLeaf) (m : Exec (SpareMerkleTrie × D) Error A)
        → Keeps H m
        → Keeps H (update_index db env k v >> m)
    indexed-Keeps k v m next ts p = next (ts.0, db.update_index k v ts.1) (kept.updated ts.1 k v p)

    put_present-Keeps :
        (hkey : Sh256) (current : FlattenedLeaf) (value : Bytes)
        → Keeps H (put_present db env hkey current value)
    unfolding put_present
    put_present-Keeps hkey current value = continue-Keeps H (leaf_path current) _ (λ path _.
        continue-Keeps H (trie_hash env value) _ (λ hval _.
          indexed-Keeps hkey (record { leaf_index = current.leaf_index; leaf_value = value })
            (reads (parse_node db env path) >>= λ o.
              put_opening db env path (Opening.new_hval o hval))
            (change-Keeps path path (λ o. Opening.new_hval o hval))))

    -- The end of `put_absent`: the new opening, its right neighbour and the counter.
    link-Keeps :
        (right path : Bytes) (o : LeafOpening) (next : ℕ)
        → Keeps H (do
          put_opening db env path o
          prior ← reads (parse_node db env right)
          put_opening db env right (Opening.new_prev_leaf prior next)
          increment_next_free_leaf_node_index db env
          pure tt)
    link-Keeps right path o next =
        bind-Keeps H (put_opening db env path o) _ (put_opening-Keeps path o) (λ _ ts p.
          continue-Keeps H (parse_node db env right ts) _
            (λ prior _.
              bind-Keeps H (put_opening db env right (Opening.new_prev_leaf prior next)) _
                (put_opening-Keeps right (Opening.new_prev_leaf prior next))
                (λ _.
                  bind-Keeps H (increment_next_free_leaf_node_index db env) _ increment-Keeps
                    (λ _ ts p. p)))
            ts p)

    put_absent-Keeps :
        (hkey : Sh256) (nearest : KeyRange) (value : Bytes)
        → Keeps H (put_absent db env hkey nearest value)
    unfolding put_absent
    put_absent-Keeps hkey nearest value = continue-Keeps H (left_path nearest) _ (λ left _.
        continue-Keeps H (right_path nearest) _ (λ right _ ts p.
          continue-Keeps H (next_free_node db env ts) _
            (λ next _ ts p.
              continue-Keeps H (parse_node db env left ts) _
                (λ prior _.
                  bind-Keeps H (put_opening db env left (Opening.new_next_leaf prior next)) _
                    (put_opening-Keeps left (Opening.new_next_leaf prior next))
                    (λ _. continue-Keeps H (get_leaf_path next) _ (λ path _.
                      continue-Keeps H (trie_hash env value) _ (λ hval _ ts p.
                        link-Keeps right path
                          (Opening.new nearest.left_index nearest.right_index hkey hval) next _
                          (kept.updated ts.1 hkey (record { leaf_index = next; leaf_value = value })
                            p)))))
                ts p)
            ts p))

    remove_present-Keeps :
        (hkey : Sh256) (nearest : KeyRange) (current : FlattenedLeaf)
        → Keeps H (remove_present db env hkey nearest current)
    unfolding remove_present
    remove_present-Keeps hkey nearest current = continue-Keeps H (left_path nearest) _ (λ left _.
        continue-Keeps H (right_path nearest) _ (λ right _ ts p.
          continue-Keeps H (parse_node db env left ts) _
            (λ prior _.
              bind-Keeps H
                (put_opening db env left (Opening.new_next_leaf prior nearest.right_index)) _
                (put_opening-Keeps left (Opening.new_next_leaf prior nearest.right_index))
                (λ _. continue-Keeps H (get_leaf_path current.leaf_index) _ (λ path _ ts p.
                  continue-Keeps H (parse_node db env path ts) _
                    (λ _ _ ts p.
                      bind-Keeps H (Sparse.remove db env path) _
                        (remove-Keeps db env P kept.added path)
                        (λ _.
                          change-Keeps right right
                            (λ o. Opening.new_prev_leaf o nearest.left_index))
                        (ts.0, db.remove_index hkey ts.1) (kept.removed ts.1 hkey p))
                    ts p)))
            ts p))

    set_head_and_tail-Keeps : Keeps H (set_head_and_tail db env)
    unfolding set_head_and_tail
    set_head_and_tail-Keeps ts p =
        continue-Keeps H (next_free_node db env ts) _
          (λ index _. continue-Keeps H (get_leaf_path index) _ (λ head_path _.
            bind-Keeps H (put_opening db env head_path Opening.head) _
              (put_opening-Keeps head_path Opening.head)
              (λ _ ts p.
                bind-Keeps H (increment_next_free_leaf_node_index db env) _ increment-Keeps
                  (λ _ ts p.
                    continue-Keeps H (next_free_node db env ts) _
                      (λ tail_index _ ts p.
                        continue-Keeps H (get_leaf_path tail_index) _
                          (λ tail_path _.
                            bind-Keeps H (put_opening db env tail_path Opening.tail) _
                              (put_opening-Keeps tail_path Opening.tail)
                              (λ _.
                                bind-Keeps H (increment_next_free_leaf_node_index db env) _
                                  increment-Keeps (λ _ ts p. p)))
                          (ts.0, db.update_index Opening.tail.hkey tail_leaf ts.1)
                          (kept.updated ts.1 _ _ p))
                      ts p)
                  (ts.0, db.update_index Opening.head.hkey head_leaf ts.1)
                  (kept.updated ts.1 _ _ p))))
          ts p

    pub empty-Keeps : (s : D) → P s → P (Trie.empty db env s).1.1
    unfolding Trie.empty
    empty-Keeps s p =
        continue-Keeps H (init_world_state env) _
          (λ r _ ts p. set_head_and_tail-Keeps (record { root_hash = r.0.hash }, ts.1) p)
          (record { root_hash = [] }, s) p

    -- `put` and `remove` keep what the writes keep, whether they succeed or fail.
    pub put-Keeps_writes : (key value : Bytes) → Keeps H (Trie.put db env key value)
    unfolding Trie.put
    put-Keeps_writes key value = continue-Keeps H (trie_hash env key) _ (λ hkey _ ts p.
        continue-Keeps H (nearest_keys db env hkey ts) _
          (λ nearest _ ts p.
            continue-Keeps H (sub_root_hash db env ts) _
              (λ before _.
                bind-Keeps H
                  (elim nearest.center [
                    | none ↦ put_absent db env hkey nearest value
                    | some current ↦ put_present db env hkey current value
                  ])
                  _ (either hkey nearest value nearest.center)
                  (λ _ ts p. continue-Keeps H (sub_root_hash db env ts) _ (λ _ _ ts p. p) ts p))
              ts p)
          ts p)
      where
        either :
            (hkey : Sh256) (nearest : KeyRange) (value : Bytes) (center : Option FlattenedLeaf)
            → Keeps H (elim center [
              | none ↦ put_absent db env hkey nearest value
              | some current ↦ put_present db env hkey current value
            ])
        either hkey nearest value none = put_absent-Keeps hkey nearest value
        either hkey nearest value (some current) = put_present-Keeps hkey current value

    pub remove-Keeps_writes : (key : Bytes) → Keeps H (Trie.remove db env key)
    unfolding Trie.remove
    remove-Keeps_writes key = continue-Keeps H (trie_hash env key) _ (λ hkey _ ts p.
        continue-Keeps H (nearest_keys db env hkey ts) _
          (λ nearest _. either hkey nearest nearest.center) ts p)
      where
        either :
            (hkey : Sh256) (nearest : KeyRange) (center : Option FlattenedLeaf)
            → Keeps {E = Error} H (elim center [
              | some current ↦ remove_present db env hkey nearest current
              | none ↦ pure tt
            ])
        either hkey nearest none = λ ts p. p
        either hkey nearest (some current) = remove_present-Keeps hkey nearest current

-- ===== src/Zktrie/Sparse/Writes.antt =====
-- What the methods of src/common/zktrie/src/sparse_merkle_trie.rs write: nodes that were made, each
-- under its hash.
use mathlib.Core.Path.{subst}
use linea_sgx_prover.Prelude.{
  Bool, true, false, sym, ℕ, zero, suc, [], ◌∷◌, ◌≡◌, refl, ◌⊎◌, inl, inr, ◌==◌, length, get_elem?,
  if◌then◌else◌,
}
use linea_sgx_prover.Prelude.Results.{ok, err, panic, expect}
use linea_sgx_prover.Prelude.Exec.{Exec, lift, continue, Keeps, continue-Keeps, bind-Keeps}
use linea_sgx_prover.Bytes.{Bytes, bytes_eq, slice_from}
use linea_sgx_prover.EthTypes.{Sh256}
use linea_sgx_prover.Zktrie.Types.{
  Env, BranchNode, LeafNode, NodeValue, branch, leaf, empty_leaf, next_free, Node, Error,
  path_not_allow, leaf_type_next_free_node,
}
use linea_sgx_prover.Zktrie.Node.{child, leaf_node, branch_node, top_node, new, new_replace}
use linea_sgx_prover.Zktrie.Path.{prefix_len}
use linea_sgx_prover.Zktrie.Database.{Database}
use linea_sgx_prover.Zktrie.Sparse.{
  SpareMerkleTrie, db_add, fetch, levels, root_branch, add_leaf_node, add_leaf, remove_leaf, put,
  remove, set_next_free_node, set_root,
}
use linea_sgx_prover.Zktrie.Sparse.Tree.Reads.{new-raw}

raw-cases :
    (v : NodeValue)
    → ((b : BranchNode) × (v ≡ branch b))
      ⊎ (((l : LeafNode) × (v ≡ leaf l))
          ⊎ ((v ≡ empty_leaf) ⊎ ((l : LeafNode) × (v ≡ next_free l))))
raw-cases (branch b) = inl (b, refl)
raw-cases (leaf l) = inr (inl (l, refl))
raw-cases empty_leaf = inr (inr (inl refl))
raw-cases (next_free l) = inr (inr (inr (l, refl)))

module _ {D : Type 0} (db : Database D) (env : Env) where
  -- A predicate of the database that the write of a made node keeps.
  abbrev pub IsClosed : (D → Type 0) → Type 0
  IsClosed P =
      (s : D) (n : Node) → P s → new env {E = Error} n.raw ≡ ok n → P (db.update_node n.hash n s).1

  module _ (P : D → Type 0) (closed : IsClosed P) where
    new-made :
        (v : NodeValue) {n : Node} → new env {E = Error} v ≡ ok n → new env {E = Error} n.raw ≡ ok n
    new-made v {n} made = subst (λ w. new env {E = Error} w ≡ ok n) (sym (new-raw env v made)) made

    db_add-Keeps : (n : Node) → new env {E = Error} n.raw ≡ ok n → Keeps P (db_add db n)
    unfolding db_add
    db_add-Keeps n made s p = closed s n p made

    -- A node made and written.
    make-Keeps : (v : NodeValue) → Keeps P (λ s. continue (new env {E = Error} v) (db_add db) s)
    make-Keeps v =
        continue-Keeps P (new env v) (db_add db) (λ n made. db_add-Keeps n (new-made v made))

    add_leaf_node-Keeps : (rest value : Bytes) → Keeps P (add_leaf_node db env rest value)
    unfolding add_leaf_node leaf_node
    add_leaf_node-Keeps rest value = make-Keeps (
        if bytes_eq rest (leaf_type_next_free_node ∷ [])
        then next_free (record { path = rest; value = value })
        else leaf (record { path = rest; value = value }))

    add_leaf-Keeps :
        (k lvl : ℕ) (current : Sh256) (path value : Bytes)
        → Keeps P (add_leaf db env k lvl current path value)
    unfolding add_leaf
    add_leaf-Keeps zero lvl current path value s p = p
    add_leaf-Keeps (suc k) lvl current path value s p =
        continue-Keeps P (fetch db lvl current s) _
          (λ n e. elim (raw-cases n.raw) [
            | inl (b, at) ↦ λ s p. rw at (
                continue-Keeps P (expect (get_elem? path lvl)) _
                  (λ idx _. continue-Keeps P (child b idx) _ (λ c _.
                    bind-Keeps P (add_leaf db env k (suc lvl) c path value) _
                      (add_leaf-Keeps k (suc lvl) c path value)
                      (λ updated. make-Keeps (branch (new_replace b idx updated.hash)))))
                  s p)
            | inr (inl (l, at)) ↦ λ s p. rw at (
                continue-Keeps P (slice_from path lvl) _
                  (λ rest _.
                    either (prefix_len l.path rest == length l.path)
                      (add_leaf_node db env rest value) (lift (err path_not_allow))
                      (add_leaf_node-Keeps rest value) (λ s p. p))
                  s p)
            | inr (inr (inl at)) ↦ λ s p. rw at (
                continue-Keeps P (slice_from path lvl) _ (λ rest _. add_leaf_node-Keeps rest value)
                  s p)
            | inr (inr (inr (l, at))) ↦ λ s p. rw at (
                continue-Keeps P (slice_from path lvl) _
                  (λ rest _.
                    either (prefix_len l.path rest == length l.path)
                      (add_leaf_node db env rest value) (lift panic)
                      (add_leaf_node-Keeps rest value) (λ s p. p))
                  s p)
          ])
          s p
      where
        either :
            (t : Bool) (m n : Exec D Error Node)
            → Keeps P m
            → Keeps P n
            → Keeps P (if t then m else n)
        either true m n a b = a
        either false m n a b = b

    remove_leaf-Keeps :
        (k lvl : ℕ) (current : Sh256) (path : Bytes)
        → Keeps P (remove_leaf db env k lvl current path)
    unfolding remove_leaf
    remove_leaf-Keeps zero lvl current path s p = p
    remove_leaf-Keeps (suc k) lvl current path s p =
        continue-Keeps P (fetch db lvl current s) _
          (λ n e. elim (raw-cases n.raw) [
            | inl (b, at) ↦ λ s p. rw at (
                continue-Keeps P (expect (get_elem? path lvl)) _
                  (λ idx _. continue-Keeps P (child b idx) _ (λ c _.
                    bind-Keeps P (remove_leaf db env k (suc lvl) c path) _
                      (remove_leaf-Keeps k (suc lvl) c path)
                      (λ updated. make-Keeps (branch (new_replace b idx updated.hash)))))
                  s p)
            | inr (inl (l, at)) ↦ λ s p. rw at p
            | inr (inr (inl at)) ↦ λ s p. rw at p
            | inr (inr (inr (l, at))) ↦ λ s p. rw at p
          ])
          s p

    -- The methods with the trie and the database keep what the database has.
    abbrev pub Held : SpareMerkleTrie × D → Type 0
    Held ts = P ts.1

    pub put-Keeps : (path value : Bytes) → Keeps Held (put db env path value)
    unfolding put
    put-Keeps path value ts p =
        continue-Keeps Held (add_leaf db env levels 0 ts.0.root_hash path value ts.1).0
          (λ root. set_root db env root.hash) (λ root _ ts p. p) _
          (add_leaf-Keeps levels 0 ts.0.root_hash path value ts.1 p)

    pub remove-Keeps : (path : Bytes) → Keeps Held (remove db env path)
    unfolding remove
    remove-Keeps path ts p =
        continue-Keeps Held (remove_leaf db env levels 0 ts.0.root_hash path ts.1).0
          (λ root. set_root db env root.hash) (λ root _ ts p. p) _
          (remove_leaf-Keeps levels 0 ts.0.root_hash path ts.1 p)

    made_top :
        (free : ℕ) (sub : Sh256) {root : Node}
        → top_node env {E = Error} free sub ≡ ok root
        → new env {E = Error} root.raw ≡ ok root
    unfolding top_node branch_node
    made_top free sub made =
        new-made (branch (record { left = env.eth.to_big_endian free; right = sub })) made

    pub set_next_free_node-Keeps : (free : ℕ) → Keeps Held (set_next_free_node db env free)
    unfolding set_next_free_node
    set_next_free_node-Keeps free ts p =
        continue-Keeps Held (root_branch db ts.0 ts.1) _
          (λ b _. continue-Keeps Held (top_node env free b.right) _ (λ root made ts p.
            continue-Keeps Held (db_add db root ts.1).0 (λ added. set_root db env added.hash)
              (λ added _ ts p. p) _ (db_add-Keeps root (made_top free b.right made) ts.1 p)))
          ts p

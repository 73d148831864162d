-- ===== src/Zktrie/Sparse/Refine/Update.antt =====
-- `add_leaf` of src/common/zktrie/src/sparse_merkle_trie.rs against the update of the tree.
use linea_sgx_prover.Prelude.{
  ℕ, zero, suc, ◌≤◌, some, [], ◌∷◌, ◌≡◌, inl, inr, refl, arith, ◌==◌, length, Bool-cases, drop,
}
use linea_sgx_prover.Prelude.Results
use linea_sgx_prover.Prelude.Results.{Result, Result-cases, ok, err, panic, >>=-inv}
use linea_sgx_prover.Prelude.Exec.{continue}
use linea_sgx_prover.Bytes.{Bytes, slice_from}
use linea_sgx_prover.Zktrie.Types.{Env, NodeValue, branch, leaf, empty_leaf, next_free, Node, Error}
use linea_sgx_prover.Zktrie.Path.{prefix_len}
use linea_sgx_prover.Zktrie.Node.{leaf_node, child}
use linea_sgx_prover.Zktrie.Database.{Database, IsLawful}
use linea_sgx_prover.Zktrie.Sparse.{db_add, add_leaf, add_leaf_node}
use linea_sgx_prover.Zktrie.Sparse.Tree.{
  Tree, tip, fork, tree_hash, IsTip, tree_put, put_tip, new_tip, path_nodes,
}
use linea_sgx_prover.Zktrie.Sparse.Refine.Calls.{
  write_all, Agrees, db_add-lem, level_end, left_end, right_end,
}
use linea_sgx_prover.Zktrie.Sparse.Refine.{IsAt-step, IsAt-end, Held}

module _ {D : Type 0} (db : Database D) where
  module _ (law : IsLawful db) (env : Env) where
    leaf_end :
        (r : Result Error Node) (rest : Bytes) (s : D)
        → Agrees db s
            (path_nodes rest)
            (Results.◌>>=◌ r (λ n. ok (tip n)))
            (continue r (db_add db) s)
    unfolding write_all path_nodes
    leaf_end (ok n) rest s = db_add-lem db law env n s
    leaf_end (err e) rest s = refl
    leaf_end panic rest s = refl

    leaf-Agrees :
        (rest v : Bytes) (s : D)
        → Agrees db s (path_nodes rest) (new_tip env rest v) (add_leaf_node db env rest v s)
    unfolding new_tip add_leaf_node
    leaf-Agrees rest v s = leaf_end (leaf_node env rest v) rest s

    tip-Agrees :
        (raw : NodeValue) (k lvl : ℕ) (n : Node) (path rest v : Bytes) (s : D)
        → db.get_node s n.hash ≡ ok (some n)
        → n.raw ≡ raw
        → IsTip raw
        → drop lvl path ≡ rest
        → lvl ≤ length path
        → Agrees db s
            (path_nodes rest)
            (put_tip env raw rest v)
            (add_leaf db env (suc k) lvl n.hash path v s)
    unfolding add_leaf put_tip
    tip-Agrees (branch b) k lvl n path rest v s found e is_tip at room = absurd is_tip
    tip-Agrees empty_leaf k lvl n path rest v s found e is_tip at room =
        let cut : slice_from {E = Error} path lvl ≡ ok rest = ground arith in
        rw (found, e, cut) (leaf-Agrees rest v s)
    tip-Agrees (leaf l) k lvl n path rest v s found e is_tip at room =
        let cut : slice_from {E = Error} path lvl ≡ ok rest = ground arith in
        elim (Bool-cases (prefix_len l.path rest == length l.path)) [
          | inl fits ↦ rw (found, e, cut, fits) (leaf-Agrees rest v s)
          | inr other ↦ rw (found, e, cut, other) refl
        ]
    tip-Agrees (next_free l) k lvl n path rest v s found e is_tip at room =
        let cut : slice_from {E = Error} path lvl ≡ ok rest = ground arith in
        elim (Bool-cases (prefix_len l.path rest == length l.path)) [
          | inl fits ↦ rw (found, e, cut, fits) (leaf-Agrees rest v s)
          | inr other ↦ rw (found, e, cut, other) refl
        ]

    -- Where the database holds the path, `add_leaf` ends as the update of the tree says.
    pub add_leaf-Agrees :
        (k lvl : ℕ) (path rest v : Bytes) (t : Tree) (s : D)
        → Held db s rest t
        → drop lvl path ≡ rest
        → lvl ≤ length path
        → Agrees db s
            (path_nodes rest)
            (tree_put env k rest v t)
            (add_leaf db env k lvl (tree_hash t) path v s)
    unfolding add_leaf tree_put child level_end Held path_nodes
    add_leaf-Agrees zero lvl path rest v t s st at room = refl
    add_leaf-Agrees (suc k) lvl path rest v (tip n) s st at room =
        tip-Agrees n.raw k lvl n path rest v s st.0 refl st.1 at room
    add_leaf-Agrees (suc k) lvl path [] v (fork h l r) s st at room =
        rw (st.0, IsAt-end path lvl at) refl
    add_leaf-Agrees (suc k) lvl path (b ∷ rest) v (fork h l r) s st at room =
        let (here, next, room') = IsAt-step path lvl b rest at in
        elim (Bool-cases (b == 0)) [
          | inl left ↦
              let z : b ≡ 0 = ground arith in
              rw (st.0, here, z)
                (left_end db law env (tree_put env k rest v l)
                  (add_leaf db env k (suc lvl) (tree_hash l) path v) l r (path_nodes rest)
                  (path_nodes (0 ∷ rest)) s (λ h l'. refl)
                  (add_leaf-Agrees k (suc lvl) path rest v l s (rw z at st.1) next room'))
          | inr other ↦ elim (Bool-cases (b == 1)) [
            | inl right ↦
                let z : b ≡ 1 = ground arith in
                rw (st.0, here, z)
                  (right_end db law env (tree_put env k rest v r)
                    (add_leaf db env k (suc lvl) (tree_hash r) path v) l r (path_nodes rest)
                    (path_nodes (1 ∷ rest)) s (λ h r'. refl)
                    (add_leaf-Agrees k (suc lvl) path rest v r s (rw z at st.1) next room'))
            | inr neither ↦ rw (st.0, here, other, neither) refl
          ]
        ]

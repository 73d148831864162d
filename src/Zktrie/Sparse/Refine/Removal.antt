-- ===== src/Zktrie/Sparse/Refine/Removal.antt =====
-- `remove_leaf` of src/common/zktrie/src/sparse_merkle_trie.rs against the removal from the tree.
use mathlib.Core.Path.{subst, subst₂}
use linea_sgx_prover.Prelude.{
  ℕ, zero, suc, ◌≤◌, some, [], ◌∷◌, ◌++◌, ◌≡◌, inl, inr, refl, sym, ap, ◌∙◌, arith, ◌==◌, length,
  Bool-cases, drop,
}
use linea_sgx_prover.Prelude.Results.{ok}
use linea_sgx_prover.Bytes.{Bytes}
use linea_sgx_prover.EthTypes.{Sh256}
use linea_sgx_prover.Zktrie.Types.{
  Env, NodeValue, branch, leaf, empty_leaf, next_free, Node, zero_hash,
}
use linea_sgx_prover.Zktrie.Node.{child, empty_leaf_node}
use linea_sgx_prover.Zktrie.Database.{Database, IsLawful}
use linea_sgx_prover.Zktrie.Sparse.{remove_leaf}
use linea_sgx_prover.Zktrie.Sparse.Tree.{Tree, tip, fork, tree_hash, node_of, IsTip}
use linea_sgx_prover.Zktrie.Sparse.Tree.Reads.{new_fork-inv}
use linea_sgx_prover.Zktrie.Sparse.Tree.Removal.{
  tree_remove, path_forks, cut_left, cut_right, remove_step, remove_at_tip,
}
use linea_sgx_prover.Zktrie.Sparse.Refine.{IsAt-step, IsAt-end, Held}
use linea_sgx_prover.Zktrie.Sparse.Refine.Calls.{write_all, Agrees, level_end, left_end, right_end}
use linea_sgx_prover.Zktrie.Sparse.Refine.Fresh.{IsFresh, write_all-Extends, IsFresh-append}
use linea_sgx_prover.Zktrie.Sparse.Refine.Partial.{
  Held-Below, tip-Held, above-Held, Below-left, Below-right,
}

module _ {D : Type 0} (db : Database D) (law : IsLawful db) (env : Env) where
  tip_cut :
      (raw : NodeValue) (k lvl : ℕ) (n : Node) (path rest : Bytes) (s : D)
      → db.get_node s n.hash ≡ ok (some n)
      → n.raw ≡ raw
      → IsTip raw
      → Agrees db s
          (path_forks rest)
          (ok (tip empty_leaf_node))
          (remove_leaf db env (suc k) lvl n.hash path s)
  unfolding remove_leaf path_forks write_all
  tip_cut (branch b) k lvl n path rest s found e is_tip = absurd is_tip
  tip_cut empty_leaf k lvl n path rest s found e is_tip = rw (found, e) refl
  tip_cut (leaf l) k lvl n path rest s found e is_tip = rw (found, e) refl
  tip_cut (next_free l) k lvl n path rest s found e is_tip = rw (found, e) refl

  -- Where the database holds the path, `remove_leaf` ends as the removal from the tree says.
  pub remove_leaf-Agrees :
      (k lvl : ℕ) (path rest : Bytes) (t : Tree) (s : D)
      → Held db s rest t
      → drop lvl path ≡ rest
      → lvl ≤ length path
      → Agrees db s
          (path_forks rest)
          (tree_remove env k rest t)
          (remove_leaf db env k lvl (tree_hash t) path s)
  unfolding remove_leaf tree_remove child level_end Held path_forks
  remove_leaf-Agrees zero lvl path rest t s st at room = refl
  remove_leaf-Agrees (suc k) lvl path rest (tip n) s st at room =
      tip_cut n.raw k lvl n path rest s st.0 refl st.1
  remove_leaf-Agrees (suc k) lvl path [] (fork h l r) s st at room =
      rw (st.0, IsAt-end path lvl at) refl
  remove_leaf-Agrees (suc k) lvl path (b ∷ rest) (fork h l r) s st at room =
      let (here, next, room') = IsAt-step path lvl b rest at in
      elim (Bool-cases (b == 0)) [
        | inl left ↦
            let z : b ≡ 0 = ground arith in
            rw (st.0, here, z)
              (left_end db law env (tree_remove env k rest l)
                (remove_leaf db env k (suc lvl) (tree_hash l) path) l r (path_forks rest)
                (path_forks (0 ∷ rest)) s (λ h l'. refl)
                (remove_leaf-Agrees k (suc lvl) path rest l s (rw z at st.1) next room'))
        | inr other ↦ elim (Bool-cases (b == 1)) [
          | inl right ↦
              let z : b ≡ 1 = ground arith in
              rw (st.0, here, z)
                (right_end db law env (tree_remove env k rest r)
                  (remove_leaf db env k (suc lvl) (tree_hash r) path) l r (path_forks rest)
                  (path_forks (1 ∷ rest)) s (λ h r'. refl)
                  (remove_leaf-Agrees k (suc lvl) path rest r s (rw z at st.1) next room'))
          | inr neither ↦ rw (st.0, here, other, neither) refl
        ]
      ]

  forks_left :
      (b : ℕ) (rest : Bytes) (h : Sh256) (l r : Tree)
      → b ≡ 0
      → path_forks (b ∷ rest) (fork h l r) ≡ path_forks rest l ++ node_of (fork h l r) ∷ []
  unfolding path_forks
  forks_left b rest h l r e = rw e

  forks_right :
      (b : ℕ) (rest : Bytes) (h : Sh256) (l r : Tree)
      → b ≡ 1
      → path_forks (b ∷ rest) (fork h l r) ≡ path_forks rest r ++ node_of (fork h l r) ∷ []
  unfolding path_forks
  forks_right b rest h l r e = rw e

  -- The writes of a successful removal leave in the database, which has the empty leaf anyway, every
  -- path of the smaller tree that it held before.
  pub tree_remove-Held :
      (k : ℕ) (path : Bytes) (t : Tree) {t' : Tree} (s : D) (rest : Bytes)
      → db.get_node s zero_hash ≡ ok (some empty_leaf_node)
      → Held db s rest t
      → tree_remove env k path t ≡ ok t'
      → IsFresh db (path_forks path t') s
      → Held db (write_all db (path_forks path t') s) rest t'
  tree_remove-Held zero path t s rest has_empty st h fresh = absurd (unfold tree_remove in cc)
  tree_remove-Held (suc k) path (tip m) s rest has_empty st h fresh =
      subst (λ t. Held db (write_all db (path_forks path t) s) rest t)
        (sym (remove_at_tip env k path m h))
        (unfold write_all path_forks in tip-Held db empty_leaf_node s rest has_empty tt)
  tree_remove-Held (suc k) [] (fork x l r) s rest has_empty st h fresh =
      absurd (unfold tree_remove in cc)
  tree_remove-Held (suc k) (b ∷ path) (fork x l r) s rest has_empty st h fresh =
      elim (remove_step env k b path x l r h) [
        | cut_left l' left below made ↦
            let (f, same, _) = new_fork-inv env l' r made in
            let nodes = ap (path_forks (b ∷ path)) same ∙ forks_left b path f.hash l' r left in
            let fresh' = subst (λ ns. IsFresh db ns s) nodes fresh in
            let ns = path_forks path l' in
            let front = (IsFresh-append db law ns (node_of (fork f.hash l' r) ∷ []) s fresh').0 in
            subst₂ (λ ns t. Held db (write_all db ns s) rest t) (sym nodes) (sym same)
              (above-Held db law f.hash l' r ns s rest
                (Below-left db law l l' r s (write_all db ns s) rest
                  (Held-Below db x l r s rest st).1 (write_all-Extends db law ns s front)
                  (λ o held. tree_remove-Held k path l s o has_empty held below front))
                fresh')
        | cut_right r' right below made ↦
            let (f, same, _) = new_fork-inv env l r' made in
            let nodes = ap (path_forks (b ∷ path)) same ∙ forks_right b path f.hash l r' right in
            let fresh' = subst (λ ns. IsFresh db ns s) nodes fresh in
            let ns = path_forks path r' in
            let front = (IsFresh-append db law ns (node_of (fork f.hash l r') ∷ []) s fresh').0 in
            subst₂ (λ ns t. Held db (write_all db ns s) rest t) (sym nodes) (sym same)
              (above-Held db law f.hash l r' ns s rest
                (Below-right db law l r r' s (write_all db ns s) rest
                  (Held-Below db x l r s rest st).1 (write_all-Extends db law ns s front)
                  (λ o held. tree_remove-Held k path r s o has_empty held below front))
                fresh')
      ]

-- ===== src/Zktrie/Sparse/Refine/Partial.antt =====
-- A database that holds the nodes of some paths of the tree only, as after
-- src/common/zktrie/src/storage.rs has taken proofs, and the writes of an update.
use mathlib.Core.Path.{subst, subst₂}
use linea_sgx_prover.Prelude.{
  ℕ, zero, suc, some, List, [], ◌∷◌, ◌++◌, ◌≡◌, inl, inr, ap, sym, ◌∙◌, ◌==◌, Bool-cases,
  if◌then◌else◌,
}
use linea_sgx_prover.Prelude.Results.{ok}
use linea_sgx_prover.Bytes.{Bytes}
use linea_sgx_prover.EthTypes.{Sh256}
use linea_sgx_prover.Zktrie.Types.{Env, Node}
use linea_sgx_prover.Zktrie.Database.{Database, IsLawful}
use linea_sgx_prover.Zktrie.Sparse.Tree.{Tree, tip, fork, node_of, IsTip, tree_put, path_nodes}
use linea_sgx_prover.Zktrie.Sparse.Tree.Reads.{
  new_fork-inv, went_left, went_right, put_step, put_at_tip, put_tip-reads,
}
use linea_sgx_prover.Zktrie.Sparse.Refine.{Held}
use linea_sgx_prover.Zktrie.Sparse.Refine.Calls.{write_all, write_all-append}
use linea_sgx_prover.Zktrie.Sparse.Refine.Fresh.{
  IsFresh, Extends, write-holds, write-Extends, write_all-Extends, IsFresh-append, nodes_left,
  nodes_right, value-IsTip,
}

module _ {D : Type 0} (db : Database D) where
  pub Held-Extends :
      (s s' : D) (rest : Bytes) (t : Tree) → Extends db s s' → Held db s rest t → Held db s' rest t
  unfolding Held
  Held-Extends s s' rest (tip n) more st = (more n.hash n st.0, st.1)
  Held-Extends s s' [] (fork h l r) more st = (more h (node_of (fork h l r)) st.0, tt)
  Held-Extends s s' (b ∷ rest) (fork h l r) more st = (
    more h (node_of (fork h l r)) st.0,
    Held-Extends s s' rest (if b == 0 then l else r) more st.1,
  )

  -- What is held below a fork, on the rest of a path.
  abbrev pub Below : D → Bytes → Tree → Tree → Type 0
  Below s [] l r = Unit
  Below s (b ∷ rest) l r = Held db s rest (if b == 0 then l else r)

  pub fork-Held :
      (h : Sh256) (l r : Tree) (s : D) (rest : Bytes)
      → db.get_node s h ≡ ok (some (node_of (fork h l r)))
      → Below s rest l r
      → Held db s rest (fork h l r)
  unfolding Held
  fork-Held h l r s [] held below = (held, tt)
  fork-Held h l r s (b ∷ rest) held below = (held, below)

  pub Held-Below :
      (h : Sh256) (l r : Tree) (s : D) (rest : Bytes)
      → Held db s rest (fork h l r)
      → (db.get_node s h ≡ ok (some (node_of (fork h l r)))) × Below s rest l r
  unfolding Held
  Held-Below h l r s [] st = st
  Held-Below h l r s (b ∷ rest) st = st

  pub Below-Extends :
      (s s' : D) (rest : Bytes) (l r : Tree)
      → Extends db s s'
      → Below s rest l r
      → Below s' rest l r
  Below-Extends s s' [] l r more st = tt
  Below-Extends s s' (b ∷ rest) l r more st =
      Held-Extends s s' rest (if b == 0 then l else r) more st

  pub tip-Held :
      (n : Node) (s : D) (rest : Bytes)
      → db.get_node s n.hash ≡ ok (some n)
      → IsTip n.raw
      → Held db s rest (tip n)
  unfolding Held
  tip-Held n s rest held is_tip = (held, is_tip)

  module _ (law : IsLawful db) where
    -- One written node above what is held.
    pub above-Held :
        (h : Sh256) (l r : Tree) (ns : List Node) (s : D) (rest : Bytes)
        → Below (write_all db ns s) rest l r
        → IsFresh db (ns ++ node_of (fork h l r) ∷ []) s
        → Held db (write_all db (ns ++ node_of (fork h l r) ∷ []) s) rest (fork h l r)
    unfolding write_all
    above-Held h l r ns s rest below fresh =
        let n = node_of (fork h l r) in
        let back = (IsFresh-append db law ns (n ∷ []) s fresh).1 in
        let s1 = write_all db ns s in
        let s2 = (db.update_node n.hash n s1).1 in
        let more = write-Extends db law n s1 back.0 in
        rw (write_all-append db ns (n ∷ []) s) (
          fork-Held h l r s2 rest (write-holds db law n s1 back.0)
            (Below-Extends s1 s2 rest l r more below))

    -- What is held below the new fork, beside an update on the left and on the right.
    pub Below-left :
        (l l' r : Tree) (s s' : D) (rest : Bytes)
        → Below s rest l r
        → Extends db s s'
        → ((o : Bytes) → Held db s o l → Held db s' o l')
        → Below s' rest l' r
    Below-left l l' r s s' [] st more next = tt
    Below-left l l' r s s' (c ∷ rest) st more next = elim (Bool-cases (c == 0)) [
      | inl here ↦ rw here (next rest (rw here at st))
      | inr there ↦ rw there (Held-Extends s s' rest r more (rw there at st))
    ]

    pub Below-right :
        (l r r' : Tree) (s s' : D) (rest : Bytes)
        → Below s rest l r
        → Extends db s s'
        → ((o : Bytes) → Held db s o r → Held db s' o r')
        → Below s' rest l r'
    Below-right l r r' s s' [] st more next = tt
    Below-right l r r' s s' (c ∷ rest) st more next = elim (Bool-cases (c == 0)) [
      | inl there ↦ rw there (Held-Extends s s' rest l more (rw there at st))
      | inr here ↦ rw here (next rest (rw here at st))
    ]

    module _ (env : Env) where
      -- The writes of a successful update leave in the database every path of the updated tree that
      -- it held before.
      pub tree_put-Held :
          (k : ℕ) (path v : Bytes) (t : Tree) {t' : Tree} (s : D) (rest : Bytes)
          → Held db s rest t
          → tree_put env k path v t ≡ ok t'
          → IsFresh db (path_nodes path t') s
          → Held db (write_all db (path_nodes path t') s) rest t'
      tree_put-Held zero path v t s rest st h fresh = absurd (unfold tree_put in cc)
      tree_put-Held (suc k) path v (tip m) {t'} s rest st h fresh =
          let (n, same, holds, reads) =
            put_tip-reads env m.raw path v (put_at_tip env k path v m h) in
          let fresh' : IsFresh db (n ∷ []) s =
            unfold path_nodes in subst (λ t. IsFresh db (path_nodes path t) s) same fresh in
          subst (λ t. Held db (write_all db (path_nodes path t) s) rest t) (sym same)
            (unfold write_all path_nodes in
              tip-Held n (db.update_node n.hash n s).1 rest (write-holds db law n s fresh'.0)
                (value-IsTip n.raw holds))
      tree_put-Held (suc k) [] v (fork x l r) s rest st h fresh = absurd (unfold tree_put in cc)
      tree_put-Held (suc k) (b ∷ path) v (fork x l r) {t'} s rest st h fresh =
          elim (put_step env k b path v x l r h) [
            | went_left l' left below made ↦
                let (f, same, _) = new_fork-inv env l' r made in
                let nodes =
                  ap (path_nodes (b ∷ path)) same ∙ nodes_left db law b path f.hash l' r left in
                let fresh' = subst (λ ns. IsFresh db ns s) nodes fresh in
                let ns = path_nodes path l' in
                let front =
                  (IsFresh-append db law ns (node_of (fork f.hash l' r) ∷ []) s fresh').0 in
                subst₂ (λ ns t. Held db (write_all db ns s) rest t) (sym nodes) (sym same)
                  (above-Held f.hash l' r ns s rest
                    (Below-left l l' r s (write_all db ns s) rest (Held-Below x l r s rest st).1
                      (write_all-Extends db law ns s front)
                      (λ o held. tree_put-Held k path v l s o held below front))
                    fresh')
            | went_right r' right below made ↦
                let (f, same, _) = new_fork-inv env l r' made in
                let nodes =
                  ap (path_nodes (b ∷ path)) same ∙ nodes_right db law b path f.hash l r' right in
                let fresh' = subst (λ ns. IsFresh db ns s) nodes fresh in
                let ns = path_nodes path r' in
                let front =
                  (IsFresh-append db law ns (node_of (fork f.hash l r') ∷ []) s fresh').0 in
                subst₂ (λ ns t. Held db (write_all db ns s) rest t) (sym nodes) (sym same)
                  (above-Held f.hash l r' ns s rest
                    (Below-right l r r' s (write_all db ns s) rest (Held-Below x l r s rest st).1
                      (write_all-Extends db law ns s front)
                      (λ o held. tree_put-Held k path v r s o held below front))
                    fresh')
          ]

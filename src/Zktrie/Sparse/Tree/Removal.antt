-- ===== src/Zktrie/Sparse/Tree/Removal.antt =====
-- Removal from the abstract tree, and reading after it.
use linea_sgx_prover.Prelude.{
  ℕ, zero, suc, Option, none, some, List, [], ◌∷◌, ◌++◌, ◌≡◌, ◌≢◌, inl, inr, refl, arith, ◌==◌,
  if◌then◌else◌, length, Bool-cases,
}
use linea_sgx_prover.Prelude.Results.{Result, ok, err, panic, ◌>>=◌, >>=-inv}
use linea_sgx_prover.Bytes.{Bytes, eq_of_bytes_eq}
use linea_sgx_prover.EthTypes.{Sh256}
use linea_sgx_prover.Zktrie.Types.{
  Env, NodeValue, branch, leaf, empty_leaf, next_free, Node, Error, reached_max_level,
}
use linea_sgx_prover.Zktrie.Node.{empty_leaf_node}
use linea_sgx_prover.Zktrie.Sparse.Tree.{Tree, tip, fork, node_of, read_tip, tree_get, new_fork}
use linea_sgx_prover.Zktrie.Sparse.Tree.Reads.{IsPath, IsPath-tail, IsPath-beside, new_fork-inv}

module _ (env : Env) where
  -- A removal: whatever stands at the end of the path becomes the empty leaf.
  unfoldable pub tree_remove : ℕ → Bytes → Tree → Result Error Tree
  tree_remove zero rest t = err reached_max_level
  tree_remove (suc k) rest (tip n) = ok (tip empty_leaf_node)
  tree_remove (suc k) [] (fork h l r) = panic
  tree_remove (suc k) (b ∷ rest) (fork h l r) =
      let below_left = tree_remove k rest l in
      let below_right = tree_remove k rest r in
      if b == 0
      then (do l' ← below_left; new_fork env l' r)
      else if b == 1
      then (do r' ← below_right; new_fork env l r')
      else panic

-- The branches on a path, in the order in which a removal writes them: the lowest first.
unfoldable pub path_forks : Bytes → Tree → List Node
path_forks rest (tip n) = []
path_forks [] (fork h l r) = []
path_forks (b ∷ rest) (fork h l r) =
    path_forks rest (if b == 0 then l else r) ++ node_of (fork h l r) ∷ []

module _ (env : Env) where
  -- One level of a removal.
  pub data RemoveStep (k b : ℕ) (rest : Bytes) (l r t : Tree) : Type 0 where
    cut_left :
        (l' : Tree)
        → b ≡ 0
        → tree_remove env k rest l ≡ ok l'
        → new_fork env l' r ≡ ok t
        → RemoveStep k b rest l r t
    cut_right :
        (r' : Tree)
        → b ≡ 1
        → tree_remove env k rest r ≡ ok r'
        → new_fork env l r' ≡ ok t
        → RemoveStep k b rest l r t

  pub remove_step :
      (k b : ℕ) (rest : Bytes) (h : Sh256) (l r : Tree) {t : Tree}
      → tree_remove env (suc k) (b ∷ rest) (fork h l r) ≡ ok t
      → RemoveStep k b rest l r t
  unfolding tree_remove
  remove_step k b rest h l r {t} e = elim (Bool-cases (b == 0)) [
    | inl left ↦
        let (l', below, made) =
          >>=-inv (tree_remove env k rest l) (λ l'. new_fork env l' r) (rw left at e) in
        cut_left l' (ground arith) below made
    | inr other ↦ elim (Bool-cases (b == 1)) [
      | inl right ↦
          let (r', below, made) =
            >>=-inv (tree_remove env k rest r) (λ r'. new_fork env l r') (rw (other, right) at e) in
          cut_right r' (ground arith) below made
      | inr neither ↦
          absurd (let p : ◌≡◌ {A = Result Error Tree} panic (ok t) = rw (other, neither) at e in cc)
    ]
  ]

  pub remove_at_tip :
      (k : ℕ) (rest : Bytes) (m : Node) {t : Tree}
      → tree_remove env (suc k) rest (tip m) ≡ ok t
      → t ≡ tip empty_leaf_node
  unfolding tree_remove
  remove_at_tip k rest m {t} h =
      let e : ◌≡◌ {A = Result Error Tree} (ok (tip empty_leaf_node)) (ok t) = h in cc

  -- After a successful removal the path is empty.
  pub tree_get-remove_self :
      (k : ℕ) (rest : Bytes) (t : Tree) {t' : Tree}
      → tree_remove env k rest t ≡ ok t'
      → tree_get k rest t' ≡ ok none
  unfolding tree_get read_tip
  tree_get-remove_self zero rest t h = absurd (unfold tree_remove in cc)
  tree_get-remove_self (suc k) rest (tip m) h = rw (remove_at_tip k rest m h) refl
  tree_get-remove_self (suc k) [] (fork x l r) h = absurd (unfold tree_remove in cc)
  tree_get-remove_self (suc k) (b ∷ rest) (fork x l r) h = elim (remove_step k b rest x l r h) [
    | cut_left l' left below made ↦
        let (f, same, _) = new_fork-inv env l' r made in
        rw (same, left) (tree_get-remove_self k rest l below)
    | cut_right r' right below made ↦
        let (f, same, _) = new_fork-inv env l r' made in
        rw (same, right) (tree_get-remove_self k rest r below)
  ]

  tip_held :
      (raw : NodeValue) (m : Node) (rest other : Bytes) {n : Node} {found : Option Node}
      → read_tip raw m rest ≡ ok (some n)
      → read_tip raw m other ≡ ok found
      → other ≢ rest
      → found ≡ none
  unfolding read_tip
  tip_held (branch b) m rest other g g' ne = absurd (cc)
  tip_held empty_leaf m rest other g g' ne = absurd (ground arith)
  tip_held (leaf l) m rest other g g' ne =
      ground (arith, eq_of_bytes_eq l.path other, eq_of_bytes_eq l.path rest)
  tip_held (next_free l) m rest other g g' ne =
      ground (arith, eq_of_bytes_eq l.path other, eq_of_bytes_eq l.path rest)

  -- A successful removal of a leaf path that is found changes no lookup of another leaf path of the
  -- same length that succeeds.
  pub tree_get-remove_ne :
      (k : ℕ) (rest other : Bytes) (t : Tree) {t' : Tree} {n : Node} {found : Option Node}
      → tree_remove env k rest t ≡ ok t'
      → tree_get k rest t ≡ ok (some n)
      → tree_get k other t ≡ ok found
      → IsPath rest
      → IsPath other
      → length other ≡ length rest
      → other ≢ rest
      → tree_get k other t' ≡ ok found
  unfolding tree_get
  tree_get-remove_ne zero rest other t h held g pr po size ne = absurd (unfold tree_remove in cc)
  tree_get-remove_ne (suc k) rest other (tip m) h held g pr po size ne =
      rw (remove_at_tip k rest m h, tip_held m.raw m rest other held g ne) (unfold read_tip in refl)
  tree_get-remove_ne (suc k) [] other (fork x l r) h held g pr po size ne = absurd pr
  tree_get-remove_ne (suc k) (b ∷ rest) [] (fork x l r) h held g pr po size ne = absurd po
  tree_get-remove_ne (suc k) (b ∷ rest) (c ∷ other) (fork x l r) h held g pr po size ne =
      elim (remove_step k b rest x l r h) [
        | cut_left l' left below made ↦
            let pr' = IsPath-tail b rest pr (omega arith) in
            let (binary, po') = IsPath-beside c rest other po pr' (omega arith) in
            let (f, same, _) = new_fork-inv env l' r made in
            elim (Bool-cases (c == 0)) [
              | inl here ↦
                  rw (same, here)
                    (tree_get-remove_ne k rest other l below (rw left at held) (rw here at g) pr'
                      po' (omega arith) (λ e. ne (ground arith)))
              | inr there ↦ rw (same, there) (rw there at g)
            ]
        | cut_right r' right below made ↦
            let pr' = IsPath-tail b rest pr (omega arith) in
            let (binary, po') = IsPath-beside c rest other po pr' (omega arith) in
            let (f, same, _) = new_fork-inv env l r' made in
            elim (Bool-cases (c == 0)) [
              | inl there ↦ rw (same, there) (rw there at g)
              | inr here ↦
                  rw (same, here)
                    (tree_get-remove_ne k rest other r below (rw right at held) (rw here at g) pr'
                      po' (omega arith) (λ e. ne (ground arith)))
            ]
      ]

-- ===== src/Zktrie/Sparse/Tree/Reads.antt =====
-- Reading after an update of the abstract trie.
use linea_sgx_prover.Prelude.{
  ℕ, ◌<◌, zero, suc, Option, none, some, [], ◌∷◌, ◌≡◌, ◌≢◌, inl, inr, refl, arith, ◌==◌, length,
  false, Bool-cases,
}
use linea_sgx_prover.Prelude.Results.{Result, ok, panic, >>=-inv}
use linea_sgx_prover.Bytes.{Bytes, bytes_eq, bytes_eq_refl, eq_of_bytes_eq}
use linea_sgx_prover.Zktrie.Types.{
  Env, NodeValue, branch, leaf, empty_leaf, next_free, Node, Error, leaf_type_next_free_node,
  leaf_type_value,
}
use linea_sgx_prover.Zktrie.Path.{prefix_len}
use linea_sgx_prover.Zktrie.Node.{branch_node, leaf_node, new, value, value_hash}
use linea_sgx_prover.Zktrie.Sparse.Tree.{
  Tree, tip, fork, tree_hash, read_tip, tree_get, new_tip, put_tip, new_fork, tree_put,
}

-- What a new leaf holds: the rest of the path and the value.
pub new-raw : (env : Env) (v : NodeValue) {n : Node} → new env {E = Error} v ≡ ok n → n.raw ≡ v
unfolding new
new-raw env v {n} h =
    let (b, hashed, made) =
      >>=-inv (value_hash env {E = Error} v) (λ t. ok (record { raw = v; hash = t })) h in
    let e : ◌≡◌ {A = Result Error Node} (ok (record { raw = v; hash = b })) (ok n) = made in cc

-- The shape of a leaf path: binary digits, then the marker of a value leaf.
abbrev pub IsPath : Bytes → Type 0
IsPath [] = ⊥
IsPath (m ∷ []) = m ≡ leaf_type_value
IsPath (b ∷ c ∷ p) = (b < 2) × IsPath (c ∷ p)

pub IsPath-tail : (b : ℕ) (p : Bytes) → IsPath (b ∷ p) → b < 2 → IsPath p
IsPath-tail b [] h small = omega arith
IsPath-tail b (c ∷ p) h small = h.1

-- Two paths of one length: if one goes on, so does the other.
pub IsPath-beside :
    (c : ℕ) (p q : Bytes) → IsPath (c ∷ q) → IsPath p → length q ≡ length p → (c < 2) × IsPath q
IsPath-beside c [] q hq hp e = absurd hp
IsPath-beside c (b ∷ p) [] hq hp e = absurd (omega arith)
IsPath-beside c (b ∷ p) (d ∷ q) hq hp e = (hq.0, hq.1)

-- A prefix of the same length is the whole.
eq_of_prefix : (xs ys : Bytes) → prefix_len xs ys ≡ length xs → length xs ≡ length ys → xs ≡ ys
unfolding prefix_len
eq_of_prefix [] [] p e = refl
eq_of_prefix [] (y ∷ ys) p e = absurd (omega arith)
eq_of_prefix (x ∷ xs) [] p e = absurd (omega arith)
eq_of_prefix (x ∷ xs) (y ∷ ys) p e = ground (arith, eq_of_prefix xs ys)

not_marker : (p : Bytes) → IsPath p → bytes_eq p (leaf_type_next_free_node ∷ []) ≡ false
not_marker [] h = absurd h
not_marker (m ∷ []) h = ground arith
not_marker (b ∷ c ∷ p) h = ground arith

bytes_eq_ne : (a b : Bytes) → b ≢ a → bytes_eq a b ≡ false
bytes_eq_ne a b ne = ground (arith, eq_of_bytes_eq a b)

module _ (env : Env) where
  new_tip-inv :
      (rest v : Bytes) {t : Tree}
      → new_tip env rest v ≡ ok t
      → (n : Node) × (t ≡ tip n) × (leaf_node env {E = Error} rest v ≡ ok n)
  unfolding new_tip
  new_tip-inv rest v h = let (n, made, same) = >>=-inv _ _ h in (n, cc, made)

  pub leaf_node-reads :
      (rest v : Bytes) {n : Node}
      → leaf_node env {E = Error} rest v ≡ ok n
      → (value n.raw ≡ some v) × (read_tip n.raw n rest ≡ ok (some n))
  unfolding leaf_node value read_tip
  leaf_node-reads rest v {n} h = elim (Bool-cases (bytes_eq rest (leaf_type_next_free_node ∷ []))) [
    | inl marker ↦
        let raw = new-raw env (next_free (record { path = rest; value = v })) (rw marker at h) in
        (rw raw, rw (raw, bytes_eq_refl rest))
    | inr plain ↦
        let raw = new-raw env (leaf (record { path = rest; value = v })) (rw plain at h) in
        (rw raw, rw (raw, bytes_eq_refl rest))
  ]

  -- A value that was put is read back on the same path.
  put_tip-inv :
      (raw : NodeValue) (rest v : Bytes) {t : Tree}
      → put_tip env raw rest v ≡ ok t
      → new_tip env rest v ≡ ok t
  unfolding put_tip
  put_tip-inv (branch b) rest v h = cc
  put_tip-inv empty_leaf rest v h = h
  put_tip-inv (leaf l) rest v h = ground arith
  put_tip-inv (next_free l) rest v h = ground arith

  pub put_tip-reads :
      (raw : NodeValue) (rest v : Bytes) {t : Tree}
      → put_tip env raw rest v ≡ ok t
      → (n : Node) × (t ≡ tip n) × (value n.raw ≡ some v) × (read_tip n.raw n rest ≡ ok (some n))
  put_tip-reads raw rest v {t} h =
      let (n, same, made) = new_tip-inv rest v (put_tip-inv raw rest v h) in
      let (holds, reads) = leaf_node-reads rest v made in (n, same, holds, reads)

  pub new_fork-inv :
      (l r : Tree) {t : Tree}
      → new_fork env l r ≡ ok t
      → (n : Node) × (t ≡ fork n.hash l r)
        × (branch_node env {E = Error} (tree_hash l) (tree_hash r) ≡ ok n)
  unfolding new_fork
  new_fork-inv l r h = let (n, made, same) = >>=-inv _ _ h in (n, cc, made)

  -- One level of an update.
  pub data PutStep (k b : ℕ) (rest v : Bytes) (l r t : Tree) : Type 0 where
    went_left :
        (l' : Tree)
        → b ≡ 0
        → tree_put env k rest v l ≡ ok l'
        → new_fork env l' r ≡ ok t
        → PutStep k b rest v l r t
    went_right :
        (r' : Tree)
        → b ≡ 1
        → tree_put env k rest v r ≡ ok r'
        → new_fork env l r' ≡ ok t
        → PutStep k b rest v l r t

  pub put_step :
      (k b : ℕ) (rest v : Bytes) (h : Bytes) (l r : Tree) {t : Tree}
      → tree_put env (suc k) (b ∷ rest) v (fork h l r) ≡ ok t
      → PutStep k b rest v l r t
  unfolding tree_put
  put_step k b rest v h l r {t} e = elim (Bool-cases (b == 0)) [
    | inl left ↦
        let (l', below, made) =
          >>=-inv (tree_put env k rest v l) (λ l'. new_fork env l' r) (rw left at e) in
        went_left l' (ground arith) below made
    | inr other ↦ elim (Bool-cases (b == 1)) [
      | inl right ↦
          let (r', below, made) =
            >>=-inv (tree_put env k rest v r) (λ r'. new_fork env l r') (rw (other, right) at e) in
          went_right r' (ground arith) below made
      | inr neither ↦
          absurd (let p : ◌≡◌ {A = Result Error Tree} panic (ok t) = rw (other, neither) at e in cc)
    ]
  ]

  pub put_at_tip :
      (k : ℕ) (rest v : Bytes) (m : Node) {t : Tree}
      → tree_put env (suc k) rest v (tip m) ≡ ok t
      → put_tip env m.raw rest v ≡ ok t
  unfolding tree_put
  put_at_tip k rest v m h = h

  -- After a successful update of a path, a lookup of the path finds a leaf with the value that was
  -- put.
  pub tree_get-put_self :
      (k : ℕ) (rest v : Bytes) (t : Tree) {t' : Tree}
      → tree_put env k rest v t ≡ ok t'
      → (n : Node) × (tree_get k rest t' ≡ ok (some n)) × (value n.raw ≡ some v)
  unfolding tree_get
  tree_get-put_self zero rest v t h = absurd (unfold tree_put in cc)
  tree_get-put_self (suc k) rest v (tip m) h =
      let (n, same, holds, reads) = put_tip-reads m.raw rest v (put_at_tip k rest v m h) in
      (n, rw same reads, holds)
  tree_get-put_self (suc k) [] v (fork x l r) h = absurd (unfold tree_put in cc)
  tree_get-put_self (suc k) (b ∷ rest) v (fork x l r) h = elim (put_step k b rest v x l r h) [
    | went_left l' left below made ↦
        let (n, found, holds) = tree_get-put_self k rest v l below in
        let (f, same, _) = new_fork-inv l' r made in (n, rw (same, left) found, holds)
    | went_right r' right below made ↦
        let (n, found, holds) = tree_get-put_self k rest v r below in
        let (f, same, _) = new_fork-inv l r' made in (n, rw (same, right) found, holds)
  ]

  -- The new leaf of a path is a plain one, which no other path finds.
  new_tip-hides :
      (rest other v : Bytes) {t : Tree}
      → new_tip env rest v ≡ ok t
      → IsPath rest
      → other ≢ rest
      → (n : Node) × (t ≡ tip n) × (read_tip n.raw n other ≡ ok none)
  unfolding leaf_node read_tip
  new_tip-hides rest other v h path ne =
      let (n, same, made) = new_tip-inv rest v h in
      let plain : bytes_eq rest (leaf_type_next_free_node ∷ []) ≡ false = not_marker rest path in
      let raw = new-raw env (leaf (record { path = rest; value = v })) (rw plain at made) in
      (n, same, rw (raw, bytes_eq_ne rest other ne))

  tip_unchanged :
      (raw : NodeValue) (m : Node) (rest other v : Bytes) {t : Tree} {found : Option Node}
      → put_tip env raw rest v ≡ ok t
      → read_tip raw m other ≡ ok found
      → length other ≡ length rest
      → other ≢ rest
      → found ≡ none
  unfolding put_tip read_tip
  tip_unchanged (branch b) m rest other v h g size ne = cc
  tip_unchanged empty_leaf m rest other v h g size ne = ground arith
  tip_unchanged (leaf l) m rest other v h g size ne =
      ground (arith, eq_of_bytes_eq l.path other, eq_of_prefix l.path rest)
  tip_unchanged (next_free l) m rest other v h g size ne =
      ground (arith, eq_of_bytes_eq l.path other, eq_of_prefix l.path rest)

  -- A successful update of a leaf path changes no lookup of another leaf path of the same length
  -- that succeeds.
  pub tree_get-put_ne :
      (k : ℕ) (rest other v : Bytes) (t : Tree) {t' : Tree} {found : Option Node}
      → tree_put env k rest v t ≡ ok t'
      → tree_get k other t ≡ ok found
      → IsPath rest
      → IsPath other
      → length other ≡ length rest
      → other ≢ rest
      → tree_get k other t' ≡ ok found
  unfolding tree_get
  tree_get-put_ne zero rest other v t h g pr po size ne = absurd (unfold tree_put in cc)
  tree_get-put_ne (suc k) rest other v (tip m) h g pr po size ne =
      let at_tip = put_at_tip k rest v m h in
      let (n, same, hidden) = new_tip-hides rest other v (put_tip-inv m.raw rest v at_tip) pr ne in
      let old = tip_unchanged m.raw m rest other v at_tip g size ne in rw (same, old) hidden
  tree_get-put_ne (suc k) [] other v (fork x l r) h g pr po size ne = absurd pr
  tree_get-put_ne (suc k) (b ∷ rest) [] v (fork x l r) h g pr po size ne = absurd po
  tree_get-put_ne (suc k) (b ∷ rest) (c ∷ other) v (fork x l r) h g pr po size ne =
      elim (put_step k b rest v x l r h) [
        | went_left l' left below made ↦
            let pr' = IsPath-tail b rest pr (omega arith) in
            let (binary, po') = IsPath-beside c rest other po pr' (omega arith) in
            let (f, same, _) = new_fork-inv l' r made in
            elim (Bool-cases (c == 0)) [
              | inl here ↦
                  rw (same, here)
                    (tree_get-put_ne k rest other v l below (rw here at g) pr' po' (omega arith)
                      (λ e. ne (ground arith)))
              | inr there ↦ rw (same, there) (rw there at g)
            ]
        | went_right r' right below made ↦
            let pr' = IsPath-tail b rest pr (omega arith) in
            let (binary, po') = IsPath-beside c rest other po pr' (omega arith) in
            let (f, same, _) = new_fork-inv l r' made in
            elim (Bool-cases (c == 0)) [
              | inl there ↦ rw (same, there) (rw there at g)
              | inr here ↦
                  rw (same, here)
                    (tree_get-put_ne k rest other v r below (rw here at g) pr' po' (omega arith)
                      (λ e. ne (ground arith)))
            ]
      ]

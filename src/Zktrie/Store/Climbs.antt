-- ===== src/Zktrie/Store/Climbs.antt =====
-- The nodes of a proof in a trace (src/common/zktrie/src/trace.rs), as a path of a tree.
use mathlib.Core.Path.{subst}
use linea_sgx_prover.Zktrie.Sparse.Refine.Calls.{hash-node_of}
use linea_sgx_prover.Prelude.{
  ℕ, zero, suc, ◌+◌, ◌≡◌, refl, sym, ap, ◌∙◌, inl, inr, arith, Option, none, some, List, [], ◌∷◌,
  ◌==◌, if◌then◌else◌, get_elem?, length, drop, Bool-cases,
}
use linea_sgx_prover.Prelude.Results.{ok, expect, >>=-inv, ok_inj, expect-inv}
use linea_sgx_prover.Bytes.{Bytes}
use linea_sgx_prover.EthTypes.{Sh256}
use linea_sgx_prover.Zktrie.Types.{Env, Node, Error, branch, empty_leaf}
use linea_sgx_prover.Zktrie.Node.{branch_node}
use linea_sgx_prover.Zktrie.Trace.{climb}
use linea_sgx_prover.Zktrie.Database.{Database}
use linea_sgx_prover.Zktrie.Sparse.Tree.{Tree, tip, fork, tree_hash, node_of, tree_get}
use linea_sgx_prover.Zktrie.Sparse.Tree.Reads.{new-raw}
use linea_sgx_prover.Zktrie.Sparse.Refine.{Held}

-- The hash of the last node.
abbrev pub last_hash : List Node → Option Sh256
last_hash [] = none
last_hash (n ∷ []) = some n.hash
last_hash (n ∷ m ∷ ns) = last_hash (m ∷ ns)

at-drop : (path : Bytes) (j b : ℕ) → get_elem? path j ≡ some b → drop j path ≡ b ∷ drop (suc j) path
at-drop [] zero b h = absurd (cc)
at-drop [] (suc j) b h = absurd (cc)
at-drop (x ∷ path) zero b h = cc
at-drop (x ∷ path) (suc j) b h = at-drop path j b h

-- A sibling of which only the hash is known.
abbrev pub beside : Sh256 → Tree
beside h = tip (record { raw = empty_leaf; hash = h })

module _ {D : Type 0} (db : Database D) (env : Env) (s : D) where
  abbrev pub AllHeld : List Node → Type 0
  AllHeld [] = Unit
  AllHeld (n ∷ ns) = (db.get_node s n.hash ≡ ok (some n)) × AllHeld ns

  climb-head :
      (path : Bytes) (siblings : List Sh256) (root : Node) {ns : List Node}
      → climb env {E = Error} path siblings root ≡ ok ns
      → (rest : List Node) × (ns ≡ root ∷ rest)
  unfolding climb
  climb-head path [] root h = ([], sym (ok_inj {E = Error} h))
  climb-head path (sibling ∷ siblings) root h =
      let (bit, at, h1) =
        >>=-inv (expect {E = Error} (get_elem? path (length (sibling ∷ siblings)))) _ h in
      let (up, made, h2) =
        >>=-inv
          (if bit == 0
            then branch_node env {E = Error} root.hash sibling
            else branch_node env sibling root.hash)
          _ h1 in
      let (rest, above, e) = >>=-inv (climb env {E = Error} path siblings up) _ h2 in
      (rest, sym (ok_inj {E = Error} e))

  pub branch_node-node_of :
      (l r : Tree) {n : Node}
      → branch_node env {E = Error} (tree_hash l) (tree_hash r) ≡ ok n
      → n ≡ node_of (fork n.hash l r)
  unfolding branch_node
  branch_node-node_of l r {n} h =
      let raw = new-raw env (branch (record { left = tree_hash l; right = tree_hash r })) h in
      λ i. record { raw = raw i; hash = n.hash }

  -- What a climb gives: a tree with the hash at the top, which is held on the path and in which a
  -- lookup comes to the tree at the bottom.
  pub record Climbed (path : Bytes) (depth : ℕ) (ns : List Node) (t : Tree) : Type 0 where
    pub whole : Tree
    pub whole_hash : last_hash ns ≡ some (tree_hash whole)
    pub whole_held : Held db s (drop 1 path) whole
    pub lookup :
        (k : ℕ) → tree_get (k + depth) (drop 1 path) whole ≡ tree_get k (drop (suc depth) path) t

  -- One round: the tree below a new fork, on the side of the bit.
  step-Climbed :
      (path : Bytes) (depth bit : ℕ) (h : Sh256) (l r : Tree) (first : Node) (ns : List Node)
      → get_elem? path (suc depth) ≡ some bit
      → Climbed path depth ns (fork h l r)
      → (last_hash (first ∷ ns) ≡ last_hash ns)
      → Climbed path (suc depth) (first ∷ ns) (if bit == 0 then l else r)
  unfolding tree_get
  step-Climbed path depth bit h l r first ns at c same = record {
    whole = c.whole;
    whole_hash = same ∙ c.whole_hash;
    whole_held = c.whole_held;
    lookup = λ k.
        ap (λ x. tree_get x (drop 1 path) c.whole) (more k)
        ∙ c.lookup (suc k)
        ∙ ap (λ p. tree_get (suc k) p (fork h l r)) (at-drop path (suc depth) bit at);
  }
    where
      more : (k : ℕ) → k + suc depth ≡ suc k + depth
      more k = omega arith

  fork-at :
      (path : Bytes) (j bit : ℕ) (h : Sh256) (l r : Tree)
      → get_elem? path j ≡ some bit
      → db.get_node s h ≡ ok (some (node_of (fork h l r)))
      → Held db s (drop (suc j) path) (if bit == 0 then l else r)
      → Held db s (drop j path) (fork h l r)
  unfolding Held
  fork-at path j bit h l r at held below = rw (at-drop path j bit at) (held, below)

  last-climb :
      (path : Bytes) (siblings : List Sh256) (first root : Node) {ns : List Node}
      → climb env {E = Error} path siblings root ≡ ok ns
      → last_hash (first ∷ ns) ≡ last_hash ns
  last-climb path siblings first root h =
      let (rest, e) = climb-head path siblings root h in rw e refl

  pub AllHeld-climb :
      (path : Bytes) (siblings : List Sh256) (root : Node) {ns : List Node}
      → climb env {E = Error} path siblings root ≡ ok ns
      → AllHeld ns
      → db.get_node s root.hash ≡ ok (some root)
  AllHeld-climb path siblings root h held =
      let (rest, e) = climb-head path siblings root h in (subst AllHeld e held).0

  round-Climbed :
      (path : Bytes) (siblings : List Sh256) (bit : ℕ) (l r : Tree) (first up : Node)
      {ns : List Node}
      → get_elem? path (suc (length siblings)) ≡ some bit
      → branch_node env {E = Error} (tree_hash l) (tree_hash r) ≡ ok up
      → climb env {E = Error} path siblings up ≡ ok ns
      → AllHeld ns
      → Held db s (drop (suc (suc (length siblings))) path) (if bit == 0 then l else r)
      → (Held db s (drop (suc (length siblings)) path) (fork up.hash l r)
          → climb env {E = Error} path siblings (node_of (fork up.hash l r)) ≡ ok ns
          → AllHeld ns
          → Climbed path (length siblings) ns (fork up.hash l r))
      → Climbed path (suc (length siblings)) (first ∷ ns) (if bit == 0 then l else r)
  round-Climbed path siblings bit l r first up {ns} at made above held below next =
      let same = branch_node-node_of l r made in
      let here = AllHeld-climb path siblings up above held ∙ ap (λ n. ok (some n)) same in
      step-Climbed path (length siblings) bit up.hash l r first ns at
        (next (fork-at path (suc (length siblings)) bit up.hash l r at here below)
          (subst (λ n. climb env {E = Error} path siblings n ≡ ok ns) same above) held)
        (last-climb path siblings first up above)

  either :
      (path : Bytes) (siblings : List Sh256) (bit : ℕ) (t u : Tree) (up : Node) {ns : List Node}
      → get_elem? path (suc (length siblings)) ≡ some bit
      → (if bit == 0
          then branch_node env {E = Error} (tree_hash t) (tree_hash u)
          else branch_node env (tree_hash u) (tree_hash t))
        ≡ ok up
      → climb env {E = Error} path siblings up ≡ ok ns
      → AllHeld ns
      → Held db s (drop (suc (suc (length siblings))) path) t
      → ((v : Tree)
          → Held db s (drop (suc (length siblings)) path) v
          → climb env {E = Error} path siblings (node_of v) ≡ ok ns
          → AllHeld ns
          → Climbed path (length siblings) ns v)
      → Climbed path (suc (length siblings)) (node_of t ∷ ns) t
  either path siblings bit t u up {ns} at made above held below next =
      elim (Bool-cases (bit == 0)) [
        | inl left ↦
            subst (λ b. Climbed path (suc (length siblings)) (node_of t ∷ ns) (if b then t else u))
              left
              (round-Climbed path siblings bit t u (node_of t) up at (rw left at made) above held
                (rw left below) (next (fork up.hash t u)))
        | inr right ↦
            subst (λ b. Climbed path (suc (length siblings)) (node_of t ∷ ns) (if b then u else t))
              right
              (round-Climbed path siblings bit u t (node_of t) up at (rw right at made) above held
                (rw right below) (next (fork up.hash u t)))
      ]

  -- A climb from a tree that is held, all of whose nodes are held.
  pub climb-Climbed :
      (path : Bytes) (siblings : List Sh256) (t : Tree) {ns : List Node}
      → Held db s (drop (suc (length siblings)) path) t
      → climb env {E = Error} path siblings (node_of t) ≡ ok ns
      → AllHeld ns
      → Climbed path (length siblings) ns t
  unfolding climb
  climb-Climbed path [] t st h held =
      let e : node_of t ∷ [] ≡ _ = ok_inj {E = Error} h in
      record {
        whole = t;
        whole_hash = ap last_hash (sym e) ∙ ap some (hash-node_of t);
        whole_held = st;
        lookup = λ k. ap (λ x. tree_get x (drop 1 path) t) (zero_more k);
      }
    where
      zero_more : (k : ℕ) → k + 0 ≡ k
      zero_more k = omega arith
  climb-Climbed path (sibling ∷ siblings) t st h held =
      let (bit, at, h1) =
        >>=-inv (expect {E = Error} (get_elem? path (length (sibling ∷ siblings)))) _ h in
      let (up, made, h2) =
        >>=-inv
          (if bit == 0
            then branch_node env {E = Error} (node_of t).hash sibling
            else branch_node env sibling (node_of t).hash)
          _ h1 in
      let (rest, above, e) = >>=-inv (climb env {E = Error} path siblings up) _ h2 in
      let at' = expect-inv (get_elem? path (length (sibling ∷ siblings))) at in
      let whole : node_of t ∷ rest ≡ _ = ok_inj {E = Error} e in
      let above_held = (subst AllHeld (sym whole) held).1 in
      let u = beside sibling in
      subst (λ ns. Climbed path (suc (length siblings)) ns t) whole
        (either path siblings bit t u up at'
          (subst
            (λ x.
              (if bit == 0
                then branch_node env {E = Error} x sibling
                else branch_node env sibling x)
              ≡ ok up)
            (hash-node_of t) made)
          above above_held st
          (λ v vst vabove vheld. climb-Climbed path siblings v vst vabove vheld))

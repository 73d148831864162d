-- ===== src/Zktrie/Trie/Leaves.antt =====
-- Leaves of the state trie (src/common/zktrie/src/trie.rs) below its top node.
use linea_sgx_prover.Prelude.{
  ◌≢◌, inl, inr, Option-cases, ℕ, suc, Option, some, ◌∷◌, ◌≡◌, refl, sym, ap, ◌∙◌, arith,
}
use linea_sgx_prover.Prelude.Results.{ok, >>=-inv}
use linea_sgx_prover.Bytes.{Bytes}
use linea_sgx_prover.EthTypes.{Sh256}
use linea_sgx_prover.Zktrie.Types.{Env, Node, Error, branch, empty_leaf}
use linea_sgx_prover.Zktrie.Node.{as_branch, top_node, branch_node, value}
use linea_sgx_prover.Zktrie.Path.{parse_node_index}
use linea_sgx_prover.Zktrie.Opening
use linea_sgx_prover.Zktrie.Opening.{LeafOpening}
use linea_sgx_prover.Zktrie.Opening.Codec.{parse-next}
use linea_sgx_prover.Zktrie.Database.{Database, IsLawful}
use linea_sgx_prover.Zktrie.Sparse
use linea_sgx_prover.Zktrie.Sparse.{SpareMerkleTrie, levels, root_branch, root_node}
use linea_sgx_prover.Zktrie.Sparse.Tree.{
  Tree, tip, fork, tree_hash, node_of, tree_get, tree_put, path_nodes,
}
use linea_sgx_prover.Zktrie.Sparse.Tree.Reads.{
  tree_get-put_ne, new-raw, put_step, went_left, went_right, new_fork-inv,
}
use linea_sgx_prover.Zktrie.Sparse.Tree.Removal.{tree_remove, tree_get-remove_ne}
use linea_sgx_prover.Zktrie.Trie.Paths.{IsLeafPath}
use linea_sgx_prover.Zktrie.Sparse.Refine.{Held}
use linea_sgx_prover.Zktrie.Sparse.Refine.Calls.{write_all}
use linea_sgx_prover.Zktrie.Sparse.Refine.Fresh.{write-holds, write-Extends}
use linea_sgx_prover.Zktrie.Sparse.Refine.Partial.{Held-Below, fork-Held, Below-Extends}
use linea_sgx_prover.Zktrie.Sparse.Laws.{rooted, put-ok, get_node-tree_get}
use linea_sgx_prover.Zktrie.Trie.{parse_node, put_opening, next_free_node}

-- An update below the right child of a fork keeps the left child.
pub put-right :
    (env : Env) (k : ℕ) (below v : Bytes) (h : Sh256) (l r : Tree) {t' : Tree}
    → tree_put env (suc k) (1 ∷ below) v (fork h l r) ≡ ok t'
    → (h' : Sh256) × (r' : Tree) × (t' ≡ fork h' l r')
put-right env k below v h l r e = elim (put_step env k 1 below v h l r e) [
  | went_left l' left under made ↦ absurd (omega arith)
  | went_right r' right under made ↦
      let (n, same, _) = new_fork-inv env l r' made in (n.hash, r', same)
]

-- An update of a leaf path keeps the lookups of the other leaf paths, and so does a removal.
pub leaf-put_ne :
    (env : Env) (path other v : Bytes) (t : Tree) {t' : Tree}
    → tree_put env levels path v t ≡ ok t'
    → IsLeafPath path
    → IsLeafPath other
    → other ≢ path
    → (found : Option Node) → tree_get levels other t ≡ ok found
    → tree_get levels other t' ≡ ok found
leaf-put_ne env path other v t made p q ne found got =
    tree_get-put_ne env levels path other v t made got p.formed q.formed (q.size ∙ sym p.size) ne

pub leaf-remove_ne :
    (env : Env) (path other : Bytes) (t : Tree) {t' : Tree} {n : Node}
    → tree_remove env levels path t ≡ ok t'
    → tree_get levels path t ≡ ok (some n)
    → IsLeafPath path
    → IsLeafPath other
    → other ≢ path
    → (found : Option Node) → tree_get levels other t ≡ ok found
    → tree_get levels other t' ≡ ok found
leaf-remove_ne env path other t made there p q ne found got =
    tree_get-remove_ne env levels path other t made there got p.formed q.formed
      (q.size ∙ sym p.size) ne

module _ {D : Type 0} (db : Database D) where
  -- An opening whose lookup does not change can be parsed as before.
  pub parse_node-moved :
      (env : Env) (path : Bytes) (t t' : Tree) (s s' : D) {o : LeafOpening}
      → Held db s path t
      → Held db s' path t'
      → ((found : Option Node)
          → tree_get levels path t ≡ ok found
          → tree_get levels path t' ≡ ok found)
      → parse_node db env path (rooted t, s) ≡ ok o
      → parse_node db env path (rooted t', s') ≡ ok o
  unfolding parse_node
  parse_node-moved env path t t' s s' st st' kept h =
      let (found, got, rest) = >>=-inv (Sparse.get_node db (rooted t) path s) _ h in
      let before = sym (get_node-tree_get db path t s st) ∙ got in
      let after = get_node-tree_get db path t' s' st' ∙ kept found before in
      rw (parse_node, after) rest

  -- An opening that was read names one leaf twice.
  pub parse_node-next :
      (env : Env) (path : Bytes) (ts : SpareMerkleTrie × D) {o : LeafOpening}
      → parse_node db env path ts ≡ ok o
      → o.next_leaf ≡ o.prev_leaf
  unfolding parse_node
  parse_node-next env path (t, s) h =
      let (found, _, rest) = >>=-inv (Sparse.get_node db t path s) _ h in
      elim (Option-cases found) [
        | inl missing ↦ absurd (let e = rw missing at rest in cc)
        | inr (n, is_some) ↦ elim (Option-cases (value n.raw)) [
          | inl empty ↦ absurd (let e = rw (is_some, empty) at rest in cc)
          | inr (buf, full) ↦ parse-next env.eth buf (rw (is_some, full) at rest)
        ]
      ]

  -- The counter in the top node.
  pub next_free_node-fork :
      (env : Env) (s : D) (rest : Bytes) (h : Sh256) (l r : Tree)
      → Held db s rest (fork h l r)
      → next_free_node db env (rooted (fork h l r), s) ≡ parse_node_index (tree_hash l)
  unfolding next_free_node Sparse.next_free_node root_branch root_node as_branch
  next_free_node-fork env s rest h l r st =
      let held = (Held-Below db h l r s rest st).0 in
      rw (next_free_node, root_branch, root_node, held) refl

  module _ (law : IsLawful db) (env : Env) where
    pub put_opening-ok :
        (path : Bytes) (o : LeafOpening) (t : Tree) {t' : Tree} (s : D)
        → Held db s path t
        → tree_put env levels path (Opening.to_bytes env.eth o) t ≡ ok t'
        → put_opening db env path o (rooted t, s)
          ≡ (ok tt, (rooted t', write_all db (path_nodes path t') s))
    unfolding put_opening
    put_opening-ok path o t s st made =
        put-ok db law env path (Opening.to_bytes env.eth o) t s st made

    -- The tree under a new counter. The left child of a top node is no node.
    abbrev pub counted : ℕ → Node → Tree → Tree
    counted n root r =
        fork root.hash (tip (record { raw = empty_leaf; hash = env.eth.to_big_endian n })) r

    pub counted-Held :
        (n : ℕ) (root : Node) (below : Bytes) (h : Sh256) (l r : Tree) (s : D)
        → top_node env {E = Error} n (tree_hash r) ≡ ok root
        → ((m : Node) → db.get_node s root.hash ≡ ok (some m) → m ≡ root)
        → Held db s (1 ∷ below) (fork h l r)
        → Held db (db.update_node root.hash root s).1 (1 ∷ below) (counted n root r)
    unfolding top_node branch_node
    counted-Held n root below h l r s made fresh st =
        let raw : root.raw ≡ (node_of (counted n root r)).raw =
          new-raw env (branch (record { left = env.eth.to_big_endian n; right = tree_hash r }))
            made in
        let same : root ≡ node_of (counted n root r) =
          λ i. record { raw = raw i; hash = root.hash } in
        let s' = (db.update_node root.hash root s).1 in
        fork-Held db root.hash (tip (record { raw = empty_leaf; hash = env.eth.to_big_endian n })) r
          s' (1 ∷ below) (write-holds db law root s fresh ∙ ap (λ m. ok (some m)) same)
          (Below-Extends db s s' (1 ∷ below) l r (write-Extends db law root s fresh)
            (Held-Below db h l r s (1 ∷ below) st).1)

    pub tree_get-counted :
        (k n : ℕ) (root : Node) (below : Bytes) (h : Sh256) (l r : Tree)
        → tree_get (suc k) (1 ∷ below) (counted n root r)
          ≡ tree_get (suc k) (1 ∷ below) (fork h l r)
    unfolding tree_get
    tree_get-counted k n root below h l r = refl

  -- An opening that can be parsed stands in a leaf.
  pub parse_node-found :
      (env : Env) (path : Bytes) (t : Tree) (s : D) {o : LeafOpening}
      → Held db s path t
      → parse_node db env path (rooted t, s) ≡ ok o
      → (n : Node) × (tree_get levels path t ≡ ok (some n))
  unfolding parse_node
  parse_node-found env path t s st h =
      let (found, got, rest) = >>=-inv (Sparse.get_node db (rooted t) path s) _ h in
      elim (Option-cases found) [
        | inl missing ↦ absurd (let e = rw missing at rest in cc)
        | inr (n, is_some) ↦ (n, sym (get_node-tree_get db path t s st) ∙ got ∙ ap ok is_some)
      ]

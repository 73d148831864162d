-- ===== src/Zktrie/Trie/Lookups.antt =====
-- What a lookup of a leaf path finds while the leaves of the state trie
-- (src/common/zktrie/src/trie.rs) are written.
use linea_sgx_prover.Prelude.{Option, ℕ, ◌<◌, ◌^◌, some, ◌∷◌, ◌≡◌, ◌≢◌, sym, ap, ◌∙◌}
use linea_sgx_prover.Prelude.Results.{ok}
use linea_sgx_prover.Bytes.{Bytes}
use linea_sgx_prover.EthTypes.{Sh256}
use linea_sgx_prover.Zktrie.Types.{Env, empty_leaf, Node, Error}
use linea_sgx_prover.Zktrie.Node.{value, top_node}
use linea_sgx_prover.Zktrie.Opening
use linea_sgx_prover.Zktrie.Opening.{LeafOpening}
use linea_sgx_prover.Zktrie.Database.{Database, IsLawful}
use linea_sgx_prover.Zktrie.Sparse
use linea_sgx_prover.Zktrie.Sparse.{SpareMerkleTrie, levels}
use linea_sgx_prover.Zktrie.Sparse.Tree.{Tree, tip, fork, tree_hash, tree_get, tree_put}
use linea_sgx_prover.Zktrie.Sparse.Refine.{Held}
use linea_sgx_prover.Zktrie.Sparse.Tree.Reads.{tree_get-put_self}
use linea_sgx_prover.Zktrie.Sparse.Laws.{get_node-tree_get}
use linea_sgx_prover.Zktrie.Trie.{next_free_node, sub_root_hash}
use linea_sgx_prover.Zktrie.Trie.Present.{sub_root-fork}
use linea_sgx_prover.Zktrie.Trie.Counter.{parse-counter}
use linea_sgx_prover.Zktrie.Trie.Paths.{IsLeafPath}
use linea_sgx_prover.Zktrie.Trie.Leaves.{
  leaf-put_ne, next_free_node-fork, counted, counted-Held, tree_get-counted,
}

module _ {D : Type 0} (db : Database D) (env : Env) where
  abbrev pub bytes : LeafOpening → Bytes
  bytes o = Opening.to_bytes env.eth o

  -- The lookup of a path finds a leaf with these bytes.
  abbrev pub Reads : SpareMerkleTrie × D → Bytes → Bytes → Type 0
  Reads ts path v =
      (m : Node) × (Sparse.get_node db ts.0 path ts.1 ≡ ok (some m)) × (value m.raw ≡ some v)

  abbrev pub Finds : Bytes → Bytes → Tree → Type 0
  Finds path v t = (m : Node) × (tree_get levels path t ≡ ok (some m)) × (value m.raw ≡ some v)

  Finds-put_ne :
      (path other v w : Bytes) (t : Tree) {t' : Tree}
      → tree_put env levels path v t ≡ ok t'
      → IsLeafPath path
      → IsLeafPath other
      → other ≢ path
      → Finds other w t
      → Finds other w t'
  Finds-put_ne path other v w t made p q ne (m, found, holds) =
      (m, leaf-put_ne env path other v t made p q ne (some m) found, holds)

  -- The three writes, as reads of the tree that they leave.
  pub tree_insert-Finds :
      (left added right : Bytes) (x y z : Bytes) (t : Tree) {t1 t2 t3 : Tree}
      → IsLeafPath left
      → IsLeafPath added
      → IsLeafPath right
      → left ≢ added
      → left ≢ right
      → added ≢ right
      → tree_put env levels left x t ≡ ok t1
      → tree_put env levels added y t1 ≡ ok t2
      → tree_put env levels right z t2 ≡ ok t3
      → Finds left x t3 × Finds added y t3 × Finds right z t3
  tree_insert-Finds left added right x y z t {t1} {t2} {t3} pl pa pr la lr ar made1 made2 made3 = (
    Finds-put_ne right left z x t2 made3 pr pl lr (
        Finds-put_ne added left y x t1 made2 pa pl la
          (tree_get-put_self env levels left x t made1)),
    Finds-put_ne right added z y t2 made3 pr pa ar (tree_get-put_self env levels added y t1 made2),
    tree_get-put_self env levels right z t2 made3,
  )

  -- The new top node changes no lookup of a leaf path.
  pub found-counted :
      (law : IsLawful db) (n : ℕ) (root : Node) (path : Bytes) (h : Sh256) (l r : Tree) (s : D)
      {found : Option Node}
      → IsLeafPath path
      → top_node env {E = Error} n (tree_hash r) ≡ ok root
      → ((m : Node) → db.get_node s root.hash ≡ ok (some m) → m ≡ root)
      → Held db s path (fork h l r)
      → tree_get levels path (fork h l r) ≡ ok found
      → Sparse.get_node db
          (record { root_hash = root.hash })
          path
          (db.update_node root.hash root s).1
        ≡ ok found
  found-counted law n root path h l r s {found} p made fresh st looked =
      let s' = (db.update_node root.hash root s).1 in
      let st' : Held db s (1 ∷ p.below) (fork h l r) = rw p.below_lem at st in
      let held = counted-Held db law env n root p.below h l r s made fresh st' in
      let below : tree_get levels (1 ∷ p.below) (fork h l r) ≡ ok found =
        ap (λ q. tree_get levels q (fork h l r)) (sym p.below_lem) ∙ looked in
      let got : Sparse.get_node db (record { root_hash = root.hash }) (1 ∷ p.below) s' ≡ ok found =
        get_node-tree_get db (1 ∷ p.below) (counted db law env n root r) s' held
        ∙ tree_get-counted db law env 41 n root p.below h l r
        ∙ below in
      ap (λ q. Sparse.get_node db (record { root_hash = root.hash }) q s') p.below_lem ∙ got

  -- It hides no leaf.
  pub Finds-counted :
      (law : IsLawful db) (n : ℕ) (root : Node) (path v : Bytes) (h : Sh256) (l r : Tree) (s : D)
      → IsLeafPath path
      → top_node env {E = Error} n (tree_hash r) ≡ ok root
      → ((m : Node) → db.get_node s root.hash ≡ ok (some m) → m ≡ root)
      → Held db s path (fork h l r)
      → Finds path v (fork h l r)
      → Reads (record { root_hash = root.hash }, (db.update_node root.hash root s).1) path v
  Finds-counted law n root path v h l r s p made fresh st (m, found, holds) =
      (m, found-counted law n root path h l r s p made fresh st found, holds)

  -- The counter and the root below the new top node.
  pub counted-top :
      (law : IsLawful db) (n : ℕ) (root : Node) (path : Bytes) (h : Sh256) (l r : Tree) (s : D)
      → IsLeafPath path
      → n < 2 ^ 64
      → top_node env {E = Error} n (tree_hash r) ≡ ok root
      → ((m : Node) → db.get_node s root.hash ≡ ok (some m) → m ≡ root)
      → Held db s path (fork h l r)
      → (next_free_node db env
            (record { root_hash = root.hash }, (db.update_node root.hash root s).1)
          ≡ ok n)
        × (sub_root_hash db env
              (record { root_hash = root.hash }, (db.update_node root.hash root s).1)
            ≡ ok (tree_hash r))
  counted-top law n root path h l r s p fits made fresh st =
      let s' = (db.update_node root.hash root s).1 in
      let st' : Held db s (1 ∷ p.below) (fork h l r) = rw p.below_lem at st in
      let held = counted-Held db law env n root p.below h l r s made fresh st' in
      let free : Tree = tip (record { raw = empty_leaf; hash = env.eth.to_big_endian n }) in
      (
        next_free_node-fork db env s' (1 ∷ p.below) root.hash free r held
            ∙ parse-counter db law env n fits,
        sub_root-fork db env s' (1 ∷ p.below) root.hash free r held,
      )

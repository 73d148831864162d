-- ===== src/Zktrie/Sparse/Refine.antt =====
-- The trie in a database (src/common/zktrie/src/sparse_merkle_trie.rs) against the abstract tree.
pub mod Calls
pub mod Update
pub mod Fresh
pub mod Partial
pub mod Removal
use linea_sgx_prover.Prelude.{
  ℕ, zero, suc, ◌≤◌, none, some, [], ◌∷◌, ◌≡◌, inl, inr, refl, arith, ◌==◌, if◌then◌else◌, length,
  Bool-cases, get_elem?, drop,
}
use linea_sgx_prover.Prelude.Results.{ok}
use linea_sgx_prover.Bytes.{Bytes}
use linea_sgx_prover.Zktrie.Types.{NodeValue, branch, leaf, empty_leaf, next_free, Node}
use linea_sgx_prover.Zktrie.Database.{Database}
use linea_sgx_prover.Zktrie.Sparse.{get_from, get_node}
use linea_sgx_prover.Zktrie.Sparse.Tree.{
  Tree, tip, fork, tree_hash, node_of, IsTip, read_tip, tree_get,
}

pub IsAt-step :
    (path : Bytes) (i b : ℕ) (rest : Bytes)
    → drop i path ≡ b ∷ rest
    → (get_elem? path i ≡ some b) × (drop (suc i) path ≡ rest) × (suc i ≤ length path)
IsAt-step [] zero b rest h = absurd (ground arith)
IsAt-step [] (suc i) b rest h = absurd (ground arith)
IsAt-step (x ∷ path) zero b rest h = (cc, cc, omega arith)
IsAt-step (x ∷ path) (suc i) b rest h =
    let (at, next, room) = IsAt-step path i b rest h in (at, next, omega arith)

pub IsAt-end : (path : Bytes) (i : ℕ) → drop i path ≡ [] → get_elem? path i ≡ none
IsAt-end [] i h = refl
IsAt-end (x ∷ path) zero h = absurd (ground arith)
IsAt-end (x ∷ path) (suc i) h = IsAt-end path i h

module _ {D : Type 0} (db : Database D) where
  -- The database holds the nodes of the tree on one path. Elsewhere it may hold none.
  unfoldable pub Held : D → Bytes → Tree → Type 0
  Held s rest (tip n) = (db.get_node s n.hash ≡ ok (some n)) × IsTip n.raw
  Held s [] (fork h l r) = (db.get_node s h ≡ ok (some (node_of (fork h l r)))) × Unit {0}
  Held s (b ∷ rest) (fork h l r) =
      (db.get_node s h ≡ ok (some (node_of (fork h l r)))) × Held s rest (if b == 0 then l else r)

  get_from-tip :
      (raw : NodeValue) (k i : ℕ) (n : Node) (path rest : Bytes) (s : D)
      → db.get_node s n.hash ≡ ok (some n)
      → n.raw ≡ raw
      → IsTip raw
      → drop i path ≡ rest
      → i ≤ length path
      → get_from db (suc k) i n.hash path s ≡ read_tip raw n rest
  unfolding get_from read_tip
  get_from-tip (branch b) k i n path rest s found e is_tip at room = absurd is_tip
  get_from-tip empty_leaf k i n path rest s found e is_tip at room = rw (found, e)
  get_from-tip (leaf l) k i n path rest s found e is_tip at room = rw (found, e) (ground arith)
  get_from-tip (next_free l) k i n path rest s found e is_tip at room = rw (found, e) (ground arith)

  -- Where the database holds the path, the loop of `get_node` reads what the tree says.
  pub get_from-tree_get :
      (k i : ℕ) (path rest : Bytes) (t : Tree) (s : D)
      → Held s rest t
      → drop i path ≡ rest
      → i ≤ length path
      → get_from db k i (tree_hash t) path s ≡ tree_get k rest t
  unfolding get_from tree_get Held
  get_from-tree_get zero i path rest t s st at room = refl
  get_from-tree_get (suc k) i path rest (tip n) s st at room =
      get_from-tip n.raw k i n path rest s st.0 refl st.1 at room
  get_from-tree_get (suc k) i path [] (fork h l r) s st at room = rw (st.0, IsAt-end path i at)
  get_from-tree_get (suc k) i path (b ∷ rest) (fork h l r) s st at room =
      let (here, next, room') = IsAt-step path i b rest at in
      rw (st.0, here)
        (elim (Bool-cases (b == 0)) [
          | inl left ↦
              rw left (get_from-tree_get k (suc i) path rest l s (rw left at st.1) next room')
          | inr right ↦
              rw right (get_from-tree_get k (suc i) path rest r s (rw right at st.1) next room')
        ])

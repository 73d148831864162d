-- ===== src/Zktrie/Sparse.antt =====
-- `SpareMerkleTrie` of src/common/zktrie/src/sparse_merkle_trie.rs, over any `Database`. Recursion
-- is on the levels that are left, of the 42 that `ZK_TRIE_DEPTH + 2` allows: none are left where
-- the source tests `lvl >= ZK_TRIE_DEPTH + 2`.
pub mod Tree
pub mod Refine
pub mod Laws
pub mod Removals
pub mod Writes
use linea_sgx_prover.Prelude.{
  ℕ, zero, suc, ◌+◌, Option, none, some, ◌==◌, if◌then◌else◌, length, get_elem?,
}
use linea_sgx_prover.Prelude.Results
use linea_sgx_prover.Prelude.Results.{Result, ok, err, panic, expect, ok_or}
use linea_sgx_prover.Prelude.Exec.{Exec, pure, lift, reads, ◌>>=◌, ◌>>◌}
use linea_sgx_prover.Bytes.{Bytes, slice_from, bytes_eq}
use linea_sgx_prover.EthTypes.{Sh256}
use linea_sgx_prover.Zktrie.Types.{
  Env, zk_trie_depth, BranchNode, branch, leaf, empty_leaf, next_free, Node, Error,
  reached_max_level, path_not_allow, node_not_found, root_node_not_found,
  root_node_expect_to_be_branch_node,
}
use linea_sgx_prover.Zktrie.Path.{prefix_len, parse_node_index}
use linea_sgx_prover.Zktrie.Node.{
  as_branch, child, new_replace, new, leaf_node, top_node, empty_leaf_node,
}
use linea_sgx_prover.Zktrie.Database.{Database}

pub record SpareMerkleTrie : Type 0 where
  pub root_hash : Sh256

-- The levels of the trie, the top node and the leaf included.
abbrev pub levels : ℕ
levels = zk_trie_depth + 2

module _ {D : Type 0} (db : Database D) where
  -- The node under a hash, as the recursive methods read it.
  abbrev pub fetch : ℕ → Sh256 → D → Result Error Node
  fetch lvl current s =
      Results.◌>>=◌ (db.get_node s current) (λ n. ok_or n (node_not_found lvl current))

  -- `db_add`.
  unfoldable pub db_add : Node → Exec D Error Node
  db_add n = db.update_node n.hash n

  -- `root_node`.
  unfoldable pub root_node : SpareMerkleTrie → D → Result Error Node
  root_node t s =
      Results.◌>>=◌ (db.get_node s t.root_hash) (λ n. ok_or n (root_node_not_found t.root_hash))

  -- The branch of the root node, with the error of the methods below.
  unfoldable pub root_branch : SpareMerkleTrie → D → Result Error BranchNode
  root_branch t s =
      Results.◌>>=◌ (root_node t s)
        (λ n. ok_or (as_branch n.raw) (root_node_expect_to_be_branch_node n))

  -- `sub_root_hash`.
  unfoldable pub sub_root_hash : SpareMerkleTrie → D → Result Error Sh256
  sub_root_hash t s = Results.◌>>=◌ (root_branch t s) (λ b. ok b.right)

  -- `next_free_node`.
  unfoldable pub next_free_node : SpareMerkleTrie → D → Result Error ℕ
  next_free_node t s = Results.◌>>=◌ (root_branch t s) (λ b. parse_node_index b.left)

  -- The loop of `get_node`, at its round `i`.
  unfoldable pub get_from : ℕ → ℕ → Sh256 → Bytes → D → Result Error (Option Node)
  get_from zero i next path s = err reached_max_level
  get_from (suc k) i next path s = Results.◌>>=◌ (fetch i next s) (λ n. elim n.raw [
    | branch b ↦
        Results.◌>>=◌ (expect (get_elem? path i))
          (λ idx. get_from k (suc i) (if idx == 0 then b.left else b.right) path s)
    | empty_leaf ↦ ok none
    | leaf l ↦
        Results.◌>>=◌ (slice_from path i)
          (λ rest. ok (if bytes_eq l.path rest then some n else none))
    | next_free l ↦
        Results.◌>>=◌ (slice_from path i)
          (λ rest. if bytes_eq l.path rest then ok (some n) else panic)
  ])

  -- `get_node`.
  unfoldable pub get_node : SpareMerkleTrie → Bytes → D → Result Error (Option Node)
  get_node t path s = get_from levels 0 t.root_hash path s

  module _ (env : Env) where
    -- A new leaf for the rest of the path.
    unfoldable pub add_leaf_node : Bytes → Bytes → Exec D Error Node
    add_leaf_node rest value = do n ← lift (leaf_node env rest value); db_add n

    -- `add_leaf`.
    unfoldable pub add_leaf : ℕ → ℕ → Sh256 → Bytes → Bytes → Exec D Error Node
    add_leaf zero lvl current path value = lift (err reached_max_level)
    add_leaf (suc k) lvl current path value = do
      n ← reads (fetch lvl current)
      elim n.raw [
        | branch b ↦ do
          idx ← lift (expect (get_elem? path lvl))
          c ← lift (child b idx)
          updated ← add_leaf k (suc lvl) c path value
          up ← lift (new env (branch (new_replace b idx updated.hash)))
          db_add up
        | leaf l ↦ do
          rest ← lift (slice_from path lvl)
          if prefix_len l.path rest == length l.path
              then add_leaf_node rest value
              else lift (err path_not_allow)
        | empty_leaf ↦ do rest ← lift (slice_from path lvl); add_leaf_node rest value
        | next_free l ↦ do
          rest ← lift (slice_from path lvl)
          if prefix_len l.path rest == length l.path then add_leaf_node rest value else lift panic
      ]

    -- `remove_leaf`: whatever stands at the end of the path becomes the empty leaf.
    unfoldable pub remove_leaf : ℕ → ℕ → Sh256 → Bytes → Exec D Error Node
    remove_leaf zero lvl current path = lift (err reached_max_level)
    remove_leaf (suc k) lvl current path = do
      n ← reads (fetch lvl current)
      elim n.raw [
        | branch b ↦ do
          idx ← lift (expect (get_elem? path lvl))
          c ← lift (child b idx)
          updated ← remove_leaf k (suc lvl) c path
          up ← lift (new env (branch (new_replace b idx updated.hash)))
          db_add up
        | leaf l ↦ pure empty_leaf_node
        | empty_leaf ↦ pure empty_leaf_node
        | next_free l ↦ pure empty_leaf_node
      ]

    -- Methods with `&mut self` and `&mut db` run on both.
    abbrev pub on_db : {A : Type 0} → Exec D Error A → Exec (SpareMerkleTrie × D) Error A
    on_db m (t, s) = ((m s).0, (t, (m s).1))

    abbrev pub set_root : Sh256 → Exec (SpareMerkleTrie × D) Error (Unit {0})
    set_root h (t, s) = (ok tt, (record { root_hash = h }, s))

    -- `put`.
    unfoldable pub put : Bytes → Bytes → Exec (SpareMerkleTrie × D) Error (Unit {0})
    put path value ts =
        (do root ← on_db (add_leaf levels 0 ts.0.root_hash path value); set_root root.hash) ts

    -- `remove`.
    unfoldable pub remove : Bytes → Exec (SpareMerkleTrie × D) Error (Unit {0})
    remove path ts =
        (do root ← on_db (remove_leaf levels 0 ts.0.root_hash path); set_root root.hash) ts

    -- `set_next_free_node`.
    unfoldable pub set_next_free_node : ℕ → Exec (SpareMerkleTrie × D) Error (Unit {0})
    set_next_free_node free ts =
        (do
          b ← lift (root_branch ts.0 ts.1)
          root ← lift (top_node env free b.right)
          added ← on_db (db_add root)
          set_root added.hash)
          ts

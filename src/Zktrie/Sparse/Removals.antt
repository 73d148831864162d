-- ===== src/Zktrie/Sparse/Removals.antt =====
-- What `remove` of src/common/zktrie/src/sparse_merkle_trie.rs promises, with `get_node`.
use mathlib.Core.Path.{subst}
use linea_sgx_prover.Prelude.{Option, none, some, ◌≡◌, ◌≢◌, refl, sym, ◌∙◌, arith, length}
use linea_sgx_prover.Prelude.Results.{ok}
use linea_sgx_prover.Bytes.{Bytes}
use linea_sgx_prover.Zktrie.Types.{Env, Node, zero_hash}
use linea_sgx_prover.Zktrie.Node.{empty_leaf_node}
use linea_sgx_prover.Zktrie.Database.{Database, IsLawful}
use linea_sgx_prover.Zktrie.Sparse.{SpareMerkleTrie, get_node, remove, levels, remove_leaf}
use linea_sgx_prover.Zktrie.Sparse.Tree.{Tree, tree_hash}
use linea_sgx_prover.Zktrie.Sparse.Tree.Reads.{IsPath}
use linea_sgx_prover.Zktrie.Sparse.Tree.Removal.{
  tree_remove, path_forks, tree_get-remove_self, tree_get-remove_ne,
}
use linea_sgx_prover.Zktrie.Sparse.Refine.{Held}
use linea_sgx_prover.Zktrie.Sparse.Refine.Calls.{write_all}
use linea_sgx_prover.Zktrie.Sparse.Refine.Fresh.{IsFresh}
use linea_sgx_prover.Zktrie.Sparse.Refine.Removal.{remove_leaf-Agrees, tree_remove-Held}
use linea_sgx_prover.Zktrie.Sparse.Laws.{rooted, Ends, finish, finish_end, get_node-tree_get}

module _ {D : Type 0} (db : Database D) (law : IsLawful db) (env : Env) where
  -- Where a lawful database holds the nodes of the tree on a path, `remove` ends as the removal from
  -- the tree does: a success has its root and has written the branches of its path, the lowest
  -- first, an error has changed nothing, and a panic is a panic.
  pub remove-tree_remove :
      (path : Bytes) (t : Tree) (s : D)
      → Held db s path t
      → Ends db
          (path_forks path)
          (rooted t, s)
          (tree_remove env levels path t)
          (remove db env path (rooted t, s))
  unfolding remove finish
  remove-tree_remove path t s st =
      finish_end db law env (path_forks path) (tree_remove env levels path t)
        (remove_leaf db env levels 0 (tree_hash t) path) (rooted t) s
        (remove_leaf-Agrees db law env levels 0 path path t s st refl (omega arith))

  pub remove-ok :
      (path : Bytes) (t : Tree) {t' : Tree} (s : D)
      → Held db s path t
      → tree_remove env levels path t ≡ ok t'
      → remove db env path (rooted t, s) ≡ (ok tt, (rooted t', write_all db (path_forks path t') s))
  remove-ok path t s st h =
      subst (λ r. Ends db (path_forks path) (rooted t, s) r (remove db env path (rooted t, s))) h
        (remove-tree_remove path t s st)

  -- If the database holds the nodes of the tree on the path, and the empty leaf, the removal from
  -- the tree succeeds and its writes replace no other node, then `remove` succeeds, and `get_node`
  -- finds nothing on the path afterwards.
  pub get_node-remove_self :
      (path : Bytes) (t : Tree) {t' : Tree} (s : D)
      → db.get_node s zero_hash ≡ ok (some empty_leaf_node)
      → Held db s path t
      → tree_remove env levels path t ≡ ok t'
      → IsFresh db (path_forks path t') s
      → (after : SpareMerkleTrie × D) × (remove db env path (rooted t, s) ≡ (ok tt, after))
        × (get_node db after.0 path after.1 ≡ ok none)
  get_node-remove_self path t {t'} s has_empty st h fresh =
      let s' = write_all db (path_forks path t') s in
      let st' = tree_remove-Held db law env levels path t s path has_empty st h fresh in
      (
        (rooted t', s'),
        remove-ok path t s st h,
        get_node-tree_get db path t' s' st' ∙ tree_get-remove_self env levels path t h,
      )

  -- Under the conditions that the database holds the empty leaf and the nodes of the tree on two
  -- leaf paths of the same length, the removal of the one from the tree succeeds, its writes replace
  -- no other node and `get_node` finds a node on it, `remove` succeeds and changes no successful
  -- `get_node` of the other.
  pub get_node-remove_ne :
      (path other : Bytes) (t : Tree) {t' : Tree} (s : D) {n : Node} {found : Option Node}
      → db.get_node s zero_hash ≡ ok (some empty_leaf_node)
      → Held db s path t
      → Held db s other t
      → tree_remove env levels path t ≡ ok t'
      → IsFresh db (path_forks path t') s
      → get_node db (rooted t) path s ≡ ok (some n)
      → IsPath path
      → IsPath other
      → length other ≡ length path
      → other ≢ path
      → get_node db (rooted t) other s ≡ ok found
      → (after : SpareMerkleTrie × D) × (remove db env path (rooted t, s) ≡ (ok tt, after))
        × (get_node db after.0 other after.1 ≡ ok found)
  get_node-remove_ne path other t {t'} s has_empty st beside h fresh held pp po size ne before =
      let s' = write_all db (path_forks path t') s in
      let st' = tree_remove-Held db law env levels path t s other has_empty beside h fresh in
      let here = sym (get_node-tree_get db path t s st) ∙ held in
      let there = sym (get_node-tree_get db other t s beside) ∙ before in
      (
        (rooted t', s'),
        remove-ok path t s st h,
        get_node-tree_get db other t' s' st'
            ∙ tree_get-remove_ne env levels path other t h here there pp po size ne,
      )

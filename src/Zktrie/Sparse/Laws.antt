-- ===== src/Zktrie/Sparse/Laws.antt =====
-- What `put` and `get_node` of src/common/zktrie/src/sparse_merkle_trie.rs promise together.
use mathlib.Core.Path.{subst}
use linea_sgx_prover.Prelude.{Option, some, ◌≡◌, ◌≢◌, refl, sym, ◌∙◌, arith, length, List}
use linea_sgx_prover.Prelude.Results.{Result, ok, err, panic}
use linea_sgx_prover.Prelude.Exec.{Exec, ◌>>=◌}
use linea_sgx_prover.Bytes.{Bytes}
use linea_sgx_prover.Zktrie.Types.{Env, Node, Error}
use linea_sgx_prover.Zktrie.Node.{value}
use linea_sgx_prover.Zktrie.Database.{Database, IsLawful}
use linea_sgx_prover.Zktrie.Sparse.{
  SpareMerkleTrie, get_node, put, levels, add_leaf, on_db, set_root,
}
use linea_sgx_prover.Zktrie.Sparse.Tree.{Tree, tree_hash, tree_get, tree_put, path_nodes}
use linea_sgx_prover.Zktrie.Sparse.Tree.Reads.{IsPath, tree_get-put_self, tree_get-put_ne}
use linea_sgx_prover.Zktrie.Sparse.Refine.{Held, get_from-tree_get}
use linea_sgx_prover.Zktrie.Sparse.Refine.Calls.{write_all, Agrees, hash-node_of}
use linea_sgx_prover.Zktrie.Sparse.Refine.Update.{add_leaf-Agrees}
use linea_sgx_prover.Zktrie.Sparse.Refine.Fresh.{IsFresh}
use linea_sgx_prover.Zktrie.Sparse.Refine.Partial.{tree_put-Held}

-- The trie whose root is the tree's.
abbrev pub rooted : Tree → SpareMerkleTrie
rooted t = record { root_hash = tree_hash t }

module _ {D : Type 0} (db : Database D) where
  -- How an update ends: as the update of the tree, with the new root, after writing the nodes that
  -- were made; an error changes neither the trie nor the database.
  abbrev pub Ends :
      (Tree → List Node)
      → SpareMerkleTrie × D
      → Result Error Tree
      → Result Error (Unit {0}) × (SpareMerkleTrie × D)
      → Type 0
  Ends made (trie, s) (ok t) out = out ≡ (ok tt, (rooted t, write_all db (made t) s))
  Ends made ts (err e) out = out ≡ (err e, ts)
  Ends made ts panic out = out.0 ≡ panic

  -- Where the database holds the nodes of the tree on a path, `get_node` reads on this path what the
  -- tree says, on every outcome.
  pub get_node-tree_get :
      (path : Bytes) (t : Tree) (s : D)
      → Held db s path t
      → get_node db (rooted t) path s ≡ tree_get levels path t
  unfolding get_node
  get_node-tree_get path t s st = get_from-tree_get db levels 0 path path t s st refl (omega arith)

  module _ (law : IsLawful db) (env : Env) where
    unfoldable pub finish : Exec D Error Node → Exec (SpareMerkleTrie × D) Error (Unit {0})
    finish call ts = (do root ← on_db db env call; set_root db env root.hash) ts

    pub finish_end :
        (made : Tree → List Node) (r : Result Error Tree) (call : Exec D Error Node)
        (trie : SpareMerkleTrie) (s : D)
        → Agrees db s made r (call s)
        → Ends made (trie, s) r (finish call (trie, s))
    unfolding finish
    finish_end made (ok t) call trie s agrees = rw (agrees, hash-node_of t) refl
    finish_end made (err e) call trie s agrees = rw agrees
    finish_end made panic call trie s agrees = rw agrees

    -- Where a lawful database holds the nodes of the tree on a path, `put` ends as the update of the
    -- tree does: a success has its root and has written the nodes of its path, tip first, an error
    -- has changed nothing, and a panic is a panic.
    pub put-tree_put :
        (path v : Bytes) (t : Tree) (s : D)
        → Held db s path t
        → Ends
            (path_nodes path)
            (rooted t, s)
            (tree_put env levels path v t)
            (put db env path v (rooted t, s))
    unfolding put finish
    put-tree_put path v t s st =
        finish_end (path_nodes path) (tree_put env levels path v t)
          (add_leaf db env levels 0 (tree_hash t) path v) (rooted t) s
          (add_leaf-Agrees db law env levels 0 path path v t s st refl (omega arith))

    pub put-ok :
        (path v : Bytes) (t : Tree) {t' : Tree} (s : D)
        → Held db s path t
        → tree_put env levels path v t ≡ ok t'
        → put db env path v (rooted t, s)
          ≡ (ok tt, (rooted t', write_all db (path_nodes path t') s))
    put-ok path v t {t'} s st h =
        subst (λ r. Ends (path_nodes path) (rooted t, s) r (put db env path v (rooted t, s))) h
          (put-tree_put path v t s st)

    -- If the database holds the nodes of the tree on the path, the tree's update succeeds and its
    -- writes replace no other node, then `put` succeeds, and in the trie and the database that it
    -- leaves `get_node` finds on the same path a leaf with the value that was put.
    pub get_node-put_self :
        (path v : Bytes) (t : Tree) {t' : Tree} (s : D)
        → Held db s path t
        → tree_put env levels path v t ≡ ok t'
        → IsFresh db (path_nodes path t') s
        → (after : SpareMerkleTrie × D) × (n : Node) × (put db env path v (rooted t, s)
            ≡ (ok tt, after))
          × (get_node db after.0 path after.1 ≡ ok (some n))
          × (value n.raw ≡ some v)
    get_node-put_self path v t {t'} s st h fresh =
        let s' = write_all db (path_nodes path t') s in
        let (n, found, holds) = tree_get-put_self env levels path v t h in
        let st' = tree_put-Held db law env levels path v t s path st h fresh in
        (
          (rooted t', s'),
          n,
          put-ok path v t s st h,
          get_node-tree_get path t' s' st' ∙ found,
          holds,
        )

    -- If the database holds the nodes of the tree on two leaf paths of the same length, the tree's
    -- update of the one succeeds and its writes replace no other node, then `put` succeeds and
    -- changes no successful `get_node` of the other.
    pub get_node-put_ne :
        (path other v : Bytes) (t : Tree) {t' : Tree} (s : D) {found : Option Node}
        → Held db s path t
        → Held db s other t
        → tree_put env levels path v t ≡ ok t'
        → IsFresh db (path_nodes path t') s
        → IsPath path
        → IsPath other
        → length other ≡ length path
        → other ≢ path
        → get_node db (rooted t) other s ≡ ok found
        → (after : SpareMerkleTrie × D) × (put db env path v (rooted t, s) ≡ (ok tt, after))
          × (get_node db after.0 other after.1 ≡ ok found)
    get_node-put_ne path other v t {t'} s st beside h fresh pp po size ne before =
        let s' = write_all db (path_nodes path t') s in
        let st' = tree_put-Held db law env levels path v t s other beside h fresh in
        let old = sym (get_node-tree_get other t s beside) ∙ before in
        (
          (rooted t', s'),
          put-ok path v t s st h,
          get_node-tree_get other t' s' st'
              ∙ tree_get-put_ne env levels path other v t h old pp po size ne,
        )

-- ===== src/Zktrie/Trie/Present.antt =====
-- The update of a key that is present, in src/common/zktrie/src/trie.rs: `put` writes the leaf of
-- the key with the hash of the new value.
use mathlib.Core.Path.{subst}
use linea_sgx_prover.Prelude.{ℕ, suc, ◌≡◌, refl, sym, ap, ◌∙◌, some, [], ◌∷◌}
use linea_sgx_prover.Prelude.Results.{ok}
use linea_sgx_prover.Bytes.{Bytes}
use linea_sgx_prover.EthTypes.{Sh256}
use linea_sgx_prover.Zktrie.Types.{Env, Node, Error, FlattenedLeaf, KeyRange}
use linea_sgx_prover.Zktrie.Node.{trie_hash, value, as_branch}
use linea_sgx_prover.Zktrie.Path.{get_leaf_path}
use linea_sgx_prover.Zktrie.Opening
use linea_sgx_prover.Zktrie.Opening.{LeafOpening, new_hval}
use linea_sgx_prover.Zktrie.Opening.Codec.{layout}
use linea_sgx_prover.Zktrie.Database.{Database, IsLawful}
use linea_sgx_prover.Zktrie.Sparse
use linea_sgx_prover.Zktrie.Sparse.{levels, root_branch, root_node}
use linea_sgx_prover.Zktrie.Sparse.Tree.{Tree, fork, tree_hash, tree_put, path_nodes}
use linea_sgx_prover.Zktrie.Sparse.Tree.Reads.{put_step, went_left, went_right, new_fork-inv}
use linea_sgx_prover.Zktrie.Sparse.Refine.{Held}
use linea_sgx_prover.Zktrie.Sparse.Refine.Calls.{write_all}
use linea_sgx_prover.Zktrie.Sparse.Refine.Fresh.{IsFresh}
use linea_sgx_prover.Zktrie.Sparse.Refine.Partial.{Held-Extends, Held-Below, tree_put-Held}
use linea_sgx_prover.Zktrie.Sparse.Tree.Reads.{tree_get-put_self}
use linea_sgx_prover.Zktrie.Sparse.Laws.{rooted, put-ok, get_node-tree_get}
use linea_sgx_prover.Zktrie.Trie.Leaves.{parse_node-next}
use linea_sgx_prover.Zktrie.Trie.{
  leaf_path, parse_node, sub_root_hash, nearest_keys, put_opening, put_present, put,
}

module _ {D : Type 0} (db : Database D) where
  -- An update of the index of keys leaves the nodes.
  abbrev pub KeepsNodes : Type 0
  KeepsNodes =
      (k : Sh256) (v : FlattenedLeaf) (s : D) (h : Sh256)
      → db.get_node (db.update_index k v s) h ≡ db.get_node s h

  pub Held-update_index :
      KeepsNodes
      → (k : Sh256) (v : FlattenedLeaf) (s : D) (rest : Bytes) (t : Tree) → Held db s rest t
      → Held db (db.update_index k v s) rest t
  Held-update_index keeps k v s rest t st =
      Held-Extends db s (db.update_index k v s) rest t (λ h m held. keeps k v s h ∙ held) st

  -- An update of a fork is a fork.
  put-fork :
      (env : Env) (k : ℕ) (path v : Bytes) (h : Sh256) (l r : Tree) {t' : Tree}
      → tree_put env (suc k) path v (fork h l r) ≡ ok t'
      → (h' : Sh256) × (l' : Tree) × (r' : Tree) × (t' ≡ fork h' l' r')
  put-fork env k [] v h l r e = absurd (unfold tree_put in cc)
  put-fork env k (b ∷ rest) v h l r e = elim (put_step env k b rest v h l r e) [
    | went_left l' left below made ↦
        let (n, same, _) = new_fork-inv env l' r made in (n.hash, l', r, same)
    | went_right r' right below made ↦
        let (n, same, _) = new_fork-inv env l r' made in (n.hash, l, r', same)
  ]

  -- The root below the top node of a fork.
  pub sub_root-fork :
      (env : Env) (s : D) (rest : Bytes) (h : Sh256) (l r : Tree)
      → Held db s rest (fork h l r)
      → sub_root_hash db env (rooted (fork h l r), s) ≡ ok (tree_hash r)
  unfolding sub_root_hash Sparse.sub_root_hash root_branch root_node as_branch
  sub_root-fork env s rest h l r st =
      let held = (Held-Below db h l r s rest st).0 in
      rw (sub_root_hash, root_branch, root_node, held) refl

module _ {D : Type 0} (db : Database D) (law : IsLawful db) (keeps : KeepsNodes db)
    (env : Env) where
  parse_node-update_index :
      (k : Sh256) (v : FlattenedLeaf) (path : Bytes) (t : Tree) (s : D)
      → Held db s path t
      → parse_node db env path (rooted t, db.update_index k v s)
        ≡ parse_node db env path (rooted t, s)
  unfolding parse_node
  parse_node-update_index k v path t s st =
      let same : Sparse.get_node db (rooted t) path (db.update_index k v s)
          ≡ Sparse.get_node db (rooted t) path s =
        get_node-tree_get db path t (db.update_index k v s)
          (Held-update_index db keeps k v s path t st)
        ∙ sym (get_node-tree_get db path t s st) in
      rw (parse_node, same) refl

  -- The index entry that the key gets.
  abbrev pub entry : FlattenedLeaf → Bytes → FlattenedLeaf
  entry current value = record { leaf_index = current.leaf_index; leaf_value = value }

  put_present-ok :
      (hkey : Sh256) (current : FlattenedLeaf) (val : Bytes) (t : Tree) {t' : Tree} (s : D)
      {path : Bytes} {o : LeafOpening} {hval : Sh256}
      → get_leaf_path {E = Error} current.leaf_index ≡ ok path
      → trie_hash env val ≡ ok hval
      → Held db s path t
      → parse_node db env path (rooted t, s) ≡ ok o
      → tree_put env levels path (layout env.eth o.prev_leaf o.next_leaf o.hkey hval) t ≡ ok t'
      → put_present db env hkey current val (rooted t, s) ≡ (
        ok tt,
        (rooted t', write_all db (path_nodes path t') (db.update_index hkey (entry current val) s)),
      )
  unfolding put_present leaf_path put_opening new_hval Opening.to_bytes
  put_present-ok hkey current val t s {path} {o} {hval} located hashed st parsed made =
      let s' = db.update_index hkey (entry current val) s in
      let st' = Held-update_index db keeps hkey (entry current val) s path t st in
      let parsed' = parse_node-update_index hkey (entry current val) path t s st ∙ parsed in
      let written =
        put-ok db law env path (layout env.eth o.prev_leaf o.next_leaf o.hkey hval) t s' st' made in
      rw (put_present, leaf_path, located, hashed, parsed', put_opening, written) refl

  -- Let a lawful database, whose index does not touch its nodes, hold the nodes of a trie with a top
  -- node on the path of a leaf. Let the index have this leaf for the hash of the key, its opening be
  -- readable, and the update of the tree succeed with writes that replace no other node. Then `put`
  -- succeeds and leaves the updated tree in the database. The bytes of the leaf are then the two
  -- indices and the hash of the key, all as `parse` read them, and the hash of the new value. Of the
  -- indices, `parse` reads the next one as equal to the previous one.
  pub put-present :
      (key val : Bytes) (h : Sh256) (l r : Tree) {t' : Tree} (s : D) {hkey : Sh256}
      {nearest : KeyRange} {current : FlattenedLeaf} {path : Bytes} {o : LeafOpening} {hval : Sh256}
      → trie_hash env key ≡ ok hkey
      → trie_hash env val ≡ ok hval
      → nearest_keys db env hkey (rooted (fork h l r), s) ≡ ok nearest
      → nearest.center ≡ some current
      → get_leaf_path {E = Error} current.leaf_index ≡ ok path
      → Held db s path (fork h l r)
      → parse_node db env path (rooted (fork h l r), s) ≡ ok o
      → tree_put env levels path (layout env.eth o.prev_leaf o.next_leaf o.hkey hval) (fork h l r)
        ≡ ok t'
      → IsFresh db (path_nodes path t') (db.update_index hkey (entry current val) s)
      → (after : D) × (m : Node) × (put db env key val (rooted (fork h l r), s)
          ≡ (ok tt, (rooted t', after)))
        × Held db after path t'
        × (Sparse.get_node db (rooted t') path after ≡ ok (some m))
        × (o.next_leaf ≡ o.prev_leaf)
        × (value m.raw ≡ some (layout env.eth o.prev_leaf o.next_leaf o.hkey hval))
  unfolding put
  put-present key val h l r {t'} s {hkey} {nearest} {current} {path} {o} {hval} keyed hashed near
        present located st parsed made fresh =
      let t = fork h l r in
      let s' = db.update_index hkey (entry current val) s in
      let after = write_all db (path_nodes path t') s' in
      let st' = Held-update_index db keeps hkey (entry current val) s path t st in
      let stored =
        tree_put-Held db law env levels path (layout env.eth o.prev_leaf o.next_leaf o.hkey hval) t
          s' path st' made fresh in
      let (h', l', r', is_fork) =
        put-fork db env 41 path (layout env.eth o.prev_leaf o.next_leaf o.hkey hval) h l r made in
      let before = sub_root-fork db env s path h l r st in
      let below : sub_root_hash db env (rooted t', after) ≡ ok (tree_hash r') =
        ap (λ x. sub_root_hash db env (rooted x, after)) is_fork
        ∙ sub_root-fork db env after path h' l' r' (subst (Held db after path) is_fork stored) in
      let (m, found, holds) =
        tree_get-put_self env levels path (layout env.eth o.prev_leaf o.next_leaf o.hkey hval) t
          made in
      let written = put_present-ok hkey current val t s located hashed st parsed made in
      (
        after,
        m,
        rw (put, keyed, near, before, present, written, below) refl,
        stored,
        get_node-tree_get db path t' after stored ∙ found,
        parse_node-next db env path (rooted t, s) parsed,
        holds,
      )

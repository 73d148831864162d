-- ===== src/Zktrie/Trie/Insert.antt =====
-- The writes of `put` of a new key in src/common/zktrie/src/trie.rs, one after the other.
use linea_sgx_prover.Prelude.{ℕ, ◌+◌, ◌<◌, ◌^◌, ◌≡◌, refl, ◌∙◌}
use linea_sgx_prover.Prelude.Results.{ok}
use linea_sgx_prover.Bytes.{Bytes}
use linea_sgx_prover.EthTypes.{Sh256}
use linea_sgx_prover.Zktrie.Types.{Env, Node, Error, KeyRange}
use linea_sgx_prover.Zktrie.Node.{trie_hash, top_node, as_branch}
use linea_sgx_prover.Zktrie.Path.{get_leaf_path, parse_node_index}
use linea_sgx_prover.Zktrie.Opening
use linea_sgx_prover.Zktrie.Opening.{LeafOpening, new_next_leaf, new_prev_leaf}
use linea_sgx_prover.Zktrie.Database.{Database, IsLawful}
use linea_sgx_prover.Zktrie.Sparse.{levels, root_branch, root_node}
use linea_sgx_prover.Zktrie.Sparse.Tree.{Tree, fork, tree_hash, tree_put, path_nodes}
use linea_sgx_prover.Zktrie.Sparse.Refine.{Held}
use linea_sgx_prover.Zktrie.Sparse.Refine.Calls.{write_all}
use linea_sgx_prover.Zktrie.Sparse.Refine.Fresh.{IsFresh}
use linea_sgx_prover.Zktrie.Sparse.Refine.Partial.{Held-Below, tree_put-Held}
use linea_sgx_prover.Zktrie.Sparse.Laws.{rooted}
use linea_sgx_prover.Zktrie.Trie.{left_path, right_path, parse_node, put_absent}
use linea_sgx_prover.Zktrie.Trie.Present.{KeepsNodes, Held-update_index}
use linea_sgx_prover.Zktrie.Trie.Counter.{increment-ok}
use linea_sgx_prover.Zktrie.Trie.Leaves.{next_free_node-fork, put_opening-ok}
use linea_sgx_prover.Zktrie.Trie.Lookups.{bytes}

-- The trees of an insertion: after the left leaf, the new leaf and the right leaf were written, and
-- the top node with the next counter.
pub record Insertion : Type 0 where
  pub lefts : Tree
  pub news : Tree
  pub top : Sh256
  pub sub : Tree
  pub root : Node

module _ {D : Type 0} (db : Database D) (env : Env) where
  -- The databases between the writes.
  abbrev pub after_left : Insertion → Bytes → D → D
  after_left i left s = write_all db (path_nodes left i.lefts) s

  abbrev pub after_index : Insertion → Bytes → Sh256 → ℕ → Bytes → D → D
  after_index i left hkey next val s =
      db.update_index hkey (record { leaf_index = next; leaf_value = val }) (after_left i left s)

  abbrev pub after_new : Insertion → Bytes → Bytes → Sh256 → ℕ → Bytes → D → D
  after_new i left added hkey next val s =
      write_all db (path_nodes added i.news) (after_index i left hkey next val s)

  abbrev pub after_right : Insertion → Tree → Bytes → Bytes → Bytes → Sh256 → ℕ → Bytes → D → D
  after_right i l left added right hkey next val s =
      write_all db (path_nodes right (fork i.top l i.sub)) (after_new i left added hkey next val s)

  pub top-HasTop :
      (s : D) (rest : Bytes) (h : Sh256) (l r : Tree)
      → Held db s rest (fork h l r)
      → root_branch db (rooted (fork h l r)) s
        ≡ ok (record { left = tree_hash l; right = tree_hash r })
  unfolding root_branch root_node as_branch
  top-HasTop s rest h l r st =
      let held = (Held-Below db h l r s rest st).0 in rw (root_branch, root_node, held) refl

  module _ (law : IsLawful db) (keeps : KeepsNodes db) where
    -- The writes leave every path that was held.
    pub insert-Held :
        (i : Insertion) (l t : Tree) (left added right x y z val : Bytes) (hkey : Sh256) (next : ℕ)
        (s : D) (rest : Bytes)
        → tree_put env levels left x t ≡ ok i.lefts
        → tree_put env levels added y i.lefts ≡ ok i.news
        → tree_put env levels right z i.news ≡ ok (fork i.top l i.sub)
        → IsFresh db (path_nodes left i.lefts) s
        → IsFresh db (path_nodes added i.news) (after_index i left hkey next val s)
        → IsFresh db
            (path_nodes right (fork i.top l i.sub))
            (after_new i left added hkey next val s)
        → Held db s rest t
        → Held db (after_index i left hkey next val s) rest i.lefts
          × Held db (after_new i left added hkey next val s) rest i.news
          × Held db (after_right i l left added right hkey next val s) rest (fork i.top l i.sub)
    insert-Held i l t left added right x y z val hkey next s rest made1 made2 made3 fresh1 fresh2
          fresh3 st =
        let s1 = after_index i left hkey next val s in
        let s2 = after_new i left added hkey next val s in
        let st1 =
          Held-update_index db keeps hkey (record { leaf_index = next; leaf_value = val })
            (after_left i left s) rest i.lefts
            (tree_put-Held db law env levels left x t s rest st made1 fresh1) in
        let st2 = tree_put-Held db law env levels added y i.lefts s1 rest st1 made2 fresh2 in
        let st3 = tree_put-Held db law env levels right z i.news s2 rest st2 made3 fresh3 in
        (st1, st2, st3)

    -- The calls of `put_absent`, where its writes are those of an insertion.
    pub put_absent-ok :
        (i : Insertion) (h : Sh256) (l r : Tree) (near : KeyRange) (val : Bytes) (hkey hval : Sh256)
        (next : ℕ) (left added right : Bytes) (o p : LeafOpening) (s : D)
        → get_leaf_path {E = Error} near.left_index ≡ ok left
        → get_leaf_path {E = Error} next ≡ ok added
        → get_leaf_path {E = Error} near.right_index ≡ ok right
        → trie_hash env val ≡ ok hval
        → parse_node_index {E = Error} (tree_hash l) ≡ ok next
        → next + 1 < 2 ^ 64
        → parse_node db env left (rooted (fork h l r), s) ≡ ok o
        → parse_node db env right (rooted i.news, after_new i left added hkey next val s) ≡ ok p
        → tree_put env levels left (bytes db env (new_next_leaf o next)) (fork h l r) ≡ ok i.lefts
        → tree_put env levels added
            (bytes db env (Opening.new near.left_index near.right_index hkey hval))
            i.lefts
          ≡ ok i.news
        → tree_put env levels right (bytes db env (new_prev_leaf p next)) i.news
          ≡ ok (fork i.top l i.sub)
        → top_node env {E = Error} (next + 1) (tree_hash i.sub) ≡ ok i.root
        → Held db s left (fork h l r)
        → Held db (after_index i left hkey next val s) added i.lefts
        → Held db (after_new i left added hkey next val s) right i.news
        → Held db (after_right i l left added right hkey next val s) right (fork i.top l i.sub)
        → put_absent db env hkey near val (rooted (fork h l r), s) ≡ (
          ok tt,
          (
            record { root_hash = i.root.hash },
            (db.update_node i.root.hash i.root
                (after_right i l left added right hkey next val s)).1,
          ),
        )
    unfolding put_absent left_path right_path
    put_absent-ok i h l r near val hkey hval next left added right o p s on_left on_new on_right
          hashed counter fits read_left read_right made1 made2 made3 made4 st st1 st2 st3 =
        let s3 = after_right i l left added right hkey next val s in
        let free = next_free_node-fork db env s left h l r st ∙ counter in
        let free' = next_free_node-fork db env s3 right i.top l i.sub st3 ∙ counter in
        let put1 = put_opening-ok db law env left (new_next_leaf o next) (fork h l r) s st made1 in
        let put2 =
          put_opening-ok db law env added (Opening.new near.left_index near.right_index hkey hval)
            i.lefts (after_index i left hkey next val s) st1 made2 in
        let put3 =
          put_opening-ok db law env right (new_prev_leaf p next) i.news
            (after_new i left added hkey next val s) st2 made3 in
        let counted_up =
          increment-ok db law env (rooted (fork i.top l i.sub), s3) next
            (record { left = tree_hash l; right = tree_hash i.sub })
            (top-HasTop s3 right i.top l i.sub st3) free' fits made4 in
        rw
          (
            put_absent, left_path, right_path, on_left, on_right, free, read_left, put1, on_new,
            hashed, put2, read_right, put3, counted_up,
          )
          refl

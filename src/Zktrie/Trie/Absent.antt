-- ===== src/Zktrie/Trie/Absent.antt =====
-- `put` of a new key in src/common/zktrie/src/trie.rs: the new leaf is linked between the leaves of
-- the range that the index gives.
use linea_sgx_prover.Zktrie.Sparse
use linea_sgx_prover.Prelude.{Option, some, ◌∙◌, ℕ, ◌+◌, none, some, ◌≡◌, ◌≢◌, refl, sym}
use linea_sgx_prover.Prelude.Results.{ok}
use linea_sgx_prover.Bytes.{Bytes}
use linea_sgx_prover.EthTypes.{Sh256}
use linea_sgx_prover.Zktrie.Types.{Env, Node, Error, KeyRange}
use linea_sgx_prover.Zktrie.Node.{trie_hash, top_node}
use linea_sgx_prover.Zktrie.Path.{get_leaf_path, parse_node_index}
use linea_sgx_prover.Zktrie.Opening
use linea_sgx_prover.Zktrie.Opening.{LeafOpening, new_next_leaf, new_prev_leaf}
use linea_sgx_prover.Zktrie.Opening.Codec.{layout}
use linea_sgx_prover.Zktrie.Database.{Database, IsLawful}
use linea_sgx_prover.Zktrie.Sparse.{SpareMerkleTrie, levels}
use linea_sgx_prover.Zktrie.Sparse.Tree.{Tree, fork, tree_hash, tree_get, tree_put, path_nodes}
use linea_sgx_prover.Zktrie.Sparse.Refine.{Held}
use linea_sgx_prover.Zktrie.Sparse.Refine.Fresh.{IsFresh}
use linea_sgx_prover.Zktrie.Sparse.Laws.{rooted, get_node-tree_get}
use linea_sgx_prover.Zktrie.Trie.{parse_node, next_free_node, nearest_keys, put}
use linea_sgx_prover.Zktrie.Trie.Present.{KeepsNodes, sub_root-fork}
use linea_sgx_prover.Zktrie.Trie.Paths.{
  IsLeafPath, get_leaf_path-IsLeafPath, get_leaf_path_ne, get_leaf_path_fits,
}
use linea_sgx_prover.Zktrie.Trie.Leaves.{leaf-put_ne, parse_node-moved, parse_node-next}
use linea_sgx_prover.Zktrie.Trie.Lookups.{
  found-counted, Reads, tree_insert-Finds, Finds-counted, Finds, counted-top,
}
use linea_sgx_prover.Zktrie.Trie.Insert.{
  Insertion, after_index, after_new, after_right, insert-Held, put_absent-ok,
}

module _ {D : Type 0} (db : Database D) (law : IsLawful db) (keeps : KeepsNodes db)
    (env : Env) where
  module _ (i : Insertion) (key val : Bytes) (h : Sh256) (l r : Tree) (s : D) {hkey hval : Sh256}
      {near : KeyRange} {next : ℕ} {left added right : Bytes} {o p : LeafOpening}
      (keyed : trie_hash env key ≡ ok hkey) (hashed : trie_hash env val ≡ ok hval)
      (ranged : nearest_keys db env hkey (rooted (fork h l r), s) ≡ ok near)
      (free : near.center ≡ none) (counter : parse_node_index {E = Error} (tree_hash l) ≡ ok next)
      (on_left : get_leaf_path {E = Error} near.left_index ≡ ok left)
      (on_new : get_leaf_path {E = Error} next ≡ ok added)
      (on_right : get_leaf_path {E = Error} near.right_index ≡ ok right)
      (ln : near.left_index ≢ next) (lr : near.left_index ≢ near.right_index)
      (nr : next ≢ near.right_index) (st_left : Held db s left (fork h l r))
      (st_new : Held db s added (fork h l r)) (st_right : Held db s right (fork h l r))
      (read_left : parse_node db env left (rooted (fork h l r), s) ≡ ok o)
      (read_right : parse_node db env right (rooted (fork h l r), s) ≡ ok p)
      (made1 : tree_put env levels left (layout env.eth o.prev_leaf next o.hkey o.hval) (fork h l r)
        ≡ ok i.lefts)
      (made2 : tree_put env levels added
          (layout env.eth near.left_index near.right_index hkey hval)
          i.lefts
        ≡ ok i.news)
      (made3 : tree_put env levels right (layout env.eth next p.next_leaf p.hkey p.hval) i.news
        ≡ ok (fork i.top l i.sub))
      (made4 : top_node env {E = Error} (next + 1) (tree_hash i.sub) ≡ ok i.root)
      (fresh1 : IsFresh db (path_nodes left i.lefts) s)
      (fresh2 : IsFresh db (path_nodes added i.news) (after_index db env i left hkey next val s))
      (fresh3 : IsFresh db
        (path_nodes right (fork i.top l i.sub))
        (after_new db env i left added hkey next val s))
      (fresh4 : ((m : Node)
        → db.get_node (after_right db env i l left added right hkey next val s) i.root.hash
          ≡ ok (some m)
        → m ≡ i.root)) where
    -- The databases and trees at hand.
    abbrev whole : Tree
    whole = fork i.top l i.sub

    abbrev ended : D
    ended = after_right db env i l left added right hkey next val s

    abbrev end : SpareMerkleTrie × D
    end = (record { root_hash = i.root.hash }, (db.update_node i.root.hash i.root ended).1)

    steps-Held :
        (q : Bytes)
        → Held db s q (fork h l r)
        → Held db (after_index db env i left hkey next val s) q i.lefts
          × Held db (after_new db env i left added hkey next val s) q i.news
          × Held db ended q whole
    steps-Held q st =
        insert-Held db env law keeps i l (fork h l r) left added right
          (layout env.eth o.prev_leaf next o.hkey o.hval)
          (layout env.eth near.left_index near.right_index hkey hval)
          (layout env.eth next p.next_leaf p.hkey p.hval) val hkey next s q made1 made2 made3 fresh1
          fresh2 fresh3 st

    -- A leaf path that is none of the three keeps what it has.
    past :
        (other : ℕ) {q : Bytes}
        → get_leaf_path {E = Error} other ≡ ok q
        → other ≢ near.left_index
        → other ≢ next
        → (found : Option Node) → tree_get levels q (fork h l r) ≡ ok found
        → tree_get levels q i.news ≡ ok found
    past other {q} on_other ol on found got =
        let pq = get_leaf_path-IsLeafPath other on_other in
        leaf-put_ne env added q (layout env.eth near.left_index near.right_index hkey hval) i.lefts
          made2 (get_leaf_path-IsLeafPath next on_new) pq
          (get_leaf_path_ne other next on_other on_new on) found
          (leaf-put_ne env left q (layout env.eth o.prev_leaf next o.hkey o.hval) (fork h l r) made1
            (get_leaf_path-IsLeafPath near.left_index on_left) pq
            (get_leaf_path_ne other near.left_index on_other on_left ol) found got)

    put-ends :
        (put db env key val (rooted (fork h l r), s) ≡ (ok tt, end))
        × (next_free_node db env end ≡ ok (next + 1))
    unfolding put new_next_leaf new_prev_leaf Opening.new Opening.to_bytes
    put-ends =
        let s2 = after_new db env i left added hkey next val s in
        let fits = get_leaf_path_fits next on_new in
        let (l1, l2, l3) = steps-Held left st_left in
        let (r1, r2, r3) = steps-Held right st_right in
        let read_right' =
          parse_node-moved db env right (fork h l r) i.news s s2 st_right r2
            (past near.right_index on_right (λ e. lr (sym e)) (λ e. nr (sym e))) read_right in
        let run =
          put_absent-ok db env law keeps i h l r near val hkey hval next left added right o p s
            on_left on_new on_right hashed counter fits read_left read_right' made1 made2 made3
            made4 st_left (steps-Held added st_new).0 r2 r3 in
        let before = sub_root-fork db env s left h l r st_left in
        let (count, below) =
          counted-top db env law (next + 1) i.root left i.top l i.sub ended
            (get_leaf_path-IsLeafPath near.left_index on_left) fits made4 fresh4 l3 in
        (rw (put, keyed, ranged, before, free, run, below) refl, count)

    -- Let a lawful database, whose index does not touch its nodes, hold the nodes of a trie with a top
    -- node on three leaf paths: those of the two neighbours that the index gives for a key that it
    -- does not have, and that of the next free index, which are different. Let the openings of the
    -- neighbours be readable, and the updates of the tree, the new leaf between them and the new top
    -- node be made, with writes that replace no other node. Then `put` of the key succeeds and the
    -- counter is one higher. The left neighbour has the new leaf as its next one, and its previous
    -- index and hashes as `parse` read them. The new leaf has the two neighbours and the hashes of
    -- the key and the value. The right neighbour has the new leaf as its previous one, its hashes as
    -- `parse` read them, and as its next index what `parse` read as such, which is the index of its
    -- old previous leaf.
    pub put-absent :
        (after : SpareMerkleTrie × D) × (put db env key val (rooted (fork h l r), s)
          ≡ (ok tt, after))
        × (next_free_node db env after ≡ ok (next + 1))
        × Reads db env after left (layout env.eth o.prev_leaf next o.hkey o.hval)
        × Reads db env after added (layout env.eth near.left_index near.right_index hkey hval)
        × Reads db env after right (layout env.eth next p.next_leaf p.hkey p.hval)
        × (p.next_leaf ≡ p.prev_leaf)
    put-absent =
        let pl = get_leaf_path-IsLeafPath near.left_index on_left in
        let pa = get_leaf_path-IsLeafPath next on_new in
        let pr = get_leaf_path-IsLeafPath near.right_index on_right in
        let (at_left, at_new, at_right) =
          tree_insert-Finds db env left added right (layout env.eth o.prev_leaf next o.hkey o.hval)
            (layout env.eth near.left_index near.right_index hkey hval)
            (layout env.eth next p.next_leaf p.hkey p.hval) (fork h l r) pl pa pr
            (get_leaf_path_ne near.left_index next on_left on_new ln)
            (get_leaf_path_ne near.left_index near.right_index on_left on_right lr)
            (get_leaf_path_ne next near.right_index on_new on_right nr) made1 made2 made3 in
        let kept : (q v : Bytes)
            → IsLeafPath q
            → Held db s q (fork h l r)
            → Finds db env q v whole
            → _ =
          λ q v pq st found.
            Finds-counted db env law (next + 1) i.root q v i.top l i.sub ended pq made4 fresh4
              (steps-Held q st).2 found in
        (
          end,
          put-ends.0,
          put-ends.1,
          kept left (layout env.eth o.prev_leaf next o.hkey o.hval) pl st_left at_left,
          kept added (layout env.eth near.left_index near.right_index hkey hval) pa st_new at_new,
          kept right (layout env.eth next p.next_leaf p.hkey p.hval) pr st_right at_right,
          parse_node-next db env right (rooted (fork h l r), s) read_right,
        )

    -- Let a lawful database, whose index does not touch its nodes, hold the nodes of a trie with a
    -- top node on four leaf paths: those of the two neighbours that the index gives for a key that
    -- it does not have, that of the next free index, which are different, and that of another index,
    -- which is none of them. Let the openings of the neighbours be readable, and the updates of the
    -- tree, the new leaf between them and the new top node be made, with writes that replace no
    -- other node. Then `put` of the key succeeds and changes no successful `get_node` on the path of
    -- the other index.
    pub get_node-put_absent :
        (other : ℕ) {q : Bytes} {found : Option Node}
        → get_leaf_path {E = Error} other ≡ ok q
        → other ≢ near.left_index
        → other ≢ next
        → other ≢ near.right_index
        → Held db s q (fork h l r)
        → Sparse.get_node db (rooted (fork h l r)) q s ≡ ok found
        → (after : SpareMerkleTrie × D) × (put db env key val (rooted (fork h l r), s)
            ≡ (ok tt, after))
          × (Sparse.get_node db after.0 q after.1 ≡ ok found)
    get_node-put_absent other {q} {found} on_other ol on or st got =
        let pq = get_leaf_path-IsLeafPath other on_other in
        let before = sym (get_node-tree_get db q (fork h l r) s st) ∙ got in
        let kept =
          leaf-put_ne env right q (layout env.eth next p.next_leaf p.hkey p.hval) i.news made3
            (get_leaf_path-IsLeafPath near.right_index on_right) pq
            (get_leaf_path_ne other near.right_index on_other on_right or) found
            (past other on_other ol on found before) in
        (
          end,
          put-ends.0,
          found-counted db env law (next + 1) i.root q i.top l i.sub ended pq made4 fresh4
              (steps-Held q st).2 kept,
        )

-- ===== src/Zktrie/Trie/Unlink.antt =====
-- `remove` of a present key in src/common/zktrie/src/trie.rs: its leaf is taken out of the list.
use linea_sgx_prover.Prelude.{Option, none, some, ◌≡◌, ◌≢◌, refl, sym, ◌∙◌}
use linea_sgx_prover.Prelude.Results.{ok}
use linea_sgx_prover.Bytes.{Bytes}
use linea_sgx_prover.EthTypes.{Sh256}
use linea_sgx_prover.Zktrie.Types.{Env, Node, Error, FlattenedLeaf, KeyRange, zero_hash}
use linea_sgx_prover.Zktrie.Node.{trie_hash, empty_leaf_node}
use linea_sgx_prover.Zktrie.Path.{get_leaf_path}
use linea_sgx_prover.Zktrie.Opening
use linea_sgx_prover.Zktrie.Opening.{LeafOpening, new_next_leaf, new_prev_leaf}
use linea_sgx_prover.Zktrie.Opening.Codec.{layout}
use linea_sgx_prover.Zktrie.Database.{Database, IsLawful}
use linea_sgx_prover.Zktrie.Sparse
use linea_sgx_prover.Zktrie.Sparse.{SpareMerkleTrie, levels}
use linea_sgx_prover.Zktrie.Sparse.Tree.{Tree, tree_get, tree_put, path_nodes}
use linea_sgx_prover.Zktrie.Sparse.Tree.Reads.{tree_get-put_self}
use linea_sgx_prover.Zktrie.Sparse.Tree.Removal.{tree_remove, path_forks, tree_get-remove_self}
use linea_sgx_prover.Zktrie.Sparse.Refine.{Held}
use linea_sgx_prover.Zktrie.Sparse.Refine.Calls.{write_all}
use linea_sgx_prover.Zktrie.Sparse.Refine.Fresh.{IsFresh, write_all-Extends}
use linea_sgx_prover.Zktrie.Sparse.Refine.Partial.{Held-Extends, tree_put-Held}
use linea_sgx_prover.Zktrie.Sparse.Refine.Removal.{tree_remove-Held}
use linea_sgx_prover.Zktrie.Sparse.Laws.{rooted, get_node-tree_get}
use linea_sgx_prover.Zktrie.Sparse.Removals.{remove-ok}
use linea_sgx_prover.Zktrie.Trie.{
  left_path, right_path, parse_node, nearest_keys, remove_present, remove,
}
use linea_sgx_prover.Zktrie.Trie.Paths.{IsLeafPath, get_leaf_path-IsLeafPath, get_leaf_path_ne}
use linea_sgx_prover.Zktrie.Trie.Leaves.{
  leaf-put_ne, leaf-remove_ne, parse_node-moved, parse_node-found, parse_node-next, put_opening-ok,
}
use linea_sgx_prover.Zktrie.Trie.Lookups.{bytes, Reads, Finds}

module _ {D : Type 0} (db : Database D) (env : Env) where
  -- A removal from the index of keys leaves the nodes.
  abbrev pub ForgetsNothing : Type 0
  ForgetsNothing =
      (k : Sh256) (s : D) (h : Sh256) → db.get_node (db.remove_index k s) h ≡ db.get_node s h

  -- The databases between the writes.
  abbrev pub unindexed : Bytes → Tree → Sh256 → D → D
  unindexed left t1 hkey s = db.remove_index hkey (write_all db (path_nodes left t1) s)

  abbrev pub cleared : Bytes → Tree → Bytes → Tree → Sh256 → D → D
  cleared left t1 gone t2 hkey s = write_all db (path_forks gone t2) (unindexed left t1 hkey s)

  abbrev pub unlinked : Bytes → Tree → Bytes → Tree → Bytes → Tree → Sh256 → D → D
  unlinked left t1 gone t2 right t3 hkey s =
      write_all db (path_nodes right t3) (cleared left t1 gone t2 hkey s)

  -- What the trees between the writes have: the removed leaf until it is removed, the right one all
  -- along, and at the end the neighbours as they were written.
  unlink-Finds :
      (left gone right x z : Bytes) (t : Tree) {t1 t2 t3 : Tree} {n : Node}
      → IsLeafPath left
      → IsLeafPath gone
      → IsLeafPath right
      → left ≢ gone
      → left ≢ right
      → gone ≢ right
      → tree_get levels gone t ≡ ok (some n)
      → tree_put env levels left x t ≡ ok t1
      → tree_remove env levels gone t1 ≡ ok t2
      → tree_put env levels right z t2 ≡ ok t3
      → ((found : Option Node)
          → tree_get levels gone t ≡ ok found
          → tree_get levels gone t1 ≡ ok found)
        × ((found : Option Node)
            → tree_get levels right t ≡ ok found
            → tree_get levels right t2 ≡ ok found)
        × (tree_get levels gone t3 ≡ ok none)
        × Finds db env left x t3
        × Finds db env right z t3
  unlink-Finds left gone right x z t {t1} {t2} {t3} {n} pl pg pr lg lr gr there made1 made2 made3 =
      let stays = leaf-put_ne env left gone x t made1 pl pg (λ e. lg (sym e)) in
      let past : (q : Bytes) → IsLeafPath q → q ≢ gone → _ =
        λ q pq ne. leaf-remove_ne env gone q t1 made2 (stays (some n) there) pg pq ne in
      let (m, found, holds) = tree_get-put_self env levels left x t made1 in
      (
        stays,
        (λ found got.
            past right pr (λ e. gr (sym e)) found
              (leaf-put_ne env left right x t made1 pl pr (λ e. lr (sym e)) found got)),
        leaf-put_ne env right gone z t2 made3 pr pg gr none
            (tree_get-remove_self env levels gone t1 made2),
        (
          m,
          leaf-put_ne env right left z t2 made3 pr pl lr (some m) (past left pl lg (some m) found),
          holds,
        ),
        tree_get-put_self env levels right z t2 made3,
      )

  module _ (law : IsLawful db) (keeps : ForgetsNothing) where
    -- The writes leave every path that was held.
    unlink-Held :
        (left gone right x z : Bytes) (hkey : Sh256) (t t1 t2 t3 : Tree) (s : D) (rest : Bytes)
        → db.get_node s zero_hash ≡ ok (some empty_leaf_node)
        → tree_put env levels left x t ≡ ok t1
        → tree_remove env levels gone t1 ≡ ok t2
        → tree_put env levels right z t2 ≡ ok t3
        → IsFresh db (path_nodes left t1) s
        → IsFresh db (path_forks gone t2) (unindexed left t1 hkey s)
        → IsFresh db (path_nodes right t3) (cleared left t1 gone t2 hkey s)
        → Held db s rest t
        → Held db (write_all db (path_nodes left t1) s) rest t1
          × Held db (unindexed left t1 hkey s) rest t1
          × Held db (cleared left t1 gone t2 hkey s) rest t2
          × Held db (unlinked left t1 gone t2 right t3 hkey s) rest t3
    unlink-Held left gone right x z hkey t t1 t2 t3 s rest has_empty made1 made2 made3 fresh1 fresh2
          fresh3 st =
        let s0 = write_all db (path_nodes left t1) s in
        let s1 = unindexed left t1 hkey s in
        let s2 = cleared left t1 gone t2 hkey s in
        let st0 = tree_put-Held db law env levels left x t s rest st made1 fresh1 in
        let st1 = Held-Extends db s0 s1 rest t1 (λ h m held. keeps hkey s0 h ∙ held) st0 in
        let still =
          keeps hkey s0 zero_hash
          ∙ write_all-Extends db law (path_nodes left t1) s fresh1 zero_hash empty_leaf_node
              has_empty in
        let st2 = tree_remove-Held db law env levels gone t1 s1 rest still st1 made2 fresh2 in
        (st0, st1, st2, tree_put-Held db law env levels right z t2 s2 rest st2 made3 fresh3)

    -- The calls of `remove_present`, where its writes are these.
    remove_present-ok :
        (near : KeyRange) (current : FlattenedLeaf) (hkey : Sh256) (left gone right : Bytes)
        (o d p : LeafOpening) (t t1 t2 t3 : Tree) (s : D)
        → get_leaf_path {E = Error} near.left_index ≡ ok left
        → get_leaf_path {E = Error} current.leaf_index ≡ ok gone
        → get_leaf_path {E = Error} near.right_index ≡ ok right
        → parse_node db env left (rooted t, s) ≡ ok o
        → parse_node db env gone (rooted t1, write_all db (path_nodes left t1) s) ≡ ok d
        → parse_node db env right (rooted t2, cleared left t1 gone t2 hkey s) ≡ ok p
        → tree_put env levels left (bytes db env (new_next_leaf o near.right_index)) t ≡ ok t1
        → tree_remove env levels gone t1 ≡ ok t2
        → tree_put env levels right (bytes db env (new_prev_leaf p near.left_index)) t2 ≡ ok t3
        → Held db s left t
        → Held db (unindexed left t1 hkey s) gone t1
        → Held db (cleared left t1 gone t2 hkey s) right t2
        → remove_present db env hkey near current (rooted t, s)
          ≡ (ok tt, (rooted t3, unlinked left t1 gone t2 right t3 hkey s))
    unfolding remove_present left_path right_path
    remove_present-ok near current hkey left gone right o d p t t1 t2 t3 s on_left on_gone on_right
          read_left read_gone read_right made1 made2 made3 st st1 st2 =
        let put1 = put_opening-ok db law env left (new_next_leaf o near.right_index) t s st made1 in
        let cut = remove-ok db law env gone t1 (unindexed left t1 hkey s) st1 made2 in
        let put2 =
          put_opening-ok db law env right (new_prev_leaf p near.left_index) t2
            (cleared left t1 gone t2 hkey s) st2 made3 in
        rw
          (
            remove_present, left_path, right_path, on_left, on_right, read_left, put1, on_gone,
            read_gone, cut, read_right, put2,
          )
          refl

    -- Let a lawful database, whose index does not touch its nodes, hold the empty leaf and the nodes
    -- of a trie on three leaf paths: that of the leaf which the index gives for a key, and those of
    -- its two neighbours, which are different. Let their openings be readable, and the two updates
    -- of the tree and the removal between them be made, with writes that replace no other node. Then
    -- `remove` of the key succeeds and nothing is found at its leaf. The left neighbour has the right
    -- one as its next leaf, and its previous index and hashes as `parse` read them. The right
    -- neighbour has the left one as its previous leaf, its hashes as `parse` read them, and as its
    -- next index what `parse` read as such, which is the index of its old previous leaf.
    pub remove-unlinks :
        (key : Bytes) (t t1 t2 t3 : Tree) (s : D) {hkey : Sh256} {near : KeyRange}
        {current : FlattenedLeaf} {left gone right : Bytes} {o d p : LeafOpening}
        → trie_hash env key ≡ ok hkey
        → nearest_keys db env hkey (rooted t, s) ≡ ok near
        → near.center ≡ some current
        → get_leaf_path {E = Error} near.left_index ≡ ok left
        → get_leaf_path {E = Error} current.leaf_index ≡ ok gone
        → get_leaf_path {E = Error} near.right_index ≡ ok right
        → near.left_index ≢ current.leaf_index
        → near.left_index ≢ near.right_index
        → current.leaf_index ≢ near.right_index
        → db.get_node s zero_hash ≡ ok (some empty_leaf_node)
        → Held db s left t
        → Held db s gone t
        → Held db s right t
        → parse_node db env left (rooted t, s) ≡ ok o
        → parse_node db env gone (rooted t, s) ≡ ok d
        → parse_node db env right (rooted t, s) ≡ ok p
        → tree_put env levels left (layout env.eth o.prev_leaf near.right_index o.hkey o.hval) t
          ≡ ok t1
        → tree_remove env levels gone t1 ≡ ok t2
        → tree_put env levels right (layout env.eth near.left_index p.next_leaf p.hkey p.hval) t2
          ≡ ok t3
        → IsFresh db (path_nodes left t1) s
        → IsFresh db (path_forks gone t2) (unindexed left t1 hkey s)
        → IsFresh db (path_nodes right t3) (cleared left t1 gone t2 hkey s)
        → (after : SpareMerkleTrie × D) × (remove db env key (rooted t, s) ≡ (ok tt, after))
          × (Sparse.get_node db after.0 gone after.1 ≡ ok none)
          × Reads db env after left (layout env.eth o.prev_leaf near.right_index o.hkey o.hval)
          × Reads db env after right (layout env.eth near.left_index p.next_leaf p.hkey p.hval)
          × (p.next_leaf ≡ p.prev_leaf)
    unfolding remove new_next_leaf new_prev_leaf Opening.to_bytes
    remove-unlinks key t t1 t2 t3 s {hkey} {near} {current} {left} {gone} {right} {o} {d} {p} keyed
          ranged present on_left on_gone on_right lg lr gr has_empty st_left st_gone st_right
          read_left read_gone read_right made1 made2 made3 fresh1 fresh2 fresh3 =
        let x = layout env.eth o.prev_leaf near.right_index o.hkey o.hval in
        let z = layout env.eth near.left_index p.next_leaf p.hkey p.hval in
        let s3 = unlinked left t1 gone t2 right t3 hkey s in
        let pl = get_leaf_path-IsLeafPath near.left_index on_left in
        let pg = get_leaf_path-IsLeafPath current.leaf_index on_gone in
        let pr = get_leaf_path-IsLeafPath near.right_index on_right in
        let lg' = get_leaf_path_ne near.left_index current.leaf_index on_left on_gone lg in
        let lr' = get_leaf_path_ne near.left_index near.right_index on_left on_right lr in
        let gr' = get_leaf_path_ne current.leaf_index near.right_index on_gone on_right gr in
        let held : (q : Bytes) → Held db s q t → _ = λ q st.
          unlink-Held left gone right x z hkey t t1 t2 t3 s q has_empty made1 made2 made3 fresh1
            fresh2 fresh3 st in
        let (_, _, _, l3) = held left st_left in
        let (g0, g1, _, g3) = held gone st_gone in
        let (_, _, r2, r3) = held right st_right in
        let (n, there) = parse_node-found db env gone t s st_gone read_gone in
        let (stays, moves, empty, at_left, at_right) =
          unlink-Finds left gone right x z t pl pg pr lg' lr' gr' there made1 made2 made3 in
        let read_gone' =
          parse_node-moved db env gone t t1 s (write_all db (path_nodes left t1) s) st_gone g0 stays
            read_gone in
        let read_right' =
          parse_node-moved db env right t t2 s (cleared left t1 gone t2 hkey s) st_right r2 moves
            read_right in
        let run =
          remove_present-ok near current hkey left gone right o d p t t1 t2 t3 s on_left on_gone
            on_right read_left read_gone' read_right' made1 made2 made3 st_left g1 r2 in
        let (ml, found_left, holds_left) = at_left in
        let (mr, found_right, holds_right) = at_right in
        (
          (rooted t3, s3),
          rw (remove, keyed, ranged, present) run,
          get_node-tree_get db gone t3 s3 g3 ∙ empty,
          (ml, get_node-tree_get db left t3 s3 l3 ∙ found_left, holds_left),
          (mr, get_node-tree_get db right t3 s3 r3 ∙ found_right, holds_right),
          parse_node-next db env right (rooted t, s) read_right,
        )

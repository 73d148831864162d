-- ===== src/Zktrie/Store/Readable.antt =====
-- What the trie reads from the store of honest traces (src/common/zktrie/src/storage.rs and
-- trace.rs).
use mathlib.Core.Path.{subst}
use linea_sgx_prover.Prelude.{
  ℕ, suc, ◌-◌, ◌≡◌, refl, sym, ap, ◌∙◌, inl, inr, arith, Option, none, some, List, [], ◌∷◌,
  get_elem?, length, drop, Option-cases,
}
use linea_sgx_prover.Prelude.Results.{Result, ok, >>=-inv, ok_inj}
use linea_sgx_prover.Bytes.{Bytes, slice_from}
use linea_sgx_prover.BtreeMap
use linea_sgx_prover.BtreeMap.{Map, bytes_ord, get-insert_self}
use linea_sgx_prover.EthTypes.{Sh256}
use linea_sgx_prover.Zktrie.Types.{Env, Node, Error}
use linea_sgx_prover.Zktrie.Node.{value, top_node, init_world_state, empty_leaf_node}
use linea_sgx_prover.Zktrie.Path.{get_leaf_path}
use linea_sgx_prover.Zktrie.Opening
use linea_sgx_prover.Zktrie.Opening.{LeafOpening}
use linea_sgx_prover.Zktrie.Trace.{Trace, TraceProof, old_state, build_nodes, bottom, climb}
use linea_sgx_prover.Zktrie.Sparse
use linea_sgx_prover.Zktrie.Sparse.{SpareMerkleTrie}
use linea_sgx_prover.Zktrie.Sparse.Tree.{
  Tree, tip, fork, tree_hash, node_of, read_tip, tree_get, IsTip,
}
use linea_sgx_prover.Zktrie.Sparse.Tree.Reads.{leaf_node-reads}
use linea_sgx_prover.Zktrie.Sparse.Refine.{Held}
use linea_sgx_prover.Zktrie.Sparse.Refine.Fresh.{value-IsTip}
use linea_sgx_prover.Zktrie.Sparse.Refine.Partial.{fork-Held, tip-Held}
use linea_sgx_prover.Zktrie.Sparse.Laws.{rooted, get_node-tree_get}
use linea_sgx_prover.Zktrie.Trie.Paths.{get_leaf_path-IsLeafPath}
use linea_sgx_prover.Zktrie.Store.{MemStore, from_traces, get_node, update_node, empty_store}
use linea_sgx_prover.Zktrie.Store.Instance.{prefix_db}
use linea_sgx_prover.Zktrie.Store.Climbs.{
  last_hash, beside, AllHeld, AllHeld-climb, branch_node-node_of, Climbed, climb-Climbed,
}
use linea_sgx_prover.Zktrie.Store.Traced.{
  AllHas-more, Proves, Has, AllHas, insert-Has, from_traces-proof,
}

module _ (env : Env) where
  -- No other node is read under the hash of one of these.
  abbrev pub NoClash : MemStore → List Node → Type 0
  NoClash s [] = Unit
  NoClash s (n ∷ ns) = ((m : Node) → get_node env s n.hash ≡ ok (some m) → m ≡ n) × NoClash s ns

  Has-get_node :
      (s : MemStore) (h : Sh256) {top : Node} {world : Map Sh256 Node}
      → init_world_state env {E = Error} ≡ ok (top, world)
      → Has h s.nodes
      → (m : Node) × (get_node env s h ≡ ok (some m))
  unfolding get_node
  Has-get_node s h {top} {world} defined (n, found) = elim (Option-cases (BtreeMap.get h world)) [
    | inl free ↦ (n, ground (arith, defined, free, found))
    | inr (m, fixed) ↦ (m, ground (arith, defined, fixed))
  ]

  AllHas-AllHeld :
      (prefix : ℕ) (s : MemStore) (ns : List Node) {top : Node} {world : Map Sh256 Node}
      → init_world_state env {E = Error} ≡ ok (top, world)
      → NoClash s ns
      → AllHas s.nodes ns
      → AllHeld (prefix_db env prefix) env s ns
  AllHas-AllHeld prefix s [] defined alone has = tt
  AllHas-AllHeld prefix s (n ∷ ns) defined alone has =
      let (m, read) = Has-get_node s n.hash defined has.0 in
      (
        read ∙ ap (λ x. ok (some x)) (alone.0 m read),
        AllHas-AllHeld prefix s ns defined alone.1 has.1,
      )

  -- What a lookup finds of an opening.
  abbrev pub Answers : Option LeafOpening → Result Error (Option Node) → Type 0
  Answers none r = r ≡ ok none
  Answers (some o) r =
      (n : Node) × (r ≡ ok (some n)) × (value n.raw ≡ some (Opening.to_bytes env.eth o))

  bottom-Answers :
      (path : Bytes) (o : Option LeafOpening) {n : Node}
      → length path ≡ 42
      → bottom env {E = Error} path o ≡ ok n
      → Answers o (tree_get 1 (drop 41 path) (tip n)) × IsTip n.raw
  unfolding bottom tree_get read_tip
  bottom-Answers path none {n} size h =
      let e : empty_leaf_node ≡ n = ok_inj {E = Error} h in
      subst (λ n. (tree_get 1 (drop 41 path) (tip n) ≡ ok none) × IsTip n.raw) e (refl, tt)
  bottom-Answers path (some o) {n} size h =
      let (marker, cut, made) = >>=-inv (slice_from {E = Error} path (length path - 1)) _ h in
      let last : drop 41 path ≡ marker = ground arith in
      let (holds, reads) = leaf_node-reads env marker (Opening.to_bytes env.eth o) made in
      ((n, rw last reads, holds), value-IsTip n.raw holds)

  proof-Climbed :
      (prefix : ℕ) (s : MemStore) (p : TraceProof) (o : Option LeafOpening) {ns : List Node}
      {path : Bytes}
      → get_leaf_path {E = Error} p.leaf_index ≡ ok path
      → build_nodes env {E = Error} p o ≡ ok ns
      → length p.siblings ≡ 40
      → AllHeld (prefix_db env prefix) env s ns
      → (b : Node) × Climbed (prefix_db env prefix) env s path 40 ns (tip b)
        × Answers o (tree_get 1 (drop 41 path) (tip b))
  unfolding build_nodes
  proof-Climbed prefix s p o {ns} {path} located built size held =
      let db = prefix_db env prefix in
      let (path', located', h1) = >>=-inv (get_leaf_path {E = Error} p.leaf_index) _ built in
      let same : path' ≡ path = ok_inj {E = Error} (sym located' ∙ located) in
      let (b, bot, above) = >>=-inv (bottom env {E = Error} path' o) _ h1 in
      let above' = subst (λ q. climb env {E = Error} q p.siblings b ≡ ok ns) same above in
      let shaped = get_leaf_path-IsLeafPath p.leaf_index located in
      let (answers, is_tip) =
        bottom-Answers path o shaped.size
          (subst (λ q. bottom env {E = Error} q o ≡ ok b) same bot) in
      let here = AllHeld-climb db env s path p.siblings b above' held in
      let st = tip-Held db b s (drop (suc (length p.siblings)) path) here is_tip in
      (
        b,
        subst (λ d. Climbed db env s path d ns (tip b)) size
            (climb-Climbed db env s path p.siblings (tip b) st above' held),
        answers,
      )

  top_node-node_of :
      (free : ℕ) (whole : Tree) {root : Node}
      → top_node env {E = Error} free (tree_hash whole) ≡ ok root
      → root ≡ node_of (fork root.hash (beside (env.eth.to_big_endian free)) whole)
  unfolding top_node
  top_node-node_of free whole h =
      branch_node-node_of (prefix_db env 0) env empty_store (beside (env.eth.to_big_endian free))
        whole h

  -- The lookup below the top node, on the whole path.
  answer_at :
      (prefix : ℕ) (s : MemStore) (path : Bytes) (h : Sh256) (l whole b : Tree)
      (o : Option LeafOpening)
      → path ≡ 1 ∷ drop 1 path
      → Held (prefix_db env prefix) s (1 ∷ drop 1 path) (fork h l whole)
      → (tree_get 41 (drop 1 path) whole ≡ tree_get 1 (drop 41 path) b)
      → Answers o (tree_get 1 (drop 41 path) b)
      → Held (prefix_db env prefix) s path (fork h l whole)
        × Answers o (Sparse.get_node (prefix_db env prefix) (rooted (fork h l whole)) path s)
  unfolding tree_get
  answer_at prefix s path h l whole b o cut st same answers =
      let db = prefix_db env prefix in
      let got : Sparse.get_node db (rooted (fork h l whole)) (1 ∷ drop 1 path) s
          ≡ tree_get 1 (drop 41 path) b =
        get_node-tree_get db (1 ∷ drop 1 path) (fork h l whole) s st ∙ same in
      subst
        (λ q.
          Held db s q (fork h l whole)
          × Answers o (Sparse.get_node db (rooted (fork h l whole)) q s))
        (sym cut) (st, subst (Answers o) (sym got) answers)

  -- Let `from_traces` make a store of traces, one of which has a proof, with the opening at its
  -- leaf or none, that climbs 40 levels to the root of the trace's old state. Once the old top node
  -- is written, and if no other node is read under the hashes of the nodes of the proof, the trie
  -- under the old top hash finds the opening on the leaf's path, or nothing where there is none, and
  -- the store holds the nodes of a tree on this path.
  pub from_traces-Answers :
      (prefix i : ℕ) (ts : List Trace) {t : Trace} {p : TraceProof} {o : Option LeafOpening}
      {s : MemStore} {ns : List Node} {free : ℕ} {sub : Sh256} {root : Node} {path : Bytes}
      {top : Node} {world : Map Sh256 Node}
      → get_elem? ts i ≡ some t
      → Proves t p o
      → from_traces env ts ≡ ok s
      → init_world_state env {E = Error} ≡ ok (top, world)
      → get_leaf_path {E = Error} p.leaf_index ≡ ok path
      → build_nodes env {E = Error} p o ≡ ok ns
      → length p.siblings ≡ 40
      → old_state {E = Error} t ≡ ok (free, sub)
      → last_hash ns ≡ some sub
      → top_node env {E = Error} free sub ≡ ok root
      → NoClash (update_node root.hash root s).1 (root ∷ ns)
      → (whole : Tree) × Held
          (prefix_db env prefix)
          (update_node root.hash root s).1
          path
          (fork root.hash (beside (env.eth.to_big_endian free)) whole)
        × Answers o (
            Sparse.get_node
              (prefix_db env prefix)
              (record { root_hash = root.hash })
              path
              (update_node root.hash root s).1)
  unfolding update_node
  from_traces-Answers prefix i ts {t} {p} {o} {s} {ns} {free} {sub} {root} {path} at proves made
        defined located built size dated honest topped alone =
      let s' = (update_node root.hash root s).1 in
      let (ms, built', has) = from_traces-proof env ts i at proves made in
      let same : ms ≡ ns = ok_inj {E = Error} (sym built' ∙ built) in
      let has' =
        AllHas-more s.nodes s'.nodes ns (λ h. insert-Has h root.hash root s.nodes)
          (subst (AllHas s.nodes) same has) in
      let (top_held, held) =
        AllHas-AllHeld prefix s' (root ∷ ns) defined alone
          ((root, get-insert_self root.hash root s.nodes), has') in
      let (b, c, answers) = proof-Climbed prefix s' p o located built size held in
      let sub_same : sub ≡ tree_hash c.whole =
        let e : some sub ≡ some (tree_hash c.whole) = sym honest ∙ c.whole_hash in cc in
      let topped' : top_node env {E = Error} free (tree_hash c.whole) ≡ ok root =
        subst (λ h. top_node env {E = Error} free h ≡ ok root) sub_same topped in
      let here = top_held ∙ ap (λ n. ok (some n)) (top_node-node_of free c.whole topped') in
      let shaped = get_leaf_path-IsLeafPath p.leaf_index located in
      let cut = shaped.below_lem ∙ ap (λ q. 1 ∷ drop 1 q) (sym shaped.below_lem) in
      let left = beside (env.eth.to_big_endian free) in
      let st =
        fork-Held (prefix_db env prefix) root.hash left c.whole s' (1 ∷ drop 1 path) here
          c.whole_held in
      let (kept, answer) =
        answer_at prefix s' path root.hash left c.whole (tip b) o cut st (c.lookup 1) answers in
      (c.whole, kept, answer)

-- ===== src/Zktrie/Store/Contents.antt =====
-- The nodes that traces and proofs put into the `MemStore` of src/common/zktrie/src/storage.rs.
use mathlib.Core.Path.{subst}
use linea_sgx_prover.Prelude.{
  ℕ, zero, suc, ◌≡◌, inl, inr, Option, none, some, List, [], ◌∷◌, ◌++◌, ◌==◌, get_elem?, replicate,
  Bool-cases,
}
use linea_sgx_prover.Prelude.Results.{ok, expect, ◌>>=◌, >>=-inv, ok_inj}
use linea_sgx_prover.Bytes.{Bytes}
use linea_sgx_prover.BtreeMap
use linea_sgx_prover.BtreeMap.{Map, bytes_ord}
use linea_sgx_prover.EthTypes.{Sh256}
use linea_sgx_prover.Zktrie.Types.{Env, Node, Error}
use linea_sgx_prover.Zktrie.Path.{get_leaf_path}
use linea_sgx_prover.Zktrie.Node as Nodes
use linea_sgx_prover.Bytes.Endian.{to_be}
use linea_sgx_prover.Zktrie.Node.{
  new, value_hash, branch_node, raw_branch_auto, grow_empty, init_world_state, empty_leaf_node,
  parse_leaf, parse_branch, new_next_free,
}
use linea_sgx_prover.Zktrie.Opening.{LeafOpening}
use linea_sgx_prover.Zktrie.Trace.{
  Trace, update, insertion, deletion, read, read_zero, TraceProof, old_state, build_nodes, bottom,
  nodes,
}
use linea_sgx_prover.Zktrie.Store.{
  MemStore, insert_nodes, trace_nodes, levels_from_traces, from_traces, sibling_node, fold_proof,
}
use linea_sgx_prover.Zktrie.Store.Authentic.{
  IsAuthentic, AllAuthentic, HoldsAuthentic, new-IsAuthentic, append-AllAuthentic,
  insert-HoldsAuthentic, branch_node-IsAuthentic, climb-AllAuthentic, bottom-IsAuthentic,
}

module _ (env : Env) where
  pub insert_nodes-HoldsAuthentic :
      (ns : List Node) (m : Map Sh256 Node)
      → AllAuthentic env ns
      → HoldsAuthentic env m
      → HoldsAuthentic env (insert_nodes env ns m)
  unfolding insert_nodes
  insert_nodes-HoldsAuthentic [] m real known = known
  insert_nodes-HoldsAuthentic (n ∷ ns) m real known =
      insert_nodes-HoldsAuthentic ns (BtreeMap.insert n.hash n m) real.1
        (insert-HoldsAuthentic env n m real.0 known)

  build_nodes-AllAuthentic :
      (p : TraceProof) (o : Option LeafOpening) {ns : List Node}
      → build_nodes env {E = Error} p o ≡ ok ns
      → AllAuthentic env ns
  unfolding build_nodes
  build_nodes-AllAuthentic p o h =
      let (path, located, h1) = >>=-inv (get_leaf_path {E = Error} p.leaf_index) _ h in
      let (root, made, above) = >>=-inv (bottom env {E = Error} path o) _ h1 in
      climb-AllAuthentic env path p.siblings root (bottom-IsAuthentic env path o made) above

  three-AllAuthentic :
      (p q r : TraceProof) (a b c : Option LeafOpening) {ns : List Node}
      → (build_nodes env {E = Error} p a >>= λ x.
          build_nodes env q b >>= λ y. build_nodes env r c >>= λ z. ok (x ++ (y ++ z)))
        ≡ ok ns
      → AllAuthentic env ns
  three-AllAuthentic p q r a b c h =
      let (x, hx, h1) = >>=-inv (build_nodes env {E = Error} p a) _ h in
      let (y, hy, h2) = >>=-inv (build_nodes env {E = Error} q b) _ h1 in
      let (z, hz, e) = >>=-inv (build_nodes env {E = Error} r c) _ h2 in
      subst (AllAuthentic env) (ok_inj {E = Error} e) (
        append-AllAuthentic env x (y ++ z) (build_nodes-AllAuthentic p a hx) (
          append-AllAuthentic env y z (build_nodes-AllAuthentic q b hy)
            (build_nodes-AllAuthentic r c hz)))

  nodes-AllAuthentic :
      (t : Trace) {ns : List Node} → nodes env {E = Error} t ≡ ok ns → AllAuthentic env ns
  unfolding nodes
  nodes-AllAuthentic (update n) h = build_nodes-AllAuthentic n.proof (some n.prior_updated_leaf) h
  nodes-AllAuthentic (insertion n) h =
      three-AllAuthentic n.left_proof n.new_proof n.right_proof (some n.prior_left_leaf) none
        (some n.prior_right_leaf) h
  nodes-AllAuthentic (deletion n) h =
      three-AllAuthentic n.left_proof n.delete_proof n.right_proof (some n.prior_left_leaf)
        (some n.prior_delete_leaf) (some n.prior_right_leaf) h
  nodes-AllAuthentic (read n) h = subst (AllAuthentic env) (ok_inj {E = Error} h) tt
  nodes-AllAuthentic (read_zero n) h = subst (AllAuthentic env) (ok_inj {E = Error} h) tt

  free_node-IsAuthentic :
      (i : ℕ) {n : Node} → Nodes.next_free_node env {E = Error} i ≡ ok n → IsAuthentic env n
  unfolding Nodes.next_free_node
  free_node-IsAuthentic i h = new-IsAuthentic env (new_next_free (replicate 24 0 ++ to_be 8 i)) h

  trace_nodes-HoldsAuthentic :
      (ts : List Trace) (m : Map Sh256 Node) {m' : Map Sh256 Node}
      → HoldsAuthentic env m
      → trace_nodes env ts m ≡ ok m'
      → HoldsAuthentic env m'
  unfolding trace_nodes
  trace_nodes-HoldsAuthentic [] m known h = subst (HoldsAuthentic env) (ok_inj {E = Error} h) known
  trace_nodes-HoldsAuthentic (t ∷ ts) m known h =
      let (old, dated, h1) = >>=-inv (old_state {E = Error} t) _ h in
      let (free_node, freed, h2) = >>=-inv (Nodes.next_free_node env {E = Error} old.0) _ h1 in
      let (root, rooted, h3) = >>=-inv (branch_node env {E = Error} free_node.hash old.1) _ h2 in
      let (ns, made, h4) = >>=-inv (nodes env {E = Error} t) _ h3 in
      trace_nodes-HoldsAuthentic ts
        (insert_nodes env ns (insert_nodes env (root ∷ free_node ∷ []) m))
        (insert_nodes-HoldsAuthentic ns (insert_nodes env (root ∷ free_node ∷ []) m)
          (nodes-AllAuthentic t made)
          (insert_nodes-HoldsAuthentic (root ∷ free_node ∷ []) m
            (
              branch_node-IsAuthentic env free_node.hash old.1 rooted,
              (free_node-IsAuthentic old.0 freed, tt),
            )
            known))
        h4

  pub from_traces-HoldsAuthentic :
      (ts : List Trace) {s : MemStore} → from_traces env ts ≡ ok s → HoldsAuthentic env s.nodes
  unfolding from_traces
  from_traces-HoldsAuthentic ts {s} h =
      let (ns, made, h1) = >>=-inv (trace_nodes env ts []) _ h in
      let (index, levels, e) = >>=-inv (levels_from_traces env ts) _ h1 in
      subst (λ x. HoldsAuthentic env x.nodes) (ok_inj {E = Error} e)
        (trace_nodes-HoldsAuthentic ts [] (unfold BtreeMap.get in λ k n found. absurd (cc)) made)

  sibling_node-IsAuthentic :
      (idx sib marker : ℕ) (bytes : Bytes) {n : Node}
      → sibling_node env idx sib marker bytes ≡ ok n
      → IsAuthentic env n
  unfolding sibling_node
  sibling_node-IsAuthentic idx sib marker bytes h = elim (Bool-cases (idx == sib)) [
    | inl same ↦ new-IsAuthentic env (parse_leaf (marker ∷ []) bytes) (rw same at h)
    | inr other ↦
        let (raw, parsed, made) =
          >>=-inv (parse_branch env bytes) (λ raw. new env raw) (rw other at h) in
        new-IsAuthentic env raw made
  ]

  raw_branch_auto-IsAuthentic :
      (bit : ℕ) (leaf' sibling : Sh256) {n : Node}
      → raw_branch_auto env {E = Error} bit leaf' sibling ≡ ok n
      → IsAuthentic env n
  unfolding raw_branch_auto
  raw_branch_auto-IsAuthentic bit leaf' sibling h = elim (Bool-cases (bit == 0)) [
    | inl left ↦ branch_node-IsAuthentic env leaf' sibling (rw left at h)
    | inr right ↦ branch_node-IsAuthentic env sibling leaf' (rw right at h)
  ]

  pub fold_proof-AllAuthentic :
      (i sib marker : ℕ) (path : Bytes) (siblings : List Bytes) (leaf_hash : Sh256)
      {r : Sh256 × List Node}
      → fold_proof env i sib marker path siblings leaf_hash ≡ ok r
      → AllAuthentic env r.1
  unfolding fold_proof
  fold_proof-AllAuthentic zero sib marker path siblings leaf_hash h =
      subst (λ r. AllAuthentic env r.1) (ok_inj {E = Error} h) tt
  fold_proof-AllAuthentic (suc i) sib marker path siblings leaf_hash h =
      let (bytes, at, h1) = >>=-inv (expect {E = Error} (get_elem? siblings (suc i))) _ h in
      let (sibling, found, h2) = >>=-inv (sibling_node env (suc i) sib marker bytes) _ h1 in
      let (bit, turn, h3) = >>=-inv (expect {E = Error} (get_elem? path (suc i))) _ h2 in
      let (up, made, h4) =
        >>=-inv (raw_branch_auto env {E = Error} bit leaf_hash sibling.hash) _ h3 in
      let (rest, above, e) = >>=-inv (fold_proof env i sib marker path siblings up.hash) _ h4 in
      subst (λ r. AllAuthentic env r.1) (ok_inj {E = Error} e)
        (
          sibling_node-IsAuthentic (suc i) sib marker bytes found,
          (
            raw_branch_auto-IsAuthentic bit leaf_hash sibling.hash made,
            fold_proof-AllAuthentic i sib marker path siblings up.hash above,
          ),
        )

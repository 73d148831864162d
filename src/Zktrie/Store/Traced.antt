-- ===== src/Zktrie/Store/Traced.antt =====
-- The nodes of the traces in the `MemStore` that `from_traces` makes of them
-- (src/common/zktrie/src/storage.rs).
use mathlib.Core.Path.{subst}
use linea_sgx_prover.Prelude.{
  ℕ, zero, suc, ◌≡◌, sym, ap, ◌∙◌, inl, inr, Option, none, some, List, [], ◌∷◌, ◌++◌, get_elem?,
}
use linea_sgx_prover.Prelude.Results.{ok, ◌>>=◌, >>=-inv, ok_inj}
use linea_sgx_prover.BtreeMap
use linea_sgx_prover.BtreeMap.{Map, bytes_ord, get-insert_self, get-insert_ne}
use linea_sgx_prover.BtreeMap.Groups.{same-cases}
use linea_sgx_prover.EthTypes.{Sh256}
use linea_sgx_prover.Zktrie.Types.{Env, Node, Error}
use linea_sgx_prover.Zktrie.Node as Nodes
use linea_sgx_prover.Zktrie.Node.{branch_node, init_world_state}
use linea_sgx_prover.Zktrie.Opening.{LeafOpening}
use linea_sgx_prover.Zktrie.Trace.{
  Trace, UpdateTrace, InsertionTrace, DeletionTrace, update, insertion, deletion, TraceProof,
  old_state, build_nodes, nodes,
}
use linea_sgx_prover.Zktrie.Store.{
  MemStore, insert_nodes, trace_nodes, levels_from_traces, from_traces,
}

-- The proofs of a trace, each with the opening at its leaf.
pub data Proves : Trace → TraceProof → Option LeafOpening → Type 0 where
  updated : (n : UpdateTrace) → Proves (update n) n.proof (some n.prior_updated_leaf)
  left_inserted : (n : InsertionTrace) → Proves (insertion n) n.left_proof (some n.prior_left_leaf)
  new_inserted : (n : InsertionTrace) → Proves (insertion n) n.new_proof none
  right_inserted :
      (n : InsertionTrace) → Proves (insertion n) n.right_proof (some n.prior_right_leaf)
  left_deleted : (n : DeletionTrace) → Proves (deletion n) n.left_proof (some n.prior_left_leaf)
  deleted : (n : DeletionTrace) → Proves (deletion n) n.delete_proof (some n.prior_delete_leaf)
  right_deleted : (n : DeletionTrace) → Proves (deletion n) n.right_proof (some n.prior_right_leaf)

abbrev pub Has : Sh256 → Map Sh256 Node → Type 0
Has h m = (n : Node) × (BtreeMap.get h m ≡ some n)

abbrev pub AllHas : Map Sh256 Node → List Node → Type 0
AllHas m [] = Unit
AllHas m (n ∷ ns) = Has n.hash m × AllHas m ns

pub insert-Has :
    (h k : Sh256) (n : Node) (m : Map Sh256 Node) → Has h m → Has h (BtreeMap.insert k n m)
insert-Has h k n m (x, found) = elim (same-cases h k) [
  | inl (at, yes') ↦
      (n, ap (λ i. BtreeMap.get i (BtreeMap.insert k n m)) at ∙ get-insert_self k n m)
  | inr (ne, no') ↦ (x, get-insert_ne k h n m ne ∙ found)
]

pub AllHas-more :
    (m m' : Map Sh256 Node) (ns : List Node)
    → ((h : Sh256) → Has h m → Has h m')
    → AllHas m ns
    → AllHas m' ns
AllHas-more m m' [] more has = tt
AllHas-more m m' (n ∷ ns) more has = (more n.hash has.0, AllHas-more m m' ns more has.1)

AllHas-parts :
    (m : Map Sh256 Node) (ns ms : List Node) → AllHas m (ns ++ ms) → AllHas m ns × AllHas m ms
AllHas-parts m [] ms has = (tt, has)
AllHas-parts m (n ∷ ns) ms has =
    let (front, back) = AllHas-parts m ns ms has.1 in ((has.0, front), back)

module _ (env : Env) where
  insert_nodes-Has :
      (ns : List Node) (m : Map Sh256 Node) (h : Sh256) → Has h m → Has h (insert_nodes env ns m)
  unfolding insert_nodes
  insert_nodes-Has [] m h has = has
  insert_nodes-Has (n ∷ ns) m h has =
      insert_nodes-Has ns (BtreeMap.insert n.hash n m) h (insert-Has h n.hash n m has)

  insert_nodes-AllHas : (ns : List Node) (m : Map Sh256 Node) → AllHas (insert_nodes env ns m) ns
  unfolding insert_nodes
  insert_nodes-AllHas [] m = tt
  insert_nodes-AllHas (n ∷ ns) m =
      let first = BtreeMap.insert n.hash n m in
      (
        insert_nodes-Has ns first n.hash (n, get-insert_self n.hash n m),
        insert_nodes-AllHas ns first,
      )

  -- The nodes of one trace, whatever is inserted before and afterwards.
  trace_nodes-Has :
      (ts : List Trace) (m : Map Sh256 Node) {m' : Map Sh256 Node} (h : Sh256)
      → trace_nodes env ts m ≡ ok m'
      → Has h m
      → Has h m'
  unfolding trace_nodes
  trace_nodes-Has [] m h e has = subst (Has h) (ok_inj {E = Error} e) has
  trace_nodes-Has (t ∷ ts) m h e has =
      let (old, dated, h1) = >>=-inv (old_state {E = Error} t) _ e in
      let (free_node, freed, h2) = >>=-inv (Nodes.next_free_node env {E = Error} old.0) _ h1 in
      let (root, rooted, h3) = >>=-inv (branch_node env {E = Error} free_node.hash old.1) _ h2 in
      let (ns, made, h4) = >>=-inv (nodes env {E = Error} t) _ h3 in
      let m1 = insert_nodes env (root ∷ free_node ∷ []) m in
      trace_nodes-Has ts (insert_nodes env ns m1) h h4
        (insert_nodes-Has ns m1 h (insert_nodes-Has (root ∷ free_node ∷ []) m h has))

  trace_nodes-AllHas :
      (ts : List Trace) (i : ℕ) (t : Trace) (m : Map Sh256 Node) {m' : Map Sh256 Node}
      → get_elem? ts i ≡ some t
      → trace_nodes env ts m ≡ ok m'
      → (ns : List Node) × (nodes env {E = Error} t ≡ ok ns) × AllHas m' ns
  unfolding trace_nodes
  trace_nodes-AllHas [] i t m at e = absurd (cc)
  trace_nodes-AllHas (x ∷ ts) zero t m at e =
      let (old, dated, h1) = >>=-inv (old_state {E = Error} x) _ e in
      let (free_node, freed, h2) = >>=-inv (Nodes.next_free_node env {E = Error} old.0) _ h1 in
      let (root, rooted, h3) = >>=-inv (branch_node env {E = Error} free_node.hash old.1) _ h2 in
      let (ns, made, h4) = >>=-inv (nodes env {E = Error} x) _ h3 in
      let m1 = insert_nodes env (root ∷ free_node ∷ []) m in
      let same : x ≡ t = cc in
      (
        ns,
        subst (λ y. nodes env {E = Error} y ≡ ok ns) same made,
        AllHas-more (insert_nodes env ns m1) _ ns
            (λ h. trace_nodes-Has ts (insert_nodes env ns m1) h h4) (insert_nodes-AllHas ns m1),
      )
  trace_nodes-AllHas (x ∷ ts) (suc i) t m at e =
      let (old, dated, h1) = >>=-inv (old_state {E = Error} x) _ e in
      let (free_node, freed, h2) = >>=-inv (Nodes.next_free_node env {E = Error} old.0) _ h1 in
      let (root, rooted, h3) = >>=-inv (branch_node env {E = Error} free_node.hash old.1) _ h2 in
      let (ns, made, h4) = >>=-inv (nodes env {E = Error} x) _ h3 in
      trace_nodes-AllHas ts i t (insert_nodes env ns (insert_nodes env (root ∷ free_node ∷ []) m))
        at h4

  from_traces-AllHas :
      (ts : List Trace) (i : ℕ) (t : Trace) {s : MemStore}
      → get_elem? ts i ≡ some t
      → from_traces env ts ≡ ok s
      → (ns : List Node) × (nodes env {E = Error} t ≡ ok ns) × AllHas s.nodes ns
  unfolding from_traces
  from_traces-AllHas ts i t at h =
      let (m, made, h1) = >>=-inv (trace_nodes env ts []) _ h in
      let (index, levels, e) = >>=-inv (levels_from_traces env ts) _ h1 in
      let (ns, built, has) = trace_nodes-AllHas ts i t [] at made in
      (ns, built, subst (λ s. AllHas s.nodes ns) (ok_inj {E = Error} e) has)

  three-parts :
      (p q r : TraceProof) (a b c : Option LeafOpening) (m : Map Sh256 Node) {ns : List Node}
      → (build_nodes env {E = Error} p a >>= λ x.
          build_nodes env q b >>= λ y. build_nodes env r c >>= λ z. ok (x ++ (y ++ z)))
        ≡ ok ns
      → AllHas m ns
      → ((x : List Node) × (build_nodes env {E = Error} p a ≡ ok x) × AllHas m x)
        × ((y : List Node) × (build_nodes env {E = Error} q b ≡ ok y) × AllHas m y)
        × ((z : List Node) × (build_nodes env {E = Error} r c ≡ ok z) × AllHas m z)
  three-parts p q r a b c m h has =
      let (x, hx, h1) = >>=-inv (build_nodes env {E = Error} p a) _ h in
      let (y, hy, h2) = >>=-inv (build_nodes env {E = Error} q b) _ h1 in
      let (z, hz, e) = >>=-inv (build_nodes env {E = Error} r c) _ h2 in
      let (in_x, rest) =
        AllHas-parts m x (y ++ z) (subst (AllHas m) (sym (ok_inj {E = Error} e)) has) in
      let (in_y, in_z) = AllHas-parts m y z rest in ((x, hx, in_x), (y, hy, in_y), (z, hz, in_z))

  -- The nodes of each proof.
  proof-AllHas :
      {t : Trace} {p : TraceProof} {o : Option LeafOpening} (m : Map Sh256 Node) {ns : List Node}
      → Proves t p o
      → nodes env {E = Error} t ≡ ok ns
      → AllHas m ns
      → (ms : List Node) × (build_nodes env {E = Error} p o ≡ ok ms) × AllHas m ms
  unfolding nodes
  proof-AllHas m {ns} (updated n) h has = (ns, h, has)
  proof-AllHas m (left_inserted n) h has =
      (three-parts n.left_proof n.new_proof n.right_proof (some n.prior_left_leaf) none
        (some n.prior_right_leaf) m h has).0
  proof-AllHas m (new_inserted n) h has =
      (three-parts n.left_proof n.new_proof n.right_proof (some n.prior_left_leaf) none
        (some n.prior_right_leaf) m h has).1
  proof-AllHas m (right_inserted n) h has =
      (three-parts n.left_proof n.new_proof n.right_proof (some n.prior_left_leaf) none
        (some n.prior_right_leaf) m h has).2
  proof-AllHas m (left_deleted n) h has =
      (three-parts n.left_proof n.delete_proof n.right_proof (some n.prior_left_leaf)
        (some n.prior_delete_leaf) (some n.prior_right_leaf) m h has).0
  proof-AllHas m (deleted n) h has =
      (three-parts n.left_proof n.delete_proof n.right_proof (some n.prior_left_leaf)
        (some n.prior_delete_leaf) (some n.prior_right_leaf) m h has).1
  proof-AllHas m (right_deleted n) h has =
      (three-parts n.left_proof n.delete_proof n.right_proof (some n.prior_left_leaf)
        (some n.prior_delete_leaf) (some n.prior_right_leaf) m h has).2

  -- The nodes of every proof of every trace have an entry in the store.
  pub from_traces-proof :
      (ts : List Trace) (i : ℕ) {t : Trace} {p : TraceProof} {o : Option LeafOpening} {s : MemStore}
      → get_elem? ts i ≡ some t
      → Proves t p o
      → from_traces env ts ≡ ok s
      → (ns : List Node) × (build_nodes env {E = Error} p o ≡ ok ns) × AllHas s.nodes ns
  from_traces-proof ts i {t} {p} {o} {s} at proves h =
      let (ns, built, has) = from_traces-AllHas ts i t at h in proof-AllHas s.nodes proves built has

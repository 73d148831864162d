-- ===== src/Zktrie/Store/Inclusion.antt =====
-- The proof check of `MemStore::add_proof` (src/common/zktrie/src/storage.rs).
use mathlib.Core.Path.{subst, subst₂}
use linea_sgx_prover.Prelude.{
  ℕ, zero, suc, some, List, [], ◌∷◌, ◌≡◌, ◌≢◌, ◌⊎◌, inl, inr, refl, ap, sym, ◌∙◌, arith, Bool-cases,
  ◌==◌, if◌then◌else◌, get_elem?,
}
use linea_sgx_prover.Prelude.Results.{Result, expect-inv, ok, ◌>>=◌, >>=-inv, expect}
use linea_sgx_prover.Bytes.{Bytes}
use linea_sgx_prover.EthTypes.{Sh256}
use linea_sgx_prover.Zktrie.Types.{Env, branch, Node, Error}
use linea_sgx_prover.Zktrie.Node.{raw_branch_auto, branch_node}
use linea_sgx_prover.Zktrie.Sparse.Tree.Reads.{new-raw}
use linea_sgx_prover.Zktrie.Sparse.Refine.Fresh.{hash-cases}
use linea_sgx_prover.Zktrie.Store.{fold_proof, sibling_node}

abbrev pub Member : Node → List Node → Type 0
Member n [] = ⊥
Member n (m ∷ ms) = (n ≡ m) ⊎ Member n ms

-- Two nodes, one of each run, with one hash and different contents.
pub record Clash (ms ns : List Node) : Type 0 where
  pub one : Node
  pub other : Node
  pub in_one : Member one ms
  pub in_other : Member other ns
  pub same_hash : one.hash ≡ other.hash
  pub differ : one.raw ≢ other.raw

Clash-below : {ms ns : List Node} (a b c d : Node) → Clash ms ns → Clash (a ∷ b ∷ ms) (c ∷ d ∷ ns)
Clash-below a b c d x = record {
  one = x.one;
  other = x.other;
  in_one = inr (inr x.in_one);
  in_other = inr (inr x.in_other);
  same_hash = x.same_hash;
  differ = x.differ;
}

-- The child on the side of the bit.
same_child :
    (bit : ℕ) (h h' s s' : Sh256)
    → branch (if bit == 0 then record { left = h; right = s } else record { left = s; right = h })
      ≡ branch
          (if bit == 0 then record { left = h'; right = s' } else record { left = s'; right = h' })
    → h ≡ h'
same_child bit h h' s s' e = ground arith

module _ (env : Env) where
  -- One round of the loop.
  pub record Round (i last marker : ℕ) (path : Bytes) (siblings : List Bytes) (h top : Sh256)
      (out : List Node) : Type 0 where
    pub bit : ℕ
    pub sibling : Node
    pub up : Node
    pub rest : List Node
    pub bit_at : get_elem? path (suc i) ≡ some bit
    pub above : raw_branch_auto env {E = Error} bit h sibling.hash ≡ ok up
    pub onward : fold_proof env i last marker path siblings up.hash ≡ ok (top, rest)
    pub pushed : out ≡ sibling ∷ up ∷ rest

  ends :
      (a b : Sh256 × List Node)
      → ◌≡◌ {A = Result Error (Sh256 × List Node)} (ok a) (ok b)
      → (a.0 ≡ b.0) × (a.1 ≡ b.1)
  ends (t, l) (u, m) e = (cc, cc)

  fold_proof-Round :
      (i last marker : ℕ) (path : Bytes) (siblings : List Bytes) (h : Sh256) {top : Sh256}
      {out : List Node}
      → fold_proof env (suc i) last marker path siblings h ≡ ok (top, out)
      → Round i last marker path siblings h top out
  unfolding fold_proof
  fold_proof-Round i last marker path siblings h {top} {out} e =
      let Run : Type 0 = Result Error (Sh256 × List Node) in
      let push : Node → Node → Sh256 × List Node → Run =
        λ sibling up r. ok (r.0, sibling ∷ up ∷ r.1) in
      let on : Node → Node → Run =
        λ sibling up. fold_proof env i last marker path siblings up.hash >>= push sibling up in
      let join : Node → ℕ → Run =
        λ sibling bit. raw_branch_auto env bit h sibling.hash >>= on sibling in
      let pick : Node → Run = λ sibling. expect (get_elem? path (suc i)) >>= join sibling in
      let make : Bytes → Run = λ bytes. sibling_node env (suc i) last marker bytes >>= pick in
      let (bytes, _, e1) = >>=-inv (expect (get_elem? siblings (suc i))) make e in
      let (sibling, _, e2) = >>=-inv (sibling_node env (suc i) last marker bytes) pick e1 in
      let (bit, at, e3) = >>=-inv (expect (get_elem? path (suc i))) (join sibling) e2 in
      let (up, above, e4) = >>=-inv (raw_branch_auto env bit h sibling.hash) (on sibling) e3 in
      let (r, onward, e5) =
        >>=-inv (fold_proof env i last marker path siblings up.hash) (push sibling up) e4 in
      record {
        bit = bit;
        sibling = sibling;
        up = up;
        rest = r.1;
        bit_at = expect-inv (get_elem? path (suc i)) at;
        above = above;
        onward = onward ∙ ap (λ t. ok (t, r.1)) (ends (r.0, sibling ∷ up ∷ r.1) (top, out) e5).0;
        pushed = sym (ends (r.0, sibling ∷ up ∷ r.1) (top, out) e5).1;
      }

  raw_branch_auto-raw :
      (bit : ℕ) (h sibling : Sh256) {n : Node}
      → raw_branch_auto env {E = Error} bit h sibling ≡ ok n
      → n.raw
        ≡ branch (
            if bit == 0
            then record { left = h; right = sibling }
            else record { left = sibling; right = h })
  unfolding raw_branch_auto branch_node
  raw_branch_auto-raw bit h sibling {n} e = elim (Bool-cases (bit == 0)) [
    | inl left ↦
        rw left (new-raw env (branch (record { left = h; right = sibling })) (rw left at e))
    | inr right ↦
        rw right (new-raw env (branch (record { left = sibling; right = h })) (rw right at e))
  ]

  -- Two runs of the loop along one path that reach one hash start at one hash, or a node
  -- of the one and a node of the other have one hash and different contents.
  pub fold_proof_binding :
      (i last marker last' marker' : ℕ) (path : Bytes) (siblings siblings' : List Bytes)
      (h h' : Sh256) {top : Sh256} {out out' : List Node}
      → fold_proof env i last marker path siblings h ≡ ok (top, out)
      → fold_proof env i last' marker' path siblings' h' ≡ ok (top, out')
      → (h ≡ h') ⊎ Clash out out'
  fold_proof_binding zero last marker last' marker' path siblings siblings' h h' e e' =
      inl (unfold fold_proof in cc)
  fold_proof_binding (suc i) last marker last' marker' path siblings siblings' h h' e e' =
      let a = fold_proof-Round i last marker path siblings h e in
      let b = fold_proof-Round i last' marker' path siblings' h' e' in
      let one_bit : b.bit ≡ a.bit = let p = sym b.bit_at ∙ a.bit_at in cc in
      elim (fold_proof_binding i last marker last' marker' path siblings siblings' a.up.hash
        b.up.hash a.onward b.onward) [
          | inr deeper ↦ inr (
              subst₂ Clash (sym a.pushed) (sym b.pushed)
                (Clash-below a.sibling a.up b.sibling b.up deeper))
          | inl same ↦ elim (hash-cases h h') [
            | inl equal ↦ inl equal
            | inr other ↦ inr (
                subst₂ Clash (sym a.pushed) (sym b.pushed) (record {
                  one = a.up;
                  other = b.up;
                  in_one = inr (inl refl);
                  in_other = inr (inl refl);
                  same_hash = same;
                  differ = λ raws. other (
                      same_child a.bit h h' a.sibling.hash b.sibling.hash (
                        sym (raw_branch_auto-raw a.bit h a.sibling.hash a.above)
                        ∙ raws
                        ∙ raw_branch_auto-raw a.bit h' b.sibling.hash (
                            subst
                              (λ t. raw_branch_auto env {E = Error} t h' b.sibling.hash ≡ ok b.up)
                              one_bit b.above)));
                }))
          ]
        ]

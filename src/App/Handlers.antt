-- ===== src/App/Handlers.antt =====
-- The results that the handlers of `generate_poe` in src/apps/prover/src/apps.rs leave.
use linea_sgx_prover.Prelude.{
  ℕ, suc, ◌+◌, ◌≤◌, ◌≡◌, ◌≢◌, refl, sym, ap, ◌∙◌, ◌⊎◌, inl, inr, some, List, [], ◌∷◌, Bool, true,
  ◌||◌, ◌==◌, arith, Bool-cases, length, Ordering, compare,
}
use linea_sgx_prover.Prelude.Results.{ok, err, panic}
use linea_sgx_prover.BtreeMap.{Map, nat_ord, get, insert, get-insert_self, get-insert_ne}
use linea_sgx_prover.BtreeMap.Groups.{any}
use linea_sgx_prover.App.{Poes, Outcome, keep, run_handlers}
use linea_sgx_prover.App.Laws.{Executed, none_left, one_more}

length-insert : {V : Type 0} (k : ℕ) (v : V) (m : Map ℕ V) → length (insert k v m) ≤ suc (length m)
unfolding insert
length-insert k v [] = omega arith
length-insert k v ((j, w) ∷ m) = ground (arith, length-insert k v m)

abbrev pub member : ℕ → List ℕ → Bool
member n = any (λ b. n == b)

module _ (p : Poes) (handle : ℕ → Outcome p) where
  length-keep :
      (blk : ℕ) (r : Outcome p) (m : Map ℕ (Outcome p))
      → (length (keep p blk r m) ≤ suc (length m))
        × (r ≡ panic → length (keep p blk r m) ≡ length m)
  unfolding keep
  length-keep blk (ok r) m = (length-insert blk (ok r) m, λ e. absurd (cc))
  length-keep blk (err e) m = (length-insert blk (err e) m, λ e. absurd (cc))
  length-keep blk panic m = (omega arith, λ e. refl)

  length-run_handlers :
      (order : List ℕ) (m : Map ℕ (Outcome p))
      → length (run_handlers p handle order m) ≤ length m + length order
  unfolding run_handlers
  length-run_handlers [] m = omega arith
  length-run_handlers (blk ∷ blks) m =
      let (one, _) = length-keep blk (handle blk) m in
      omega (arith, length-run_handlers blks (keep p blk (handle blk) m))

  -- As many results as blocks: no handler has panicked.
  pub run_handlers-no_panic :
      (order : List ℕ) (m : Map ℕ (Outcome p)) (n : ℕ)
      → length m + length order ≤ length (run_handlers p handle order m)
      → member n order ≡ true
      → handle n ≢ panic
  unfolding run_handlers
  run_handlers-no_panic [] m n full h crashed = absurd (cc)
  run_handlers-no_panic (blk ∷ blks) m n full h crashed =
      let rest = length-run_handlers blks (keep p blk (handle blk) m) in
      let (one, none_kept) = length-keep blk (handle blk) m in
      elim (Bool-cases (n == blk)) [
        | inl here ↦
            let at : n ≡ blk = ground arith in
            let same_length = none_kept (ap handle (sym at) ∙ crashed) in absurd (omega arith)
        | inr there ↦
            run_handlers-no_panic blks (keep p blk (handle blk) m) n (omega arith)
              (let e : (n == blk || member n blks) ≡ true = h in ground arith) crashed
      ]

  get-keep :
      (blk : ℕ) (r : Outcome p) (m : Map ℕ (Outcome p))
      → r ≢ panic
      → get blk (keep p blk r m) ≡ some r
  unfolding keep
  get-keep blk (ok r) m h = get-insert_self blk (ok r) m
  get-keep blk (err e) m h = get-insert_self blk (err e) m
  get-keep blk panic m h = absurd (h refl)

  get-keep_ne :
      (blk n : ℕ) (r : Outcome p) (m : Map ℕ (Outcome p))
      → n ≢ blk
      → get n (keep p blk r m) ≡ get n m
  unfolding keep
  get-keep_ne blk n (ok r) m ne = get-insert_ne blk n (ok r) m ne
  get-keep_ne blk n (err e) m ne = get-insert_ne blk n (err e) m ne
  get-keep_ne blk n panic m ne = refl

  -- The result of a handler that has not panicked stays.
  pub get-run_handlers :
      (order : List ℕ) (m : Map ℕ (Outcome p)) (n : ℕ)
      → handle n ≢ panic
      → (member n order ≡ true) ⊎ (get n m ≡ some (handle n))
      → get n (run_handlers p handle order m) ≡ some (handle n)
  unfolding run_handlers
  get-run_handlers [] m n safe (inl h) = absurd (cc)
  get-run_handlers [] m n safe (inr h) = h
  get-run_handlers (blk ∷ blks) m n safe h = elim (Bool-cases (n == blk)) [
    | inl here ↦
        let at : n ≡ blk = ground arith in
        get-run_handlers blks (keep p blk (handle blk) m) n safe (
          inr (
            ap (λ i. get i (keep p blk (handle blk) m)) at
            ∙ get-keep blk (handle blk) m (λ e. safe (ap handle at ∙ e))
            ∙ ap (λ i. some (handle i)) (sym at)))
    | inr there ↦ get-run_handlers blks (keep p blk (handle blk) m) n safe (elim h [
      | inl listed ↦ inl (let e : (n == blk || member n blks) ≡ true = listed in ground arith)
      | inr known ↦ inr (get-keep_ne blk n (handle blk) m (λ at. absurd (ground arith)) ∙ known)
    ])
  ]

  -- Every result among those of executed blocks is of an executed block.
  pub Executed-get :
      {m : Map ℕ (Outcome p)} {poes : List p.Poe} (n : ℕ) {r : Outcome p}
      → Executed p m poes
      → get n m ≡ some r
      → (block : p.Block) × ((poe : p.Poe) × (r ≡ ok (block, poe))
          × (p.new_state_root poe ≡ p.state_root block))
  unfolding get
  Executed-get n none_left h = absurd (cc)
  Executed-get n {r} (one_more {blk} {block} {poe} {m} same more) h =
      elim (compare n blk)
          as (λ o.
            elim o [ Ordering.eq ↦ some (ok (block, poe)) | _ ↦ get n m ] ≡ some r
            → (block : p.Block) × ((poe : p.Poe) × (r ≡ ok (block, poe))
                × (p.new_state_root poe ≡ p.state_root block))) [
                  | Ordering.lt ↦ λ found. Executed-get n more found
                  | Ordering.eq ↦ λ found.
                      (block, (poe, (let e : some (ok (block, poe)) ≡ some r = found in cc), same))
                  | Ordering.gt ↦ λ found. Executed-get n more found
                ]
        h

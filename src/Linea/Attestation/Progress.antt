-- ===== src/Linea/Attestation/Progress.antt =====
-- That `wait_attested` of src/common/linea/src/prover.rs ends, and why.
use linea_sgx_prover.Prelude.{
  ℕ, zero, suc, ◌+◌, ◌≤◌, ◌<◌, ◌≡◌, refl, ◌⊎◌, inl, inr, some, Bool, true, false, arith, Bool-cases,
}
use linea_sgx_prover.Linea.Attestation.{wait_loop, wait_attested}

split_le : (i k : ℕ) → i ≤ k → (i ≡ k) ⊎ (suc i ≤ k)
split_le i k h = ground arith

module _ (alive flag : ℕ → Bool) where
  -- How a wait from turn `i` on may end with the answer `b`.
  abbrev pub Reason : ℕ → Bool → Type 0
  Reason i b =
      (j : ℕ) × (i ≤ j)
      × ((k : ℕ) → i ≤ k → k < j → flag k ≡ false)
      × (alive j ≡ b)
      × (b ≡ true → flag j ≡ true)

  earlier :
      {i j : ℕ}
      → flag i ≡ false
      → ((k : ℕ) → suc i ≤ k → k < j → flag k ≡ false)
      → (k : ℕ) → i ≤ k
      → k < j
      → flag k ≡ false
  earlier {i} unset rest k low high = elim (split_le i k low) [
    | inl same ↦ rw (← same) unset
    | inr more ↦ rest k more high
  ]

  wait_loop-Reason :
      (n i j : ℕ)
      → i ≤ j
      → j < i + n
      → (alive j ≡ false) ⊎ (flag j ≡ true)
      → (b : Bool) × (wait_loop alive flag i n ≡ some b) × Reason i b
  unfolding wait_loop
  wait_loop-Reason zero i j low high end = absurd (omega arith)
  wait_loop-Reason (suc n) i j low high end = elim (Bool-cases (alive i)) [
    | inr off ↦
        (false, rw off refl, (i, omega arith, λ k x y. absurd (omega arith), off, λ e. absurd (cc)))
    | inl on ↦ elim (Bool-cases (flag i)) [
      | inl set ↦
          (true, rw (on, set) refl, (i, omega arith, λ k x y. absurd (omega arith), on, λ e. set))
      | inr unset ↦
          let later : i < j = elim (split_le i j low) [
            | inr more ↦ more
            | inl same ↦ absurd (elim end [ inl off ↦ cc | inr set ↦ cc ])
          ] in
          let (b, ends, (k, past, none_set, last, why)) =
            wait_loop-Reason n (suc i) j (omega arith) (omega arith) end in
          (b, rw (on, unset) ends, (k, omega arith, earlier unset none_set, last, why))
    ]
  ]

  -- If the monitor shuts down or the flag is set at some turn, `wait_attested` ends, given fuel for
  -- this turn. With the answer true, the flag was set before or at the turn at which it ends, and
  -- with the answer false, `alive` failed at that turn, before which the flag was not set at all.
  pub wait_attested_ends :
      (first : Bool) (n j : ℕ)
      → j < n
      → (alive j ≡ false) ⊎ (flag j ≡ true)
      → (b : Bool) × (wait_attested first alive flag n ≡ some b)
        × ((first ≡ b × b ≡ true) ⊎ ((first ≡ false) × Reason 0 b))
  unfolding wait_attested
  wait_attested_ends true n j fits end = (true, refl, inl (refl, refl))
  wait_attested_ends false n j fits end =
      let (b, ends, why) = wait_loop-Reason n 0 j (omega arith) (omega arith) end in
      (b, ends, inr (refl, why))

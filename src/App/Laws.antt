-- ===== src/App/Laws.antt =====
-- What a proof of execution of src/apps/prover/src/apps.rs vouches for.
use Prim.Native.String.{String}
use mathlib.Core.Path.{subst}
use linea_sgx_prover.Prelude.{
  ℕ, ◌≡◌, refl, inl, inr, List, [], ◌∷◌, Bool-cases, arith, ◌==◌, length,
}
use linea_sgx_prover.Prelude.Results.{Result, ok, err, panic, ◌>>=◌, >>=-inv}
use linea_sgx_prover.Bytes.{bytes_eq, eq_of_bytes_eq}
use linea_sgx_prover.BtreeMap.{Map}
use linea_sgx_prover.Linea.Blocks.{BatchTask}
use linea_sgx_prover.App.{
  Poes, PoeError, some_task_failed, state_root_mismatch, Outcome, run_handlers, collect_poes,
  batch_error, generate_poe,
}

module _ (p : Poes) where
  -- Every block of the results was executed, to the state root that its proof announces, and the
  -- list has the proofs in the order of the blocks.
  pub data Executed : Map ℕ (Outcome p) → List p.Poe → Type 0 where
    none_left : Executed [] []
    one_more :
        {blk : ℕ} {block : p.Block} {poe : p.Poe} {m : Map ℕ (Outcome p)} {poes : List p.Poe}
        → p.new_state_root poe ≡ p.state_root block
        → Executed m poes
        → Executed ((blk, ok (block, poe)) ∷ m) (poe ∷ poes)

  collect_poes-Executed :
      (m : Map ℕ (Outcome p)) {poes : List p.Poe} → collect_poes p m ≡ ok poes → Executed m poes
  unfolding collect_poes
  collect_poes-Executed [] h = subst (Executed []) (let e : [] ≡ _ = cc in e) none_left
  collect_poes-Executed ((blk, err e) ∷ m) h = absurd (cc)
  collect_poes-Executed ((blk, panic) ∷ m) h = absurd (cc)
  collect_poes-Executed ((blk, ok (block, poe)) ∷ m) {poes} h =
      elim (Bool-cases (bytes_eq (p.new_state_root poe) (p.state_root block))) [
        | inl same ↦
            let e : (collect_poes p m >>= λ rest. ok (poe ∷ rest)) ≡ ok poes = rw same at h in
            let (rest, collected, pushed) =
              >>=-inv (collect_poes p m) (λ rest. ok (poe ∷ rest)) e in
            let eq : poe ∷ rest ≡ poes =
              let e' : ◌≡◌ {A = Result PoeError (List p.Poe)} (ok (poe ∷ rest)) (ok poes) =
                pushed in
              cc in
            subst (Executed ((blk, ok (block, poe)) ∷ m)) eq (
              one_more (eq_of_bytes_eq (p.new_state_root poe) (p.state_root block) same)
                (collect_poes-Executed m collected))
        | inr other ↦
            let e : ◌≡◌ {A = Result PoeError (List p.Poe)} (err state_root_mismatch) (ok poes) =
              rw other at h in
            absurd (cc)
      ]

  batch_error-inv :
      (r : Result String p.Poe) {poe : p.Poe}
      → batch_error p r ≡ ok poe
      → (batch : p.Poe) × (r ≡ ok batch) × (poe ≡ p.sign batch)
  batch_error-inv (ok b) {poe} h =
      let e : ◌≡◌ {A = Result PoeError p.Poe} (ok (p.sign b)) (ok poe) = h in (b, refl, cc)
  batch_error-inv (err e) h = absurd (cc)
  batch_error-inv panic h = absurd (cc)

  pub generate_poe-Executed :
      (handle : ℕ → Outcome p) (order : List ℕ) (task : BatchTask) {poe : p.Poe}
      → generate_poe p handle order task ≡ ok poe
      → (poes : List p.Poe) × ((batch : p.Poe) × Executed (run_handlers p handle order []) poes
          × length (run_handlers p handle order []) ≡ length task.blocks
          × p.batch task.data_hash poes ≡ ok batch
          × poe ≡ p.sign batch)
  unfolding generate_poe
  generate_poe-Executed handle order task {poe} h =
      let results = run_handlers p handle order [] in
      elim (Bool-cases (length results == length task.blocks)) [
        | inl complete ↦
            let e : (collect_poes p results >>= λ poes. batch_error p (p.batch task.data_hash poes))
                ≡ ok poe =
              rw complete at h in
            let (poes, collected, rest) = >>=-inv (collect_poes p results) _ e in
            let (batch, batched, signed) = batch_error-inv (p.batch task.data_hash poes) rest in
            (poes, (batch, collect_poes-Executed results collected, ground arith, batched, signed))
        | inr short ↦
            let e : ◌≡◌ {A = Result PoeError p.Poe} (err some_task_failed) (ok poe) =
              rw short at h in
            absurd (cc)
      ]

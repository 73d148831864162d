-- ===== src/Linea/Attestation/Laws.antt =====
-- What `monitor_attested` and `wait_attested` of src/common/linea/src/prover.rs guarantee.
use mathlib.Core.Path.{subst}
use linea_sgx_prover.Prelude.{
  ℕ, ◌+◌, ◌/◌, ◌≤◌, ◌≡◌, sym, ◌∙◌, inl, inr, none, some, List, ◌∷◌, true, ltb, arith, Option-cases,
}
use linea_sgx_prover.Linea.Verifier.{Chain, Verifier}
use linea_sgx_prover.Linea.Attestation.{
  Clock, Prover, Monitor, World, new, start, update_prvkey, current_key, cool, store_attested,
  approve,
}
use linea_sgx_prover.Linea.Attestation.Steps.{
  Answers, informed, unanswered, overflowed, approved, waiting, submitted, Run, begin, next,
  monitored, history, monitored-Run,
}

module _ (c : Chain) (clock : Clock) (v : Verifier) (relay : c.PrivateKey) where
  -- In one of the rounds the contract said that the attestation of the key had not run out.
  pub data Seen : List (World c clock) → c.PrivateKey → Type 1 where
    seen_now :
        {w : World c clock} {h : List (World c clock)} {key : c.PrivateKey} {time secs : ℕ}
        → Answers c clock v relay w key time secs
        → w.now ≤ time + secs
        → Seen (w ∷ h) key
    seen_before :
        {w : World c clock} {h : List (World c clock)} {key : c.PrivateKey}
        → Seen h key
        → Seen (w ∷ h) key

  pub informed_fresh :
      (w : World c clock) (time secs : ℕ) (m : Monitor c clock)
      → m.staging_key ≡ none
      → (informed c clock v relay w time secs m).prover
        ≡ record { prvkey = m.prover.prvkey; attested = ltb w.now (time + secs) }
  unfolding store_attested cool
  informed_fresh w time secs m h = ground arith

  pub informed_staged :
      (w : World c clock) (time secs : ℕ) (m : Monitor c clock) {key : c.PrivateKey}
      → m.staging_key ≡ some key
      → (informed c clock v relay w time secs m).prover ≡ m.prover
  unfolding store_attested cool
  informed_staged w time secs m h = ground arith

  pub informed_staging :
      (w : World c clock) (time secs : ℕ) (m : Monitor c clock)
      → (informed c clock v relay w time secs m).staging_key ≡ m.staging_key
  unfolding store_attested cool
  informed_staging w time secs m = ground (arith, Option-cases m.staging_key)

  pub approve_fresh : (m : Monitor c clock) → m.staging_key ≡ none → approve c clock m ≡ m
  unfolding approve
  approve_fresh m h = ground arith

  pub approve_staged :
      (m : Monitor c clock) {key : c.PrivateKey}
      → m.staging_key ≡ some key
      → (approve c clock m).prover ≡ record { prvkey = key; attested = true }
  unfolding approve update_prvkey
  approve_staged m h = ground arith

  pub approve_staging : (m : Monitor c clock) → (approve c clock m).staging_key ≡ none
  unfolding approve
  approve_staging m = ground (arith, Option-cases m.staging_key)

  current_fresh :
      (m : Monitor c clock) → m.staging_key ≡ none → current_key c clock m ≡ m.prover.prvkey
  unfolding current_key
  current_fresh m h = ground arith

  pub current_staged :
      (m : Monitor c clock) {key : c.PrivateKey}
      → m.staging_key ≡ some key
      → current_key c clock m ≡ key
  unfolding current_key
  current_staged m h = ground arith

  -- What the flag stands for.
  abbrev HasFlag : List (World c clock) → Prover c clock → Type 1
  HasFlag h p = p.attested ≡ true → Seen h p.prvkey

  informed-HasFlag :
      (w : World c clock) {h : List (World c clock)} (m : Monitor c clock) {time secs : ℕ}
      → HasFlag h m.prover
      → Answers c clock v relay w (current_key c clock m) time secs
      → HasFlag (w ∷ h) (informed c clock v relay w time secs m).prover
  informed-HasFlag w {h} m {time} {secs} known a = elim (Option-cases m.staging_key) [
    | inl fresh ↦ subst (HasFlag (w ∷ h)) (sym (informed_fresh w time secs m fresh)) (λ on.
        seen_now (subst (λ k. Answers c clock v relay w k time secs) (current_fresh m fresh) a)
          (ground arith))
    | inr (key, staged) ↦
        subst (HasFlag (w ∷ h)) (sym (informed_staged w time secs m staged))
          (λ on. seen_before (known on))
  ]

  approved-HasFlag :
      (w : World c clock) {h : List (World c clock)} (m : Monitor c clock) {time secs : ℕ}
      → HasFlag h m.prover
      → Answers c clock v relay w (current_key c clock m) time secs
      → w.now ≤ time + secs / 2
      → HasFlag (w ∷ h) (approve c clock (informed c clock v relay w time secs m)).prover
  approved-HasFlag w {h} m {time} {secs} known a early = elim (Option-cases m.staging_key) [
    | inl fresh ↦
        subst (λ m'. HasFlag (w ∷ h) m'.prover)
          (sym (
            approve_fresh (informed c clock v relay w time secs m)
              (informed_staging w time secs m ∙ fresh)))
          (informed-HasFlag w m known a)
    | inr (key, staged) ↦
        subst (HasFlag (w ∷ h))
          (sym (
            approve_staged (informed c clock v relay w time secs m)
              (informed_staging w time secs m ∙ staged)))
          (λ on.
            seen_now
              (subst (λ k. Answers c clock v relay w k time secs) (current_staged m staged) a)
              (omega arith))
  ]

  pub cool-prover : (secs : ℕ) (m : Monitor c clock) → (cool c clock secs m).prover ≡ m.prover
  unfolding cool
  cool-prover secs m = ground arith

  Run-Seen :
      {first : c.PrivateKey} {h : List (World c clock)} {m : Monitor c clock}
      → Run c clock v relay first h m
      → m.prover.attested ≡ true
      → Seen h m.prover.prvkey
  unfolding start new
  Run-Seen begin = λ on. absurd (cc)
  Run-Seen (next w run (unanswered gap)) = λ on. seen_before (Run-Seen run on)
  Run-Seen (next {h} {m} w run (overflowed {secs} a)) =
      subst (HasFlag (w ∷ h)) (sym (cool-prover secs m)) (λ on. seen_before (Run-Seen run on))
  Run-Seen (next {m} w run (approved a early)) = approved-HasFlag w m (Run-Seen run) a early
  Run-Seen (next {m} w run (waiting a)) = informed-HasFlag w m (Run-Seen run) a
  Run-Seen (next {m} w run (submitted a sent)) = informed-HasFlag w m (Run-Seen run) a

  -- After any rounds of the monitor of a new prover, a set flag means that in one of these rounds
  -- the contract said of the very key that the prover signs with that its attestation had not run
  -- out by the clock of that round.
  pub rounds-Seen :
      (first : c.PrivateKey) (ws : List (World c clock))
      → (monitored c clock v relay first ws).prover.attested ≡ true
      → Seen (history c clock v relay first ws) (monitored c clock v relay first ws).prover.prvkey
  rounds-Seen first ws = Run-Seen (monitored-Run c clock v relay first ws)

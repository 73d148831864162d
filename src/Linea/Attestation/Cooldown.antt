-- ===== src/Linea/Attestation/Cooldown.antt =====
-- The cooldown between the reports of `monitor_attested` in src/common/linea/src/prover.rs.
use linea_sgx_prover.Prelude.{ℕ, ◌≤◌, ◌≡◌, refl, ◌∙◌, List, arith, Option-cases}
use linea_sgx_prover.Linea.Verifier.{Chain, Verifier}
use linea_sgx_prover.Linea.Attestation.{
  Clock, Monitor, World, start, cool, store_attested, approve, current_key, round,
}
use linea_sgx_prover.Linea.Attestation.Steps.{
  Answers, informed, Step, unanswered, overflowed, approved, waiting, submitted, Run, begin, next,
  round-Step, monitored, monitored-Run,
}

module _ (c : Chain) (clock : Clock) (v : Verifier) (relay : c.PrivateKey) where
  informed-cooldown :
      (w : World c clock) (time secs : ℕ) (m : Monitor c clock)
      → (informed c clock v relay w time secs m).submit_cooldown
        ≡ (cool c clock secs m).submit_cooldown
  unfolding store_attested
  informed-cooldown w time secs m = ground (arith, Option-cases (cool c clock secs m).staging_key)

  approve-cooldown : (m : Monitor c clock) → (approve c clock m).submit_cooldown ≡ m.submit_cooldown
  unfolding approve
  approve-cooldown m = ground (arith, Option-cases m.staging_key)

  -- What a round leaves of the cooldown.
  abbrev Shrinks : World c clock → Monitor c clock → Monitor c clock → Type 0
  Shrinks w m m' =
      (m'.submit_cooldown ≤ m.submit_cooldown)
      × ((time secs : ℕ)
          → Answers c clock v relay w (current_key c clock m) time secs
          → m'.submit_cooldown ≤ secs)

  cooled-Shrinks :
      (w : World c clock) (m m' : Monitor c clock) {time secs : ℕ}
      → Answers c clock v relay w (current_key c clock m) time secs
      → m'.submit_cooldown ≡ (cool c clock secs m).submit_cooldown
      → Shrinks w m m'
  unfolding cool
  cooled-Shrinks w m m' a e =
      (ground arith, λ t s b. let x = a.validity in let y = b.validity in ground arith)

  Step-Shrinks :
      (w : World c clock) (m : Monitor c clock) {m' : Monitor c clock}
      → Step c clock v relay w m m'
      → Shrinks w m m'
  Step-Shrinks w m (unanswered gap) = (omega arith, λ t s a. absurd (gap t s a))
  Step-Shrinks w m {m'} (overflowed a) = cooled-Shrinks w m m' a refl
  Step-Shrinks w m {m'} (approved {time} {secs} a early) =
      cooled-Shrinks w m m' a (
        approve-cooldown (informed c clock v relay w time secs m) ∙ informed-cooldown w time secs m)
  Step-Shrinks w m {m'} (waiting {time} {secs} a) =
      cooled-Shrinks w m m' a (informed-cooldown w time secs m)
  Step-Shrinks w m {m'} (submitted {time} {secs} a sent) =
      cooled-Shrinks w m m' a (informed-cooldown w time secs m)

  Run-cooldown :
      {first : c.PrivateKey} {h : List (World c clock)} {m : Monitor c clock}
      → Run c clock v relay first h m
      → m.submit_cooldown ≤ 180
  unfolding start
  Run-cooldown begin = omega arith
  Run-cooldown (next {m} w run step) =
      let before = Run-cooldown run in let (less, _) = Step-Shrinks w m step in omega arith

  -- After any rounds of the monitor of a new prover, a round leaves a cooldown of at most 180
  -- seconds, and a round in which the contract answers both questions leaves one of at most the
  -- validity that the contract names.
  pub round-cooldown_bounds :
      (first : c.PrivateKey) (ws : List (World c clock)) (w : World c clock)
      → ((round c clock v relay w (monitored c clock v relay first ws)).1.submit_cooldown ≤ 180)
        × ((time secs : ℕ)
            → Answers c clock v relay w
                (current_key c clock (monitored c clock v relay first ws))
                time
                secs
            → (round c clock v relay w (monitored c clock v relay first ws)).1.submit_cooldown
              ≤ secs)
  round-cooldown_bounds first ws w =
      let m = monitored c clock v relay first ws in
      let before = Run-cooldown (monitored-Run c clock v relay first ws) in
      let (less, valid) = Step-Shrinks w m (round-Step c clock v relay w m) in (omega arith, valid)

-- ===== src/Linea/Attestation/Keys.antt =====
-- Where the keys of the prover in src/common/linea/src/prover.rs come from.
use mathlib.Core.Path.{subst}
use linea_sgx_prover.Prelude.{
  ℕ, ◌+◌, ◌/◌, ◌≤◌, ◌≡◌, refl, sym, ap, ◌∙◌, ◌⊎◌, inl, inr, some, Option, List, ◌∷◌, arith,
  Option-cases,
}
use linea_sgx_prover.Linea.Verifier.{Chain, Verifier}
use linea_sgx_prover.Linea.Attestation.{
  Clock, Monitor, World, new, start, cool, approve, current_key,
}
use linea_sgx_prover.Linea.Attestation.Steps.{
  Answers, Submitted, informed, unanswered, overflowed, approved, waiting, submitted, Run, begin,
  next, monitored, history, monitored-Run,
}
use linea_sgx_prover.Linea.Attestation.Laws.{
  informed_fresh, informed_staged, informed_staging, approve_fresh, approve_staged, approve_staging,
  current_staged, cool-prover,
}

module _ (c : Chain) (clock : Clock) (v : Verifier) (relay : c.PrivateKey) where
  -- A report for the key was submitted in one of the rounds.
  pub data Reported : List (World c clock) → c.PrivateKey → Type 1 where
    reported_now :
        {w : World c clock} {h : List (World c clock)} {key : c.PrivateKey}
        → Submitted c clock v relay w key
        → Reported (w ∷ h) key
    reported_before :
        {w : World c clock} {h : List (World c clock)} {key : c.PrivateKey}
        → Reported h key
        → Reported (w ∷ h) key

  -- In one of the rounds the contract said that less than half of the validity of the key's
  -- attestation had passed, and a report for the key was submitted in a round before.
  pub data Earned : List (World c clock) → c.PrivateKey → Type 1 where
    earned_now :
        {w : World c clock} {h : List (World c clock)} {key : c.PrivateKey} {time secs : ℕ}
        → Reported h key
        → Answers c clock v relay w key time secs
        → w.now ≤ time + secs / 2
        → Earned (w ∷ h) key
    earned_before :
        {w : World c clock} {h : List (World c clock)} {key : c.PrivateKey}
        → Earned h key
        → Earned (w ∷ h) key

  module _ (first : c.PrivateKey) where
    abbrev pub HasOrigin : List (World c clock) → c.PrivateKey → Type 1
    HasOrigin h key = (key ≡ first) ⊎ Earned h key

    later_origin :
        {w : World c clock} {h : List (World c clock)} {key : c.PrivateKey}
        → HasOrigin h key
        → HasOrigin (w ∷ h) key
    later_origin (inl same) = inl same
    later_origin (inr earned) = inr (earned_before earned)

    -- The key that waits was reported.
    abbrev Staged : List (World c clock) → Option c.PrivateKey → Type 1
    Staged h o = (key : c.PrivateKey) → o ≡ some key → Reported h key

    informed-prvkey :
        (w : World c clock) (time secs : ℕ) (m : Monitor c clock)
        → (informed c clock v relay w time secs m).prover.prvkey ≡ m.prover.prvkey
    informed-prvkey w time secs m = elim (Option-cases m.staging_key) [
      | inl fresh ↦ ap (λ p. p.prvkey) (informed_fresh c clock v relay w time secs m fresh)
      | inr (key, staged) ↦
          ap (λ p. p.prvkey) (informed_staged c clock v relay w time secs m staged)
    ]

    approved-origin :
        (w : World c clock) {h : List (World c clock)} (m : Monitor c clock) {time secs : ℕ}
        → HasOrigin h m.prover.prvkey
        → Staged h m.staging_key
        → Answers c clock v relay w (current_key c clock m) time secs
        → w.now ≤ time + secs / 2
        → HasOrigin (w ∷ h) (approve c clock (informed c clock v relay w time secs m)).prover.prvkey
    approved-origin w {h} m {time} {secs} known waits a early =
        let m' = informed c clock v relay w time secs m in
        let kept = informed_staging c clock v relay w time secs m in
        elim (Option-cases m.staging_key) [
          | inl fresh ↦
              subst (HasOrigin (w ∷ h))
                (sym (
                  ap (λ q. q.prover.prvkey) (approve_fresh c clock v relay m' (kept ∙ fresh))
                  ∙ informed-prvkey w time secs m))
                (later_origin known)
          | inr (key, staged) ↦
              subst (HasOrigin (w ∷ h))
                (sym (ap (λ p. p.prvkey) (approve_staged c clock v relay m' (kept ∙ staged))))
                (inr (
                  earned_now (waits key staged)
                    (subst (λ k. Answers c clock v relay w k time secs)
                      (current_staged c clock v relay m staged) a)
                    early))
        ]

    Run-Staged :
        {h : List (World c clock)} {m : Monitor c clock}
        → Run c clock v relay first h m
        → Staged h m.staging_key
    unfolding start cool
    Run-Staged begin = λ key e. absurd (cc)
    Run-Staged (next w run (unanswered gap)) = λ key e. reported_before (Run-Staged run key e)
    Run-Staged (next {m} w run (overflowed {secs} a)) =
        λ key e. reported_before (Run-Staged run key (ground arith))
    Run-Staged (next {m} w run (approved {time} {secs} a early)) = λ key e.
        absurd
          (let off = approve_staging c clock v relay (informed c clock v relay w time secs m) in cc)
    Run-Staged (next {m} w run (waiting {time} {secs} a)) = λ key e.
        reported_before
          (Run-Staged run key (sym (informed_staging c clock v relay w time secs m) ∙ e))
    Run-Staged (next {h} {m} w run (submitted a sent)) = λ key e.
        let same : w.new_key ≡ key = cc in subst (Reported (w ∷ h)) same (reported_now sent)

    Run-Earned :
        {h : List (World c clock)} {m : Monitor c clock}
        → Run c clock v relay first h m
        → (m.prover.prvkey ≡ first) ⊎ Earned h m.prover.prvkey
    unfolding start new
    Run-Earned begin = inl refl
    Run-Earned (next w run (unanswered gap)) = later_origin (Run-Earned run)
    Run-Earned (next {h} {m} w run (overflowed {secs} a)) =
        subst (λ p. HasOrigin (w ∷ h) p.prvkey) (sym (cool-prover c clock v relay secs m))
          (later_origin (Run-Earned run))
    Run-Earned (next {m} w run (approved a early)) =
        approved-origin w m (Run-Earned run) (Run-Staged run) a early
    Run-Earned (next {h} {m} w run (waiting {time} {secs} a)) =
        subst (HasOrigin (w ∷ h)) (sym (informed-prvkey w time secs m))
          (later_origin (Run-Earned run))
    Run-Earned (next {h} {m} w run (submitted {time} {secs} a sent)) =
        subst (HasOrigin (w ∷ h)) (sym (informed-prvkey w time secs m))
          (later_origin (Run-Earned run))

    -- After any rounds of the monitor of a new prover, the prover signs with its first key, or with
    -- a key for which a report was submitted in one of the rounds and of which the contract said in
    -- a later one that at most half of the validity of its attestation had passed.
    pub rounds-Earned :
        (ws : List (World c clock))
        → ((monitored c clock v relay first ws).prover.prvkey ≡ first)
          ⊎ Earned
              (history c clock v relay first ws)
              (monitored c clock v relay first ws).prover.prvkey
    rounds-Earned ws = Run-Earned (monitored-Run c clock v relay first ws)

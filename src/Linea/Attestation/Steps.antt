-- ===== src/Linea/Attestation/Steps.antt =====
-- The rounds of `monitor_attested` in src/common/linea/src/prover.rs as a step relation, and the
-- states that they reach from a new prover.
use linea_sgx_prover.Prelude.{
  ℕ, ◌+◌, ◌/◌, ◌^◌, ◌≤◌, ◌≡◌, refl, inl, inr, some, List, [], ◌∷◌, ltb, arith, Bool-cases,
}
use linea_sgx_prover.Prelude.Results.{ok, err, panic, Result-cases}
use linea_sgx_prover.Bytes.{Bytes}
use linea_sgx_prover.EthTypes.{Sh256}
use linea_sgx_prover.Linea.Verifier.{
  Chain, Verifier, prover_status, attest_validity_seconds, submit_attestation_report,
}
use linea_sgx_prover.Linea.Attestation.{
  Clock, Monitor, World, new, start, current_key, cool, store_attested, approve, cooled_down,
  submit, request, judge, round, rounds,
}

module _ (c : Chain) (clock : Clock) (v : Verifier) (relay : c.PrivateKey) where
  -- The contract says, in this round, when the key was attested and how long that holds.
  pub record Answers (w : World c clock) (key : c.PrivateKey) (time secs : ℕ) : Type 0 where
    pub status : prover_status c v w.status_node (c.account_id key) ≡ ok time
    pub validity : attest_validity_seconds c v w.validity_node ≡ ok secs

  -- A report for the new key of this round was made and submitted.
  pub record Submitted (w : World c clock) (key : c.PrivateKey) : Type 0 where
    pub report : Bytes
    pub hash : Sh256
    pub is_new : w.new_key ≡ key
    pub made : w.report key ≡ ok report
    pub sent : submit_attestation_report c v w.submit_node relay (c.account_id key) report ≡ ok hash

  -- The monitor after it has read the contract's answers.
  abbrev pub informed : World c clock → ℕ → ℕ → Monitor c clock → Monitor c clock
  informed w time secs m = store_attested c clock (ltb w.now (time + secs)) (cool c clock secs m)

  -- What a round may do to the monitor.
  pub data Step (w : World c clock) (m : Monitor c clock) : Monitor c clock → Type 0 where
    unanswered : ((time secs : ℕ) → Answers w (current_key c clock m) time secs → ⊥) → Step w m m
    overflowed :
        {time secs : ℕ}
        → Answers w (current_key c clock m) time secs
        → Step w m (cool c clock secs m)
    approved :
        {time secs : ℕ}
        → Answers w (current_key c clock m) time secs
        → w.now ≤ time + secs / 2
        → Step w m (approve c clock (informed w time secs m))
    waiting :
        {time secs : ℕ}
        → Answers w (current_key c clock m) time secs
        → Step w m (informed w time secs m)
    submitted :
        {time secs : ℕ}
        → Answers w (current_key c clock m) time secs
        → Submitted w w.new_key
        → Step w m (record (informed w time secs m) {
          last_submit = some w.submit_time;
          staging_key = some w.new_key;
        })

  submit-Step :
      (w : World c clock) (m : Monitor c clock) {time secs : ℕ}
      → Answers w (current_key c clock m) time secs
      → Step w m (submit c clock v relay w (informed w time secs m)).1
  unfolding submit
  submit-Step w m {time} {secs} a = elim (Result-cases (w.report w.new_key)) [
    | inl (report, made) ↦
        elim (Result-cases
          (submit_attestation_report c v w.submit_node relay (c.account_id w.new_key) report)) [
            | inl (hash, sent) ↦
                rw (submit, made, sent)
                  (submitted {time = time} {secs = secs} a (record {
                    report = report;
                    hash = hash;
                    is_new = refl;
                    made = made;
                    sent = sent;
                  }))
            | inr (inl (e, failed)) ↦
                rw (submit, made, failed) (waiting {time = time} {secs = secs} a)
            | inr (inr crashed) ↦ rw (submit, made, crashed) (waiting {time = time} {secs = secs} a)
          ]
    | inr (inl (e, failed)) ↦ rw (submit, failed) (waiting {time = time} {secs = secs} a)
    | inr (inr crashed) ↦ rw (submit, crashed) (waiting {time = time} {secs = secs} a)
  ]

  request-Step :
      (w : World c clock) (m : Monitor c clock) {time secs : ℕ}
      → Answers w (current_key c clock m) time secs
      → Step w m (request c clock v relay w (informed w time secs m)).1
  unfolding request
  request-Step w m {time} {secs} a =
      elim (Bool-cases (cooled_down c clock w.time (informed w time secs m))) [
        | inl over ↦ rw (request, over) (submit-Step w m a)
        | inr not_over ↦ rw (request, not_over) (waiting {time = time} {secs = secs} a)
      ]

  judge-Step :
      (w : World c clock) (m : Monitor c clock) {time secs : ℕ}
      → Answers w (current_key c clock m) time secs
      → Step w m (judge c clock v relay time secs w (cool c clock secs m)).1
  unfolding judge
  judge-Step w m {time} {secs} a = elim (Bool-cases (ltb (time + secs) (2 ^ 64))) [
    | inl fits ↦ elim (Bool-cases (ltb (time + secs / 2) w.now)) [
      | inl late ↦ rw (judge, fits, late) (request-Step w m a)
      | inr early ↦ rw (judge, fits, early) (approved {time = time} {secs = secs} a (ground arith))
    ]
    | inr over ↦ rw (judge, over) (overflowed {time = time} {secs = secs} a)
  ]

  -- Every round is such a step.
  pub round-Step :
      (w : World c clock) (m : Monitor c clock) → Step w m (round c clock v relay w m).1
  unfolding round
  round-Step w m =
      elim (Result-cases (prover_status c v w.status_node (c.account_id (current_key c clock m)))) [
        | inl (time, status) ↦ elim (Result-cases (attest_validity_seconds c v w.validity_node)) [
          | inl (secs, validity) ↦
              rw (round, status, validity)
                (judge-Step w m (record { status = status; validity = validity }))
          | inr (inl (e, failed)) ↦
              rw (round, status, failed) (unanswered (λ t s a. absurd (let e = a.validity in cc)))
          | inr (inr crashed) ↦
              rw (round, status, crashed) (unanswered (λ t s a. absurd (let e = a.validity in cc)))
        ]
        | inr (inl (e, failed)) ↦
            rw (round, failed) (unanswered (λ t s a. absurd (let e = a.status in cc)))
        | inr (inr crashed) ↦
            rw (round, crashed) (unanswered (λ t s a. absurd (let e = a.status in cc)))
      ]

  -- The monitors that rounds reach from a new prover, with the rounds, the latest first.
  pub data Run (first : c.PrivateKey) : List (World c clock) → Monitor c clock → Type 1 where
    begin : Run first [] (start c clock (new c clock first))
    next :
        {h : List (World c clock)} {m : Monitor c clock} (w : World c clock) {m' : Monitor c clock}
        → Run first h m
        → Step w m m'
        → Run first (w ∷ h) m'

  -- The rounds that `rounds` plays, the latest first, before the given ones: none after a panic.
  unfoldable pub played :
      List (World c clock) → Monitor c clock → List (World c clock) → List (World c clock)
  played [] m h = h
  played (w ∷ ws) m h =
      let after = round c clock v relay w m in
      let rest = played ws after.1 (w ∷ h) in
      elim after.0 [ ok _ ↦ rest | err _ ↦ w ∷ h | panic ↦ w ∷ h ]

  pub rounds-Run :
      {first : c.PrivateKey} (ws : List (World c clock)) {h : List (World c clock)}
      (m : Monitor c clock)
      → Run first h m
      → Run first (played ws m h) (rounds c clock v relay ws m)
  unfolding rounds played
  rounds-Run [] m run = run
  rounds-Run (w ∷ ws) {h} m run =
      let here = next w run (round-Step w m) in
      elim (Result-cases (round c clock v relay w m).0) [
        | inl (slept, done) ↦
            rw (rounds, played, done) (rounds-Run ws (round c clock v relay w m).1 here)
        | inr (inl (e, failed)) ↦ rw (rounds, played, failed) here
        | inr (inr crashed) ↦ rw (rounds, played, crashed) here
      ]

  -- The state and the history of a new prover after some rounds.
  abbrev pub monitored : c.PrivateKey → List (World c clock) → Monitor c clock
  monitored first ws = rounds c clock v relay ws (start c clock (new c clock first))

  abbrev pub history : c.PrivateKey → List (World c clock) → List (World c clock)
  history first ws = played ws (start c clock (new c clock first)) []

  pub monitored-Run :
      (first : c.PrivateKey) (ws : List (World c clock))
      → Run first (history first ws) (monitored first ws)
  monitored-Run first ws = rounds-Run ws (start c clock (new c clock first)) begin

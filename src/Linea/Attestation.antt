-- ===== src/Linea/Attestation.antt =====
-- src/common/linea/src/prover.rs: the key of the prover, and the monitor that has it attested by
-- the verifier contract and replaces it.
pub mod Steps
pub mod Laws
pub mod Keys
pub mod Cooldown
pub mod Progress
use Prim.Native.String.{String}
use linea_sgx_prover.Prelude.{
  ℕ, zero, suc, ◌+◌, ◌*◌, ◌/◌, ◌^◌, Option, none, some, List, [], ◌∷◌, Bool, true, false, ltb,
  if◌then◌else◌,
}
use linea_sgx_prover.Prelude.Results.{Result, ok, err, panic}
use linea_sgx_prover.Prelude.Exec.{Exec}
use linea_sgx_prover.Bytes.{Bytes}
use linea_sgx_prover.Linea.Verifier.{
  Chain, Node, Verifier, prover_status, attest_validity_seconds, submit_attestation_report,
}

-- `base::time::Time`: whether the first instant is later than the second and so many seconds.
pub record Clock : Type 1 where
  pub Time : Type 0
  pub is_after : Time → Time → ℕ → Bool

-- A sum of `u64`.
abbrev pub add_u64 : {E : Type 0} → ℕ → ℕ → Result E ℕ
add_u64 a b = if ltb (a + b) (2 ^ 64) then ok (a + b) else panic

module _ (c : Chain) (clock : Clock) where
  -- `Prover`, less its `alive`.
  pub record Prover : Type 0 where
    pub prvkey : c.PrivateKey
    pub attested : Bool

  -- The prover, with the local variables of `monitor_attested`.
  pub record Monitor : Type 0 where
    pub prover : Prover
    pub last_submit : Option clock.Time
    pub submit_cooldown : ℕ
    pub staging_key : Option c.PrivateKey

  -- What a round of the loop gets from outside: the node as `prover_status`, as
  -- `attest_validity_seconds` and as `submit_attestation_report` meet it, the clocks, the key of
  -- `secp256k1_gen_keypair` and the reports of `f`.
  pub record World : Type 1 where
    pub status_node : Node c
    pub validity_node : Node c
    pub submit_node : Node c
    pub now : ℕ
    pub time : clock.Time
    pub new_key : c.PrivateKey
    pub report : c.PrivateKey → Result String Bytes
    pub submit_time : clock.Time

  -- `Prover::new`, with the key that it generates.
  unfoldable pub new : c.PrivateKey → Prover
  new key = record { prvkey = key; attested = false }

  abbrev pub is_attested : Prover → Bool
  is_attested p = p.attested

  unfoldable pub update_prvkey : c.PrivateKey → Prover → Prover
  update_prvkey key p = record { prvkey = key; attested = true }

  -- The local variables before the first round.
  unfoldable pub start : Prover → Monitor
  start p = record { prover = p; last_submit = none; submit_cooldown = 180; staging_key = none }

  -- `staging_key.as_ref().unwrap_or(&prvkey)`.
  abbrev pub key_or : Option c.PrivateKey → c.PrivateKey → c.PrivateKey
  key_or none key = key
  key_or (some staged) key = staged

  unfoldable pub current_key : Monitor → c.PrivateKey
  current_key m = key_or m.staging_key m.prover.prvkey

  unfoldable pub cool : ℕ → Monitor → Monitor
  cool secs m = if ltb secs m.submit_cooldown then record m { submit_cooldown = secs / 2 } else m

  unfoldable pub store_attested : Bool → Monitor → Monitor
  store_attested is_attesed m = elim m.staging_key [
    | none ↦ record m { prover = record (m.prover) { attested = is_attesed } }
    | some _ ↦ m
  ]

  -- The branch `!need_attestation`.
  unfoldable pub approve : Monitor → Monitor
  unfolding update_prvkey
  approve m = elim m.staging_key [
    | none ↦ m
    | some key ↦ record m { prover = update_prvkey key m.prover; staging_key = none }
  ]

  unfoldable pub cooled_down : clock.Time → Monitor → Bool
  cooled_down time m = elim m.last_submit [
    | none ↦ true
    | some last ↦ clock.is_after time last m.submit_cooldown
  ]

  module _ (v : Verifier) (relay : c.PrivateKey) where
    -- The branch that submits a report for a new key; the milliseconds are those slept.
    unfoldable pub submit : World → Exec Monitor ⊥ ℕ
    submit w m = elim (w.report w.new_key) [
      | panic ↦ (panic, m)
      | err _ ↦ (ok 1000, m)
      | ok report ↦
          elim (submit_attestation_report c v w.submit_node relay (c.account_id w.new_key) report) [
            | panic ↦ (panic, m)
            | err _ ↦ (ok 1000, m)
            | ok _ ↦ (
              ok 5000,
              record m { last_submit = some w.submit_time; staging_key = some w.new_key },
            )
          ]
    ]

    -- From the second test of `need_attestation` on.
    unfoldable pub request : World → Exec Monitor ⊥ ℕ
    request w m = if cooled_down w.time m then submit w m else (ok 5000, m)

    -- `60.min(attested_validity_secs / 2) * 1000`.
    abbrev pub approved_sleep : ℕ → ℕ
    approved_sleep secs = (if ltb (secs / 2) 60 then secs / 2 else 60) * 1000

    -- From the clock on, given what the contract answered.
    unfoldable pub judge : ℕ → ℕ → World → Exec Monitor ⊥ ℕ
    judge attested_time secs w m = elim (add_u64 {E = ⊥} attested_time secs) [
      | panic ↦ (panic, m)
      | err _ ↦ (panic, m)
      | ok until ↦
          (let m = store_attested (ltb w.now until) m in
            if ltb (attested_time + secs / 2) w.now
            then request w m
            else (ok (approved_sleep secs), approve m))
    ]

    -- One round of the loop of `monitor_attested`: what it sleeps, and the state after it.
    unfoldable pub round : World → Exec Monitor ⊥ ℕ
    round w m = elim (prover_status c v w.status_node (c.account_id (current_key m))) [
      | panic ↦ (panic, m)
      | err _ ↦ (ok 1000, m)
      | ok attested_time ↦ elim (attest_validity_seconds c v w.validity_node) [
        | panic ↦ (panic, m)
        | err _ ↦ (ok 1000, m)
        | ok secs ↦ judge attested_time secs w (cool secs m)
      ]
    ]

    -- `monitor_attested`: the rounds that begin while `alive` holds. A panic ends the thread.
    unfoldable pub rounds : List World → Monitor → Monitor
    rounds [] m = m
    rounds (w ∷ ws) m =
        let after = round w m in
        let rest = rounds ws after.1 in
        elim after.0 [ ok _ ↦ rest | err _ ↦ after.1 | panic ↦ after.1 ]

-- The loop of `wait_attested`: `alive i` is the answer of the `i`-th `sleep_ms` and `flag i` the
-- flag after it. `none` stands for a loop that has not ended after `n` turns.
unfoldable pub wait_loop : (ℕ → Bool) → (ℕ → Bool) → ℕ → ℕ → Option Bool
wait_loop alive flag i zero = none
wait_loop alive flag i (suc n) =
    let rest = wait_loop alive flag (suc i) n in
    if alive i then (if flag i then some true else rest) else some false

-- `wait_attested`, with the flag before the first turn.
unfoldable pub wait_attested : Bool → (ℕ → Bool) → (ℕ → Bool) → ℕ → Option Bool
wait_attested first alive flag n = if first then some true else wait_loop alive flag 0 n

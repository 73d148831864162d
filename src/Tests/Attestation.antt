-- ===== src/Tests/Attestation.antt =====
-- The theorems on the verifier client and on the attestation of the prover at concrete inputs: a
-- contract that knows no key in the first round, and the new key in the second.
use linea_sgx_prover.Prelude.{
  ℕ, ◌+◌, some, List, [], ◌∷◌, ◌++◌, Bool, true, false, ltb, ◌==◌, ◌≤◌, ◌≡◌, ◌⊎◌, inr, refl, arith,
  replicate,
}
use linea_sgx_prover.Prelude.Results.{ok}
use linea_sgx_prover.Bytes.{Bytes}
use linea_sgx_prover.EthTypes.{Sh160, big_endian_types, narrow}
use linea_sgx_prover.Linea.Verifier.{
  Chain, Node, Verifier, prover_status, attest_validity_seconds, submit_attestation_report, send_tx,
  generate_prover_report, report_data, check_metadata, verify_mrenclave, verify_mrsigner,
  verify_report_on_chain,
}
use linea_sgx_prover.Linea.Verifier.Laws.{Generated, generate_prover_report-Generated}
use linea_sgx_prover.Linea.Attestation.{
  Clock, World, new, start, update_prvkey, current_key, cool, store_attested, approve, cooled_down,
  submit, request, judge, round, rounds, wait_attested,
}
use linea_sgx_prover.Linea.Attestation.Steps.{Answers, monitored, history}
use linea_sgx_prover.Linea.Attestation.Laws.{Seen, rounds-Seen}
use linea_sgx_prover.Linea.Attestation.Keys.{Earned, rounds-Earned}
use linea_sgx_prover.Linea.Attestation.Cooldown.{round-cooldown_bounds}
use linea_sgx_prover.Linea.Attestation.Progress.{Reason, wait_attested_ends}

abbrev pub chain : Chain
chain = record {
  RpcError = ℕ;
  Encoder = Bytes;
  PrivateKey = ℕ;
  PendingReceipt = ℕ;
  Receipt = ℕ;
  Quote = Bytes;
  new_encoder = λ name. [];
  add_address = λ b a. b ++ a;
  add_hash = λ b a. b ++ a;
  add_u256 = λ b n. b ++ n ∷ [];
  add_bytes = λ b a. b ++ a;
  encode = λ b. b;
  transaction_hash = λ r. replicate 32 r;
  account_id = λ k. replicate 20 k;
  get_mr_enclave = λ q. replicate 32 1;
  get_mr_signer = λ q. replicate 32 2;
  quote_to_bytes = λ q. q;
  eth = big_endian_types;
}

-- A node whose contract answers one number to every call.
abbrev pub answers : ℕ → Node chain
answers n = record {
  call_u256 = λ c. ok n;
  call_hash = λ c. ok (replicate 32 n);
  send = λ k to v b. ok 0;
  wait_finished = λ p. some p;
  generate_quote = λ d. ok d;
}

abbrev pub verifier : Verifier
verifier = record { to = replicate 20 9 }

abbrev key : Sh160
key = replicate 20 5

report_made :
    generate_prover_report chain verifier (answers 1) true key true ≡ ok (replicate 44 0 ++ key)
unfolding generate_prover_report report_data check_metadata verify_mrenclave verify_mrsigner
    verify_report_on_chain narrow big_endian_types
report_made = refl

generate_prover_report-Generated_example :
    (true ≡ true) × Generated chain verifier (answers 1) key true (replicate 44 0 ++ key)
generate_prover_report-Generated_example =
    generate_prover_report-Generated chain verifier (answers 1) true key true report_made

abbrev clock : Clock
clock = record { Time = ℕ; is_after = λ a b n. ltb (b + n) a }

abbrev world : ℕ → ℕ → World chain clock
world status now = record {
  status_node = answers status;
  validity_node = answers 1000;
  submit_node = answers 0;
  now = now;
  time = now;
  new_key = 7;
  report = λ k. ok (k ∷ []);
  submit_time = now;
}

abbrev before : World chain clock
before = world 0 5000

abbrev after : World chain clock
after = world 5000 5010

abbrev both : List (World chain clock)
both = before ∷ after ∷ []

attested_at_end : (monitored chain clock verifier 3 1 both).prover.attested ≡ true
unfolding rounds round judge request submit cooled_down store_attested approve cool current_key
    start new update_prvkey prover_status attest_validity_seconds submit_attestation_report send_tx
    narrow big_endian_types
attested_at_end = refl

rounds-Seen_example :
    Seen chain clock verifier 3
      (history chain clock verifier 3 1 both)
      (monitored chain clock verifier 3 1 both).prover.prvkey
rounds-Seen_example = rounds-Seen chain clock verifier 3 1 both attested_at_end

rounds-Earned_example :
    ((monitored chain clock verifier 3 1 both).prover.prvkey ≡ 1)
    ⊎ Earned chain clock verifier 3
        (history chain clock verifier 3 1 both)
        (monitored chain clock verifier 3 1 both).prover.prvkey
rounds-Earned_example = rounds-Earned chain clock verifier 3 1 both

round-cooldown_bounds_example :
    ((round chain clock verifier 3 before
        (monitored chain clock verifier 3 1 both)).1.submit_cooldown
      ≤ 180)
    × ((time secs : ℕ)
        → Answers chain clock verifier 3 before
            (current_key chain clock (monitored chain clock verifier 3 1 both))
            time
            secs
        → (round chain clock verifier 3 before
            (monitored chain clock verifier 3 1 both)).1.submit_cooldown
          ≤ secs)
round-cooldown_bounds_example = round-cooldown_bounds chain clock verifier 3 1 both before

abbrev always : ℕ → Bool
always i = true

abbrev third : ℕ → Bool
third i = i == 2

wait_attested_ends_example :
    (b : Bool) × (wait_attested false always third 4 ≡ some b)
    × ((false ≡ b × b ≡ true) ⊎ ((false ≡ false) × Reason always third 0 b))
wait_attested_ends_example = wait_attested_ends always third false 4 2 (omega arith) (inr refl)

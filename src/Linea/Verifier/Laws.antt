-- ===== src/Linea/Verifier/Laws.antt =====
-- What a report that `generate_prover_report` of src/common/linea/src/verifier.rs returns stands on.
use linea_sgx_prover.Prelude.{
  ℕ, ◌≡◌, refl, sym, ap, ◌∙◌, ◌++◌, Bool, true, false, ◌&&◌, if◌then◌else◌, arith, replicate,
  length,
}
use linea_sgx_prover.Prelude.Results.{ok, err, map_err, >>=-inv, ok_inj, map_err-inv}
use linea_sgx_prover.Bytes.{Bytes, copy_from_slice}
use linea_sgx_prover.EthTypes.{Sh160}
use linea_sgx_prover.Linea.Verifier.{
  Chain, Node, Verifier, VerifierError, rpc_failed, quote_failed, not_trusted, verify_mrenclave,
  verify_mrsigner, verify_report_on_chain, report_data, check_metadata, generate_prover_report,
}

both_true :
    {E : Type 0} (a b : Bool) (e : E)
    → (if a && b then ok tt else err e) ≡ ok tt
    → (a ≡ true) × (b ≡ true)
both_true true true e h = (refl, refl)
both_true true false e h = absurd (cc)
both_true false b e h = absurd (cc)

copy_from_slice-inv :
    {E : Type 0} (n : ℕ) (src : Bytes) {b : Bytes}
    → copy_from_slice {E = E} n src ≡ ok b
    → (length src ≡ n) × (b ≡ src)
copy_from_slice-inv n src h = ground arith

module _ (c : Chain) (v : Verifier) (n : Node c) where
  -- The contract trusts the measurements of the quote.
  pub record Trusted (quote : c.Quote) : Type 0 where
    pub enclave : verify_mrenclave c v n (c.get_mr_enclave quote) ≡ ok true
    pub signer : verify_mrsigner c v n (c.get_mr_signer quote) ≡ ok true

  report_data-inv :
      (key : Sh160) {b : Bytes}
      → report_data c v n key ≡ ok b
      → (length key ≡ 20) × (b ≡ replicate 44 0 ++ key)
  unfolding report_data
  report_data-inv key h =
      let (low, copied, e) =
        >>=-inv (copy_from_slice 20 key) (λ low. ok (replicate 44 0 ++ low)) h in
      let (size, same) = copy_from_slice-inv 20 key copied in
      (size, sym (ok_inj {E = VerifierError c} e) ∙ ap (λ b. replicate 44 0 ++ b) same)

  check_metadata-Trusted : (quote : c.Quote) → check_metadata c v n quote ≡ ok tt → Trusted quote
  unfolding check_metadata
  check_metadata-Trusted quote h =
      let (enclave, e1, rest) = >>=-inv (verify_mrenclave c v n (c.get_mr_enclave quote)) _ h in
      let (signer, e2, tested) = >>=-inv (verify_mrsigner c v n (c.get_mr_signer quote)) _ rest in
      let (pass, pass') = both_true enclave signer (not_trusted enclave signer) tested in
      record { enclave = rw pass at e1; signer = rw pass' at e2 }

  -- What `generate_prover_report` has asked the enclave and the contract for.
  pub record Generated (key : Sh160) (check : Bool) (report : Bytes) : Type 0 where
    pub quote : c.Quote
    pub answer : Bool
    pub size : length key ≡ 20
    pub quoted : n.generate_quote (replicate 44 0 ++ key) ≡ ok quote
    pub is_report : report ≡ c.quote_to_bytes quote
    pub trusted : check ≡ true → Trusted quote
    pub verified : verify_report_on_chain c v n key report ≡ ok answer

  checked-Trusted :
      (check : Bool) (quote : c.Quote)
      → (if check then check_metadata c v n quote else ok tt) ≡ ok tt
      → check ≡ true
      → Trusted quote
  checked-Trusted true quote h on = check_metadata-Trusted quote h
  checked-Trusted false quote h on = absurd (cc)

  -- A report that `generate_prover_report` returns is the quote of the enclave over 44 zero bytes
  -- and the 20 bytes of the key; the contract was asked to verify this report and answered, with
  -- whatever answer; and if the check of the metadata was asked for, the contract trusts both
  -- measurements of the quote.
  pub generate_prover_report-Generated :
      (tstd : Bool) (key : Sh160) (check : Bool) {report : Bytes}
      → generate_prover_report c v n tstd key check ≡ ok report
      → (tstd ≡ true) × Generated key check report
  unfolding generate_prover_report
  generate_prover_report-Generated false key check h =
      let (b, made, e) = >>=-inv (report_data c v n key) _ h in absurd (cc)
  generate_prover_report-Generated true key check {report} h =
      let (b, made, rest) = >>=-inv (report_data c v n key) _ h in
      let (size, same) = report_data-inv key made in
      let (quote, quoted, rest') = >>=-inv (map_err quote_failed (n.generate_quote b)) _ rest in
      let (done, checked, rest'') =
        >>=-inv (if check then check_metadata c v n quote else ok tt) _ rest' in
      let (answer, verified, e) =
        >>=-inv (map_err rpc_failed (verify_report_on_chain c v n key (c.quote_to_bytes quote))) _
          rest'' in
      let is_report = sym (ok_inj {E = VerifierError c} e) in
      (
        refl,
        record {
          quote = quote;
          answer = answer;
          size = size;
          quoted =
              ap n.generate_quote (sym same) ∙ map_err-inv quote_failed (n.generate_quote b) quoted;
          is_report = is_report;
          trusted = checked-Trusted check quote checked;
          verified =
              ap (verify_report_on_chain c v n key) is_report
              ∙ map_err-inv rpc_failed (verify_report_on_chain c v n key (c.quote_to_bytes quote))
                  verified;
        },
      )

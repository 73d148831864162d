-- ===== src/Linea/Verifier.antt =====
-- src/common/linea/src/verifier.rs: the calls and the transactions that the prover sends to the
-- verifier contract, and the attestation report of a prover key.
pub mod Laws
use Prim.Native.String.{String}
use linea_sgx_prover.Prelude.{
  ℕ, Option, some, ◌++◌, Bool, not, ◌&&◌, ◌==◌, if◌then◌else◌, replicate,
}
use linea_sgx_prover.Prelude.Results.{Result, ok, err, expect, ok_or, map_err, ◌>>=◌, ◌>>◌}
use linea_sgx_prover.Bytes.{Bytes, slice_from, copy_from_slice}
use linea_sgx_prover.EthTypes.{EthTypes, Sh160, Sh256}

-- What the crates `solidity`, `eth_tools`, `crypto` and `sgxlib_ra` give.
pub record Chain : Type 1 where
  pub RpcError : Type 0
  pub Encoder : Type 0
  pub PrivateKey : Type 0
  pub PendingReceipt : Type 0
  pub Receipt : Type 0
  pub Quote : Type 0
  -- `solidity::Encoder`.
  pub new_encoder : String → Encoder
  pub add_address : Encoder → Sh160 → Encoder
  pub add_hash : Encoder → Sh256 → Encoder
  pub add_u256 : Encoder → ℕ → Encoder
  pub add_bytes : Encoder → Bytes → Encoder
  pub encode : Encoder → Bytes
  pub transaction_hash : Receipt → Sh256
  -- `key.public().eth_accountid()`.
  pub account_id : PrivateKey → Sh160
  pub get_mr_enclave : Quote → Bytes
  pub get_mr_signer : Quote → Bytes
  pub quote_to_bytes : Quote → Bytes
  -- The 256-bit types.
  pub eth : EthTypes

pub record EthCall : Type 0 where
  pub to : Sh160
  pub call_data : Bytes

-- What the node and the enclave answer: `el.eth_call` at the latest block, for its two result
-- types, `tx_sender.send`, `wait_finished` and `dcap_generate_quote`.
pub record Node (c : Chain) : Type 0 where
  pub call_u256 : EthCall → Result c.RpcError ℕ
  pub call_hash : EthCall → Result c.RpcError Sh256
  pub send : c.PrivateKey → Option Sh160 → ℕ → Bytes → Result c.RpcError c.PendingReceipt
  pub wait_finished : c.PendingReceipt → Option c.Receipt
  pub generate_quote : Bytes → Result String c.Quote

-- `Verifier`, less its clients.
pub record Verifier : Type 0 where
  pub to : Sh160

-- The messages of the `String` errors.
pub data VerifierError (c : Chain) : Type 0 where
  rpc_failed : c.RpcError → VerifierError c
  quote_failed : String → VerifierError c
  not_trusted : Bool → Bool → VerifierError c
  tx_aborted : VerifierError c
  no_attestation_report : VerifierError c

module _ (c : Chain) (v : Verifier) (n : Node c) where
  abbrev pub latest_u256 : Bytes → Result c.RpcError ℕ
  latest_u256 args = n.call_u256 (record { to = v.to; call_data = args })

  abbrev pub latest_u64 : Bytes → Result c.RpcError ℕ
  latest_u64 args = do val ← latest_u256 args; expect (c.eth.as_u64 val)

  unfoldable pub attest_validity_seconds : Result c.RpcError ℕ
  attest_validity_seconds = latest_u64 (c.encode (c.new_encoder "attestValiditySeconds"))

  unfoldable pub prover_status : Sh160 → Result c.RpcError ℕ
  prover_status addr = latest_u64 (c.encode (c.add_address (c.new_encoder "attestedProvers") addr))

  -- The body that `verify_mrenclave` and `verify_mrsigner` share.
  abbrev pub latest_nonzero : Bytes → Result (VerifierError c) Bool
  latest_nonzero args = do val ← map_err rpc_failed (latest_u256 args); ok (not (val == 0))

  unfoldable pub verify_mrenclave : Bytes → Result (VerifierError c) Bool
  verify_mrenclave mrenclave =
      latest_nonzero (c.encode (c.add_hash (c.new_encoder "verifyMrEnclave") mrenclave))

  unfoldable pub verify_mrsigner : Bytes → Result (VerifierError c) Bool
  verify_mrsigner mrsigner =
      latest_nonzero (c.encode (c.add_hash (c.new_encoder "verifyMrSigner") mrsigner))

  unfoldable pub send_tx : c.PrivateKey → Bytes → Result (VerifierError c) c.Receipt
  send_tx signer args = do
    receipt ← map_err rpc_failed (n.send signer (some v.to) 0 args)
    ok_or (n.wait_finished receipt) tx_aborted

  unfoldable pub submit_attestation_report :
      c.PrivateKey → Sh160 → Bytes → Result (VerifierError c) Sh256
  submit_attestation_report relay prover report = do
    let encoder = c.add_address (c.new_encoder "submitAttestationReport") prover
    receipt ← send_tx relay (c.encode (c.add_bytes encoder report))
    ok (c.transaction_hash receipt)

  unfoldable pub verify_report_on_chain : Sh160 → Bytes → Result c.RpcError Bool
  verify_report_on_chain prover report = do
    let encoder = c.add_address (c.new_encoder "verifyAttestation") prover
    val ← latest_u64 (c.encode (c.add_bytes encoder report))
    ok (val == 1)

  unfoldable pub commit_batch : c.PrivateKey → ℕ → Bytes → Result (VerifierError c) Sh256
  commit_batch relay batch_id report = do
    let encoder = c.add_u256 (c.new_encoder "commitBatch") batch_id
    receipt ← send_tx relay (c.encode (c.add_bytes encoder report))
    ok (c.transaction_hash receipt)

  unfoldable pub recover_poe : Bytes → Result c.RpcError Sh160
  recover_poe poe = do
    let encoder = c.add_bytes (c.new_encoder "recoverPoe") poe
    val ← n.call_hash (record { to = v.to; call_data = c.encode encoder })
    low ← slice_from val 12
    copy_from_slice 20 low

  unfoldable pub l2_chain_id : Result c.RpcError ℕ
  l2_chain_id = latest_u64 (c.encode (c.new_encoder "layer2ChainId"))

  -- `report_data[44..].copy_from_slice(..)`, of 64 zero bytes.
  unfoldable pub report_data : Sh160 → Result (VerifierError c) Bytes
  report_data prover_key = do low ← copy_from_slice 20 prover_key; ok (replicate 44 0 ++ low)

  -- The test of the measurements of the quote.
  unfoldable pub check_metadata : c.Quote → Result (VerifierError c) (Unit {0})
  check_metadata quote = do
    pass_mrenclave ← verify_mrenclave (c.get_mr_enclave quote)
    pass_mrsigner ← verify_mrsigner (c.get_mr_signer quote)
    if pass_mrenclave && pass_mrsigner
        then ok tt
        else err (not_trusted pass_mrenclave pass_mrsigner)

  -- `generate_prover_report`; `tstd` is the feature of the build.
  unfoldable pub generate_prover_report : Bool → Sh160 → Bool → Result (VerifierError c) Bytes
  generate_prover_report tstd prover_key check_report_metadata = do
    metadata ← report_data prover_key
    let quoted = map_err quote_failed (n.generate_quote metadata)
    if tstd
        then (do
          quote ← quoted
          if check_report_metadata then check_metadata quote else ok tt
          _ ← map_err rpc_failed (verify_report_on_chain prover_key (c.quote_to_bytes quote))
          ok (c.quote_to_bytes quote))
        else err no_attestation_report

-- ===== src/Linea/Engine.antt =====
-- `impl Engine for Linea` of src/common/linea/src/engine.rs: the author of a block and the receipts.
pub mod Laws
use linea_sgx_prover.Prelude.{
  ℕ, ◌-◌, Option, some, List, [], Bool, leb, if◌then◌else◌, length, take, map,
}
use linea_sgx_prover.Prelude.Results.{Result, ok, panic, ok_or, ◌>>=◌, ◌>>◌}
use linea_sgx_prover.Bytes.{Bytes, slice_from, copy_from_slice}
use linea_sgx_prover.EthTypes.{Sh160, Sh256}
use linea_sgx_prover.Linea.Attestation.{add_u64}

-- `BlockHeader` of the crate `eth_types`, as the engine reads it.
pub record BlockHeader : Type 0 where
  pub parent_hash : Sh256
  pub sha3_uncles : Sh256
  pub miner : Sh160
  pub state_root : Sh256
  pub transactions_root : Sh256
  pub receipts_root : Sh256
  pub logs_bloom : Bytes
  pub difficulty : ℕ
  pub number : ℕ
  pub gas_limit : ℕ
  pub gas_used : ℕ
  pub timestamp : ℕ
  pub extra_data : Bytes
  pub mix_hash : Sh256
  pub nonce : Bytes
  pub base_fee_per_gas : ℕ

-- `rlp::RlpStream`, and `Encodable` for the types of the fields.
pub record RlpStream : Type 1 where
  pub Stream : Type 0
  pub new_list : ℕ → Stream
  pub append_bytes : Bytes → Stream → Stream
  pub append_uint : ℕ → Stream → Stream
  pub out : Stream → Bytes

-- The keys of the crate `crypto`.
pub record Ecdsa : Type 1 where
  pub PublicKey : Type 0
  pub recover : Bytes → Bytes → Option Bytes
  pub from_raw_bytes : Bytes → PublicKey
  pub account_id : PublicKey → Sh160

pub data EngineError : Type 0 where
  fail_to_ecrecover : EngineError

module _ (rlp : RlpStream) (keccak : Bytes → Bytes) where
  -- The fields under the seal, with the given extra data.
  unfoldable pub seal_stream : BlockHeader → Bytes → Bytes
  seal_stream header extra_data =
      let s = rlp.new_list 16 in
      let s = rlp.append_bytes header.parent_hash s in
      let s = rlp.append_bytes header.sha3_uncles s in
      let s = rlp.append_bytes header.miner s in
      let s = rlp.append_bytes header.state_root s in
      let s = rlp.append_bytes header.transactions_root s in
      let s = rlp.append_bytes header.receipts_root s in
      let s = rlp.append_bytes header.logs_bloom s in
      let s = rlp.append_uint header.difficulty s in
      let s = rlp.append_uint header.number s in
      let s = rlp.append_uint header.gas_limit s in
      let s = rlp.append_uint header.gas_used s in
      let s = rlp.append_uint header.timestamp s in
      let s = rlp.append_bytes extra_data s in
      let s = rlp.append_bytes header.mix_hash s in
      let s = rlp.append_bytes header.nonce s in
      let s = rlp.append_uint header.base_fee_per_gas s in rlp.out s

  -- `seal_hash`, without the last 65 bytes of the extra data.
  unfoldable pub seal_hash : {E : Type 0} → BlockHeader → Result E Bytes
  seal_hash header =
      if leb 65 (length header.extra_data)
      then ok (keccak (seal_stream header (take (length header.extra_data - 65) header.extra_data)))
      else panic

  -- `author`.
  unfoldable pub author : Ecdsa → BlockHeader → Result EngineError (Option Sh160)
  author ec header = do
    let extra_data = header.extra_data
    seal ←
        if leb 65 (length extra_data) then slice_from extra_data (length extra_data - 65) else panic
    sig_array ← copy_from_slice 65 seal
    msg ← seal_hash header
    pub_key_array ← ok_or (ec.recover sig_array msg) fail_to_ecrecover
    ok (some (ec.account_id (ec.from_raw_bytes pub_key_array)))

-- `Log` of the crate `eth_types`: what the engine does not read of it is its content.
pub record ReceiptLog : Type 0 where
  pub content : Bytes
  pub transaction_hash : Sh256

-- `ExecuteResult` of the crate `evm_executor`.
pub record ExecuteResult : Type 0 where
  pub is_success : Bool
  pub used_gas : ℕ
  pub logs : List ReceiptLog

-- `Receipt` of the crate `eth_types`, less the fields that stay `None`.
pub record Receipt : Type 0 where
  pub status : ℕ
  pub transaction_hash : Sh256
  pub transaction_index : ℕ
  pub tx_type : ℕ
  pub gas_used : ℕ
  pub cumulative_gas_used : ℕ
  pub logs : List ReceiptLog
  pub logs_bloom : Bytes

-- `build_receipt`, of a transaction with this hash and type; `bloom` is `create_bloom`.
unfoldable pub build_receipt :
    {E : Type 0} → (Receipt → Bytes) → ℕ → ExecuteResult → ℕ → Sh256 → ℕ → Result E Receipt
build_receipt bloom cumulative_gas_used result tx_idx tx_hash ty = do
  cumulative ← add_u64 cumulative_gas_used result.used_gas
  let receipt : Receipt = record {
    status = if result.is_success then 1 else 0;
    transaction_hash = tx_hash;
    transaction_index = tx_idx;
    tx_type = ty;
    gas_used = result.used_gas;
    cumulative_gas_used = cumulative;
    logs =
        map {A = ReceiptLog} {B = ReceiptLog} (λ n. record n { transaction_hash = tx_hash })
          result.logs;
    logs_bloom = [];
  }
  ok (record receipt { logs_bloom = bloom receipt })

-- `new_block_header`.
abbrev pub new_block_header : BlockHeader → BlockHeader
new_block_header prev_header = prev_header

-- The fields of `TxContext` that `tx_context` sets, from the header.
pub record TxContext : Type 0 where
  pub header : BlockHeader
  pub block_base_fee : ℕ
  pub difficulty : ℕ

unfoldable pub tx_context : TxContext → TxContext
tx_context ctx = record ctx {
  block_base_fee = ctx.header.base_fee_per_gas;
  difficulty = ctx.header.difficulty;
}

-- `process_withdrawals` leaves the state as it is.
abbrev pub process_withdrawals : {S W E : Type 0} → S → List W → Result E S
process_withdrawals statedb withdrawals = ok statedb

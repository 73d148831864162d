-- ===== src/Linea/Blocks.antt =====
-- src/common/linea/src: the block hashes, the retries and the transactions of block_executor.rs,
-- and the batches that batch_task.rs reads from logs.
pub mod Laws
use Prim.Native.String.{String}
use linea_sgx_prover.Prelude.{
  ℕ, zero, suc, ◌+◌, ◌-◌, ◌*◌, ◌^◌, Option, none, some, List, [], ◌∷◌, Bool, ◌||◌, leb, ltb,
  if◌then◌else◌, get_elem?,
}
use linea_sgx_prover.Prelude.Results
use linea_sgx_prover.Prelude.Results.{Result, ok, err, panic, expect, ◌>>=◌}
use linea_sgx_prover.Bytes.{bytes_eq}
use linea_sgx_prover.BtreeMap
use linea_sgx_prover.BtreeMap.{Map, nat_ord}
use linea_sgx_prover.EthTypes.{EthTypes, Sh256}
use linea_sgx_prover.Zktrie.Types.{zero_hash}

-- The test of both `get_hash`. `saturating_sub` is the subtraction of ℕ.
abbrev pub out_of_range : ℕ → ℕ → Bool
out_of_range current target = leb current target || ltb target (current - 256)

abbrev pub hash_or_default : Option Sh256 → Sh256
hash_or_default (some h) = h
hash_or_default none = zero_hash

-- `BlockHashCache::get_hash`.
unfoldable pub cached_hash : Map ℕ Sh256 → ℕ → ℕ → Sh256
cached_hash cache current target =
    if out_of_range current target then zero_hash else hash_or_default (BtreeMap.get target cache)

-- `BuilderFetcher::get_hash`, given what the client answers for a block: the hash of its header, or
-- nothing for an error. The cache is behind a lock that is held for each access alone.
unfoldable pub fetch_hash : (ℕ → Option Sh256) → ℕ → ℕ → Map ℕ Sh256 → Sh256 × Map ℕ Sh256
fetch_hash client current target cache =
    if out_of_range current target then (zero_hash, cache) else elim (BtreeMap.get target cache) [
      | some hash ↦ (hash, cache)
      | none ↦ elim (client target) [
        | some hash ↦ (hash, BtreeMap.insert target hash cache)
        | none ↦ (zero_hash, cache)
      ]
    ]

-- The loop of `retry`, over the results of the calls in their order; `error` is the last error.
unfoldable pub retry_from : {E A : Type 0} → ℕ → (ℕ → Result E A) → ℕ → Option E → Result E A
retry_from zero f i none = panic
retry_from zero f i (some e) = err e
retry_from (suc n) f i error = elim (f i) [
  | ok a ↦ ok a
  | err e ↦ retry_from n f (suc i) (some e)
  | panic ↦ panic
]

-- `retry`, of calls whose `i`-th gives `f i`.
unfoldable pub retry : {E A : Type 0} → ℕ → (ℕ → Result E A) → Result E A
retry n f = retry_from n f 0 none

-- A checked subtraction of `u64`.
abbrev pub sub_u64 : {E : Type 0} → ℕ → ℕ → Result E ℕ
sub_u64 a b = if leb b a then ok (a - b) else panic

-- A product of `u64` that must fit.
abbrev pub mul_u64 : {E : Type 0} → ℕ → ℕ → Result E ℕ
mul_u64 a b = if ltb (a * b) (2 ^ 64) then ok (a * b) else panic

-- What `preprocess_txs` uses of a transaction, the type `Transaction` of the crate `eth_types`.
pub record Transactions : Type 1 where
  pub Tx : Type 0
  pub Inner : Type 0
  pub type_of : Tx → ℕ
  pub v : Tx → ℕ
  pub with_v : Tx → ℕ → Tx
  pub inner : Tx → Option Inner

module _ (t : Transactions) where
  -- The repair of the field `v` that Besu gives: `v - chain_id * 2 - 8 - 27`.
  unfoldable pub repair : {E : Type 0} → ℕ → t.Tx → Result E t.Tx
  repair chain_id tx =
      if ltb 0 (t.type_of tx)
      then (if ltb 1 (t.v tx)
          then (do
            twice ← mul_u64 chain_id 2
            a ← sub_u64 (t.v tx) twice
            b ← sub_u64 a 8
            c ← sub_u64 b 27
            ok (t.with_v tx c))
          else ok tx)
      else ok tx

  -- `preprocess_txs`.
  unfoldable pub preprocess_txs : ℕ → List t.Tx → Result String (List t.Inner)
  preprocess_txs chain_id [] = ok []
  preprocess_txs chain_id (tx ∷ txs) = do
    repaired ← repair chain_id tx
    inner_tx ← Results.ok_or (t.inner repaired) "invalid transaction"
    rest ← preprocess_txs chain_id txs
    ok (inner_tx ∷ rest)

pub record BatchTask : Type 0 where
  pub data_hash : Sh256
  pub blocks : List ℕ

-- What `subscribe` reads of a log.
pub record Log : Type 0 where
  pub topics : List Sh256
  pub transaction_hash : Sh256

-- `(start..=end).collect()`, by the number of elements.
unfoldable pub count_from : ℕ → ℕ → List ℕ
count_from zero start = []
count_from (suc n) start = start ∷ count_from n (start + 1)

unfoldable pub inclusive : ℕ → ℕ → List ℕ
inclusive start end = count_from ((end + 1) - start) start

module _ (eth : EthTypes) where
  -- The block number of a topic.
  unfoldable pub topic_block : {E : Type 0} → Log → ℕ → Result E ℕ
  topic_block log i = do
    topic ← expect (get_elem? log.topics i)
    expect (eth.as_u64 (eth.from_big_endian topic))

  -- One round of the handler: both branches set the whole task, and the first only remembers the
  -- transaction too.
  unfoldable pub read_log :
      {E : Type 0} → Log → BatchTask × Option Sh256 → Result E (BatchTask × Option Sh256)
  read_log log (task, tmp_tx) = do
    let current_tx : Sh256 = elim tmp_tx [ some hash ↦ hash | none ↦ log.transaction_hash ]
    start_block ← topic_block log 2
    end_block ← topic_block log 3
    hash ← expect (get_elem? log.topics 1)
    if bytes_eq log.transaction_hash current_tx
        then ok (
          record task { data_hash = hash; blocks = inclusive start_block end_block },
          some current_tx,
        )
        else ok (
          record { data_hash = hash; blocks = inclusive start_block end_block },
          some log.transaction_hash,
        )

  unfoldable pub read_logs : {E : Type 0} → List Log → BatchTask × Option Sh256 → Result E BatchTask
  read_logs [] (task, tmp_tx) = ok task
  read_logs (log ∷ logs) acc = do next ← read_log log acc; read_logs logs next

  -- The handler of `subscribe`: the task that it passes on.
  unfoldable pub batch_task : {E : Type 0} → List Log → Result E BatchTask
  batch_task logs = read_logs logs (record { data_hash = zero_hash; blocks = [] }, none)

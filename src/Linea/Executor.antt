-- ===== src/Linea/Executor.antt =====
-- src/common/linea/src/block_executor.rs: `BlockExecutor`, which collects what a block needs and
-- executes it. Its transactions, retries and block hashes are in the module Blocks.
pub mod Laws
pub mod Requests
use Prim.Native.String.{String}
use linea_sgx_prover.Prelude.{
  ℕ, Option, none, some, List, [], ◌∷◌, ◌++◌, ◌==◌, ltb, if◌then◌else◌, get_elem?,
}
use linea_sgx_prover.Prelude.Results.{Result, ok, err, expect, map_err, unwrap, ◌>>=◌}
use linea_sgx_prover.Bytes.{Bytes}
use linea_sgx_prover.BtreeMap.{Map, nat_ord, bytes_ord, or_insert, insert, keys}
use linea_sgx_prover.BtreeMap.Groups.{BtreeSet, touch, add_to}
use linea_sgx_prover.EthTypes.{Sh160, Sh256}
use linea_sgx_prover.Zktrie.Types.{Env, zero_hash}
use linea_sgx_prover.Zktrie.Trace.{Trace, old_top_hash}
use linea_sgx_prover.Linea.State.{ZkTrieState, new_from_trace}
use linea_sgx_prover.Linea.Blocks.{Transactions, preprocess_txs, retry, sub_u64, cached_hash}

-- What is read of an account that the tracer of the node reports for a transaction.
pub record PreAccount : Type 0 where
  pub code : Bytes
  pub storage : List Sh256

-- `TransactionAccessTuple`.
pub record AccessTuple : Type 0 where
  pub address : Sh160
  pub storage_keys : List Sh256

-- What the crates `eth_types`, `eth_tools`, `evm_executor` and `mpt` give.
pub record Evm : Type 1 where
  pub txs : Transactions
  pub Header : Type 0
  pub Withdrawal : Type 0
  pub Block : Type 0
  pub State : Type 0
  pub RpcError : Type 0
  pub CommitError : Type 0
  pub number : Header → ℕ
  -- `mpt::Database`.
  pub Db : Type 0
  pub new_db : Db
  pub fork : Db → Db
  pub resume_node : Bytes → Db → Db
  pub resume_code : Bytes → Db → Db
  pub commit_db : Db → Db
  -- `mpt::TrieState::new((), ..)`.
  pub TrieState : Type 0
  pub trie_state : Sh256 → Db → TrieState
  pub keccak : Bytes → Bytes

-- A block as `BlockExecutor` reads it.
pub record FullBlock (e : Evm) : Type 0 where
  pub header : e.Header
  pub transactions : List e.txs.Tx
  pub withdrawals : Option (List e.Withdrawal)

-- `Pob` of the crate `evm_executor`, with its data.
pub record Pob (e : Evm) : Type 0 where
  pub chain_id : ℕ
  pub block : FullBlock e
  pub prev_state_root : Sh256
  pub block_hashes : Map ℕ Sh256
  pub codes : List Bytes
  pub mpt_nodes : List Bytes

-- `BlockBuilder` over a state `S` and a getter `G` of block hashes. `hashes` are those that the
-- getter has cached and `collected` the nodes of the state's fetcher, in the order of their keys.
pub record Builders (e : Evm) (S G : Type 0) : Type 1 where
  pub Builder : Type 0
  pub new : S → G → e.Header → Result String Builder
  pub commit : e.txs.Inner → Builder → Result e.CommitError Builder
  pub withdrawal : List e.Withdrawal → Builder → Result e.CommitError Builder
  pub flush_state : Builder → Result e.CommitError (Sh256 × Builder)
  pub finalize : Builder → Result e.CommitError e.Block
  pub hashes : Builder → Map ℕ Sh256
  pub collected : Builder → List Bytes

-- The client of the node, and `Pob::from_proof`.
pub record Client (e : Evm) : Type 0 where
  pub trace_prestate : ℕ → Result e.RpcError (List (Option (List (Sh160 × PreAccount))))
  pub get_block : ℕ → Result e.RpcError (FullBlock e)
  pub fetch_states : List AccessTuple → ℕ → Result e.RpcError (List e.State)
  pub header_state_root : ℕ → Result e.RpcError Sh256
  pub from_proof : ℕ → FullBlock e → Sh256 → Map ℕ Sh256 → Map Sh256 Bytes → List e.State → Pob e

-- The keys of an account, each put into its set.
unfoldable pub add_keys :
    Sh160 → List Sh256 → Map Sh160 (BtreeSet Sh256) → Map Sh160 (BtreeSet Sh256)
add_keys addr [] unique = unique
add_keys addr (key ∷ ks) unique = add_keys addr ks (add_to addr key unique)

module _ (e : Evm) where
  -- What `fetch_prestate` collects: the slots of each account, and the codes by their hash.
  abbrev pub Collected : Type 0
  Collected = Map Sh160 (BtreeSet Sh256) × Map Sh256 Bytes

  -- The loop over the accounts of a transaction.
  unfoldable pub collect_accounts : List (Sh160 × PreAccount) → Collected → Collected
  collect_accounts [] c = c
  collect_accounts ((addr, acc) ∷ result) (unique, codes) = collect_accounts result (
    add_keys addr acc.storage (touch addr unique),
    (or_insert (e.keccak acc.code) acc.code codes).0,
  )

  -- The loop over the transactions.
  unfoldable pub collect_txs : List (Option (List (Sh160 × PreAccount))) → Collected → Collected
  collect_txs [] c = c
  collect_txs (none ∷ txs) c = collect_txs txs c
  collect_txs (some result ∷ txs) c = collect_txs txs (collect_accounts result c)

  -- `fetch_reqs`.
  unfoldable pub fetch_reqs : Map Sh160 (BtreeSet Sh256) → List AccessTuple
  fetch_reqs [] = []
  fetch_reqs ((key, acc) ∷ unique) =
      record { address = key; storage_keys = keys acc } ∷ fetch_reqs unique

  unfoldable pub fetch_prestate : ℕ → Client e → ℕ → Result e.RpcError (Pob e)
  fetch_prestate chain_id client block = do
    txs ← client.trace_prestate block
    let collected = collect_txs txs ([], [])
    blk ← client.get_block block
    prev_block ← sub_u64 (e.number blk.header) 1
    states ← client.fetch_states (fetch_reqs collected.0) prev_block
    prev_state_root ←
        if ltb 0 (e.number blk.header) then client.header_state_root prev_block else ok zero_hash
    ok (client.from_proof chain_id blk prev_state_root [] collected.1 states)

  unfoldable pub resume_nodes : List Bytes → e.Db → e.Db
  resume_nodes [] db = db
  resume_nodes (node ∷ nodes) db = resume_nodes nodes (e.resume_node node db)

  unfoldable pub resume_codes : List Bytes → e.Db → e.Db
  resume_codes [] db = db
  resume_codes (code ∷ codes) db = resume_codes codes (e.resume_code code db)

  unfoldable pub resume_db : Pob e → e.Db → e.Db
  resume_db pob db = e.commit_db (resume_codes pob.codes (resume_nodes pob.mpt_nodes db))

  module _ {S G : Type 0} (b : Builders e S G) where
    -- The loop of `commit(..)` over the transactions, in their order, up to the first that fails.
    unfoldable pub commit_txs : List e.txs.Inner → b.Builder → Result e.CommitError b.Builder
    commit_txs [] builder = ok builder
    commit_txs (tx ∷ txs) builder = do next ← b.commit tx builder; commit_txs txs next

  -- The errors of `generate_pob`.
  pub data PobError : Type 0 where
    rpc_failed : e.RpcError → PobError
    commit_failed : e.CommitError → PobError
    failed : String → PobError

  -- `BTreeMap::insert` of each block hash.
  unfoldable pub insert_hashes : Map ℕ Sh256 → Map ℕ Sh256 → Map ℕ Sh256
  insert_hashes [] m = m
  insert_hashes ((block_no, hash) ∷ hs) m = insert_hashes hs (insert block_no hash m)

  -- `generate_pob`, with the client as each try of `fetch_prestate` meets it, by its index, and the
  -- hashes of the headers as `BuilderFetcher` meets them. The state of the builder collects nodes
  -- from the client at the block before, and starts from the root and the database.
  module _ {S : Type 0} (collector : ℕ → Sh256 → e.Db → S)
      (b : Builders e S (ℕ → Option Sh256)) where
    unfoldable pub generate_pob :
        ℕ → (ℕ → Client e) → (ℕ → Option Sh256) → ℕ → Result PobError (Pob e)
    generate_pob chain_id client header_hash block = do
      pob ← map_err rpc_failed (retry 3 (λ i. fetch_prestate chain_id (client i) block))
      prev_block ← sub_u64 (e.number pob.block.header) 1
      let db = resume_db pob e.new_db
      builder ←
          map_err failed
            (b.new (collector prev_block pob.prev_state_root db) header_hash pob.block.header)
      txs ← map_err failed (preprocess_txs e.txs chain_id pob.block.transactions)
      committed ← map_err commit_failed (commit_txs b txs builder)
      flushed ← map_err commit_failed (b.flush_state committed)
      ok (record pob {
        mpt_nodes = pob.mpt_nodes ++ b.collected flushed.1;
        block_hashes = insert_hashes (b.hashes flushed.1) pob.block_hashes;
      })

  -- The errors of `execute`, whose message has both chain ids.
  pub data ExecuteError : Type 0 where
    chain_id_mismatch : ℕ → ℕ → ExecuteError
    message : String → ExecuteError

  module _ (b : Builders e e.TrieState (ℕ → ℕ → Sh256)) where
    -- `execute`, of an engine with this chain id.
    unfoldable pub execute : ℕ → e.Db → Pob e → Result ExecuteError e.Block
    execute engine_chain_id db pob = do
      let forked = resume_db pob (e.fork db)
      let run = (do
        builder ← map_err message (
            b.new (e.trie_state pob.prev_state_root forked) (cached_hash pob.block_hashes)
              pob.block.header)
        txs ← map_err message (preprocess_txs e.txs engine_chain_id pob.block.transactions)
        committed ← unwrap (commit_txs b txs builder)
        done ← elim pob.block.withdrawals [
          | none ↦ ok committed
          | some withdrawals ↦ unwrap (b.withdrawal withdrawals committed)
        ]
        unwrap (b.finalize done))
      if pob.chain_id == engine_chain_id
          then run
          else err (chain_id_mismatch pob.chain_id engine_chain_id)

  -- `execute_v2`, for a state over a database of the sparse trie; the root is only logged.
  unfoldable pub execute_v2 :
      {D : Type 0}
      → Env
      → Builders e (ZkTrieState D) (ℕ → ℕ → Sh256)
      → ℕ
      → D
      → List Trace
      → FullBlock e
      → Result PobError (Unit {0})
  execute_v2 env b chain_id db traces block = do
    first ← expect (get_elem? traces 0)
    root ← old_top_hash env first
    statedb ← new_from_trace env db first
    builder ← map_err failed (b.new statedb (cached_hash []) block.header)
    txs ← map_err failed (preprocess_txs e.txs chain_id block.transactions)
    committed ← unwrap (commit_txs b txs builder)
    flushed ← map_err commit_failed (b.flush_state committed)
    ok tt

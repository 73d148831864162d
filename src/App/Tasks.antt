-- ===== src/App/Tasks.antt =====
-- The tasks of src/apps/prover/src/apps.rs: the handler of a block, the submission of a proof of
-- execution, and the methods of `Api`.
pub mod Laws
use Prim.Native.String.{String}
use linea_sgx_prover.Prelude.{ℕ, Option, none, some, List, [], ◌∷◌, ltb, if◌then◌else◌}
use linea_sgx_prover.Prelude.Results.{Result, ok, err, expect, map_err, ◌>>=◌, ◌>>◌}
use linea_sgx_prover.Bytes.{Bytes}
use linea_sgx_prover.EthTypes.{Sh256}
use linea_sgx_prover.Zktrie.Types.{zero_hash}
use linea_sgx_prover.Linea.Blocks.{BatchTask, inclusive}
use linea_sgx_prover.Linea.Executor.{
  Evm, Pob, Builders, Client, PobError, ExecuteError, generate_pob, execute,
}
use linea_sgx_prover.Linea.Verifier.{Chain, Node, Verifier, VerifierError, commit_batch}
use linea_sgx_prover.Linea.Attestation.{Clock, Prover}
use linea_sgx_prover.App.{Poes, PoeError, generate_poe}

-- `Poe` of the crate `evm_executor`, the roots in headers and blocks, and the messages of errors.
pub record PoeCrate (e : Evm) (c : Chain) : Type 1 where
  pub Poe : Type 0
  pub state_hash : Pob e → Sh256
  pub single_block : Sh256 → Sh256 → Sh256 → Sh256 → Poe
  pub new_state_root : Poe → Sh256
  pub batch : Sh256 → List Poe → Result String Poe
  pub sign : ℕ → c.PrivateKey → Poe → Poe
  pub encode : Poe → Bytes
  pub header_root : e.Header → Sh256
  pub block_root : e.Block → Sh256
  pub pob_message : PobError e → String
  pub execute_message : ExecuteError e → String

pub data TaskError (e : Evm) (c : Chain) : Type 0 where
  chain_id_failed : e.RpcError → TaskError e c
  invalid_block_range : ℕ → ℕ → TaskError e c
  poe_failed : PoeError → TaskError e c
  submit_failed : VerifierError c → TaskError e c

module _ (e : Evm) (c : Chain) (pc : PoeCrate e c) where
  -- What `generate_poe` uses, for a chain and the key of the prover.
  abbrev pub poes : ℕ → c.PrivateKey → Poes
  poes chain_id key = record {
    Block = e.Block;
    Poe = pc.Poe;
    state_root = pc.block_root;
    new_state_root = pc.new_state_root;
    batch = pc.batch;
    sign = pc.sign chain_id key;
  }

  -- `submit_poe`, with the relay account of the configuration.
  unfoldable pub submit_poe :
      Verifier → Node c → c.PrivateKey → BatchTask → pc.Poe → Result (VerifierError c) (Unit {0})
  submit_poe v n relay task poe = do
    batch_id ← expect (last task.blocks)
    hash ← commit_batch c v n relay batch_id (pc.encode poe)
    ok tt
    where
      last : List ℕ → Option ℕ
      last [] = none
      last (x ∷ []) = some x
      last (x ∷ y ∷ xs) = last (y ∷ xs)

  -- The clients as the handlers of the blocks meet them, and the builders.
  module _ {S : Type 0} (collector : ℕ → Sh256 → e.Db → S)
      (collecting : Builders e S (ℕ → Option Sh256))
      (executing : Builders e e.TrieState (ℕ → ℕ → Sh256)) (clients : ℕ → ℕ → Client e)
      (header_hashes : ℕ → ℕ → Option Sh256) where
    -- `handle` of `generate_poe`, for a block.
    unfoldable pub handle : ℕ → ℕ → Result String (e.Block × pc.Poe)
    handle chain_id blk = do
      pob ←
          map_err pc.pob_message
            (generate_pob e collector collecting chain_id (clients blk) (header_hashes blk) blk)
      block ← map_err pc.execute_message (execute e executing chain_id e.new_db pob)
      ok (
        block,
        pc.single_block (pc.state_hash pob) pob.prev_state_root (pc.header_root pob.block.header)
            zero_hash,
      )

    -- `generate_poe` with this handler, for the order in which the handlers end.
    unfoldable pub task_poe : ℕ → c.PrivateKey → List ℕ → BatchTask → Result PoeError pc.Poe
    task_poe chain_id key order task = generate_poe (poes chain_id key) (handle chain_id) order task

    module _ (l2_chain_id : Result e.RpcError ℕ) {clock : Clock} (prover : Prover c clock) where
      unfoldable pub execute_task :
          Verifier → Node c → c.PrivateKey → List ℕ → BatchTask → Result (TaskError e c) (Unit {0})
      execute_task v n relay order task = do
        chain_id ← map_err chain_id_failed l2_chain_id
        poe ← map_err poe_failed (task_poe chain_id prover.prvkey order task)
        map_err submit_failed (submit_poe v n relay task poe)

      -- `Api::prove`.
      unfoldable pub prove : List ℕ → ℕ → ℕ → Result (TaskError e c) pc.Poe
      prove order start end = do
        let proved = (do
          chain_id ← map_err chain_id_failed l2_chain_id
          let task : BatchTask = record { data_hash = zero_hash; blocks = inclusive start end }
          map_err poe_failed (task_poe chain_id prover.prvkey order task))
        if ltb end start then err (invalid_block_range start end) else proved

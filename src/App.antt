-- ===== src/App.antt =====
-- The checks of src/apps/prover/src/apps.rs that stand between the execution of the blocks of a
-- task and the proof of execution that is signed.
pub mod Laws
pub mod Handlers
pub mod Tasks
pub mod Traces
pub mod Args
use Prim.Native.String.{String}
use linea_sgx_prover.Prelude.{ℕ, List, [], ◌∷◌, ◌==◌, if◌then◌else◌, length}
use linea_sgx_prover.Prelude.Results.{Result, ok, err, panic, ◌>>=◌}
use linea_sgx_prover.Bytes.{bytes_eq}
use linea_sgx_prover.BtreeMap
use linea_sgx_prover.BtreeMap.{Map, nat_ord}
use linea_sgx_prover.EthTypes.{Sh256}
use linea_sgx_prover.Linea.Blocks.{BatchTask}

-- What `generate_poe` uses of blocks and of `Poe`, which other crates define.
pub record Poes : Type 1 where
  pub Block : Type 0
  pub Poe : Type 0
  pub state_root : Block → Sh256
  pub new_state_root : Poe → Sh256
  pub batch : Sh256 → List Poe → Result String Poe
  -- With the chain and the key of the prover.
  pub sign : Poe → Poe

pub data PoeError : Type 0 where
  some_task_failed state_root_mismatch : PoeError
  failed : String → PoeError

module _ (p : Poes) where
  -- The result of the handler of a block.
  abbrev pub Outcome : Type 0
  Outcome = Result String (p.Block × p.Poe)

  -- `batch_result.insert(blk, result)`: a handler that panics inserts nothing.
  unfoldable pub keep : ℕ → Outcome → Map ℕ Outcome → Map ℕ Outcome
  keep blk (ok r) m = BtreeMap.insert blk (ok r) m
  keep blk (err e) m = BtreeMap.insert blk (err e) m
  keep blk panic m = m

  -- `parallel`: the handlers in the order in which they end.
  unfoldable pub run_handlers : (ℕ → Outcome) → List ℕ → Map ℕ Outcome → Map ℕ Outcome
  run_handlers handle [] m = m
  run_handlers handle (blk ∷ blks) m = run_handlers handle blks (keep blk (handle blk) m)

  -- The loop over the results, in the order of the blocks.
  unfoldable pub collect_poes : Map ℕ Outcome → Result PoeError (List p.Poe)
  collect_poes [] = ok []
  collect_poes ((blk, err e) ∷ m) = err (failed e)
  collect_poes ((blk, panic) ∷ m) = panic
  collect_poes ((blk, ok (block, poe)) ∷ m) = do
    let rest = collect_poes m
    if bytes_eq (p.new_state_root poe) (p.state_root block)
        then (do poes ← rest; ok (poe ∷ poes))
        else err state_root_mismatch

  abbrev pub batch_error : Result String p.Poe → Result PoeError p.Poe
  batch_error (ok poe) = ok (p.sign poe)
  batch_error (err e) = err (failed e)
  batch_error panic = panic

  -- `generate_poe`, given the handler and the order in which the handlers end.
  unfoldable pub generate_poe : (ℕ → Outcome) → List ℕ → BatchTask → Result PoeError p.Poe
  generate_poe handle order task = do
    let results = run_handlers handle order []
    if length results == length task.blocks
        then (do poes ← collect_poes results; batch_error (p.batch task.data_hash poes))
        else err some_task_failed

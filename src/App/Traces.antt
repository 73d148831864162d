-- ===== src/App/Traces.antt =====
-- The proof from traces in src/apps/prover/src/apps.rs: `generate_poe_v2` and `Api::test`.
use Prim.Native.String.{String}
use linea_sgx_prover.Prelude.{ℕ, none, some, List, [], ◌∷◌, ◌==◌, if◌then◌else◌, length, get_elem?}
use linea_sgx_prover.Prelude.Results.{Result, ok, expect, unwrap, map_err, ◌>>=◌}
use linea_sgx_prover.Bytes.{Bytes, copy_from_slice}
use linea_sgx_prover.EthTypes.{Sh160, Sh256}
use linea_sgx_prover.Zktrie.Types as Zk
use linea_sgx_prover.Zktrie.Types.{Env}
use linea_sgx_prover.Zktrie.Trace
use linea_sgx_prover.Zktrie.Trace.{Trace, location, read_value}
use linea_sgx_prover.Zktrie.Store.{MemStore, from_traces, add_codes, add_proof, max_u64}
use linea_sgx_prover.Linea.Account
use linea_sgx_prover.Linea.State.{ZkTrieState, account_key}
use linea_sgx_prover.Linea.Blocks.{sub_u64}
use linea_sgx_prover.Linea.Executor.{Evm, FullBlock, Builders, PobError, execute_v2}
use linea_sgx_prover.Shomei.{
  MerkleAccountProof, Rpc, StateProofResp, inclusion, fetch_proof_by_traces, fetch_proof,
}

pub data TracesError (e : Evm) (r : Rpc) : Type 0 where
  shomei_failed : r.RpcError → TracesError e r
  l2_failed : e.RpcError → TracesError e r
  trie_failed : Zk.Error → TracesError e r
  execution_failed : PobError e → TracesError e r

module _ (env : Env) where
  -- The addresses of the accounts that the traces read.
  unfoldable pub code_addresses : {E : Type 0} → List Trace → Result E (List Sh160)
  code_addresses [] = ok []
  code_addresses (t ∷ ts) = do
    let rest = code_addresses ts
    let pushed = (do
      acc ← Account.from_bytes env (read_value t)
      addr ← copy_from_slice 20 (Trace.key t)
      codes ← rest
      ok (addr ∷ codes))
    if length (location t) == 0 then (if length (read_value t) == 0 then rest else pushed) else rest

  -- The loop over the proofs: one of an account that is absent is passed over.
  unfoldable pub add_account_proofs : List MerkleAccountProof → MemStore → Result Zk.Error MemStore
  add_account_proofs [] db = ok db
  add_account_proofs (proof ∷ proofs) db = do
    hkey ← account_key env proof.account_proof.key
    next ← elim (inclusion proof.account_proof) [
      | none ↦ ok db
      | some (leaf_index, p) ↦ (do
        added ← add_proof env max_u64 leaf_index hkey p.value p.proof_related_nodes db
        ok added.1)
    ]
    add_account_proofs proofs next

  -- The store of a block: the nodes of its traces, the codes and the proofs.
  unfoldable pub build_store :
      List Trace → List Bytes → List MerkleAccountProof → Result Zk.Error MemStore
  build_store traces codes proofs = do
    db ← from_traces env traces
    add_account_proofs proofs (add_codes env codes db)

  module _ (e : Evm) (r : Rpc) (selector : ℕ → r.Selector)
      (get_codes : List Sh160 → ℕ → Result e.RpcError (List Bytes))
      (b : Builders e (ZkTrieState MemStore) (ℕ → ℕ → Sh256)) where
    unfoldable pub generate_poe_v2 :
        ℕ → StateProofResp → FullBlock e → Result (TracesError e r) (Unit {0})
    generate_poe_v2 chain_id result block = do
      block_trace ← expect (get_elem? result.zk_state_merkle_proof 0)
      current_block ← sub_u64 (e.number block.header) 1
      proofs ← map_err shomei_failed (fetch_proof_by_traces r block_trace (selector current_block))
      addresses ← code_addresses block_trace
      codes ← map_err l2_failed (get_codes addresses current_block)
      db ← map_err trie_failed (build_store block_trace codes proofs)
      map_err execution_failed (execute_v2 e env b chain_id db block_trace block)

    -- `Api::test`, with the version of the Shomei client.
    unfoldable pub test :
        String
        → Result e.RpcError ℕ
        → (ℕ → Result e.RpcError (FullBlock e))
        → ℕ
        → Result (TracesError e r) (Unit {0})
    test version l2_chain_id get_block block_number = do
      result ← unwrap (fetch_proof r version block_number block_number)
      chain_id ← map_err l2_failed l2_chain_id
      block ← map_err l2_failed (get_block block_number)
      generate_poe_v2 chain_id result block

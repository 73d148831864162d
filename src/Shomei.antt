-- ===== src/Shomei.antt =====
-- src/common/shomei/src/client.rs: the requests to the state manager Shomei, and the proofs in its
-- answers. The rendering of a request as JSON is left to the client.
pub mod Laws
use Prim.Native.String.{String}
use linea_sgx_prover.Prelude.{ℕ, Option, none, some, List, [], ◌∷◌, ◌==◌, length, if◌then◌else◌}
use linea_sgx_prover.Prelude.Results.{Result, ok, ◌>>=◌}
use linea_sgx_prover.Bytes.{Bytes}
use linea_sgx_prover.BtreeMap.{Map, bytes_ord, keys}
use linea_sgx_prover.BtreeMap.Groups.{BtreeSet, touch, add_to}
use linea_sgx_prover.EthTypes.{Sh160, Sh256}
use linea_sgx_prover.Zktrie.Trace
use linea_sgx_prover.Zktrie.Trace.{Trace, location}

pub record Proof : Type 0 where
  pub value : Option Bytes
  pub proof_related_nodes : List Bytes

pub record MerkleProof : Type 0 where
  pub key : Bytes
  pub leaf_index : Option ℕ
  pub proof : Option Proof
  pub left_proof : Option Proof
  pub right_proof : Option Proof
  pub left_leaf_index : Option ℕ
  pub right_leaf_index : Option ℕ

pub record MerkleAccountProof : Type 0 where
  pub account_proof : MerkleProof
  pub storage_proofs : List MerkleProof

pub record StateProofReq : Type 0 where
  pub start_block_number : ℕ
  pub end_block_number : ℕ
  pub zk_state_manager_version : String

pub record StateProofResp : Type 0 where
  pub zk_parent_state_root_hash : Sh256
  pub zk_state_merkle_proof : List (List Trace)
  pub zk_state_manager_version : String
  pub zk_end_state_root_hash : Sh256

-- `MerkleProof::inclusion`.
unfoldable pub inclusion : MerkleProof → Option (ℕ × Proof)
inclusion p = elim p.proof [
  | none ↦ none
  | some proof ↦ elim p.leaf_index [ none ↦ none | some leaf_index ↦ some (leaf_index, proof) ]
]

-- The JSON-RPC connection: the two methods as the server answers them, and `BlockSelector`.
pub record Rpc : Type 1 where
  pub RpcError : Type 0
  pub Selector : Type 0
  pub get_proof : Bytes → List Bytes → Selector → Result RpcError MerkleAccountProof
  pub get_state_merkle_proof : StateProofReq → Result RpcError StateProofResp

-- The keys of the traces by the account that owns them. A trace without a location is of an account.
unfoldable pub group_keys : List Trace → Map Bytes (BtreeSet Bytes) → Map Bytes (BtreeSet Bytes)
group_keys [] acc_list = acc_list
group_keys (t ∷ ts) acc_list = group_keys ts (
    if length (location t) == 0
    then touch (Trace.key t) acc_list
    else add_to (location t) (Trace.key t) acc_list)

module _ (r : Rpc) where
  -- The loop over the requests, each with the block.
  unfoldable pub fetch_groups :
      List (Bytes × List Bytes × r.Selector) → Result r.RpcError (List MerkleAccountProof)
  fetch_groups [] = ok []
  fetch_groups ((acc, slots, blk) ∷ items) = do
    result ← r.get_proof acc slots blk
    out ← fetch_groups items
    ok (result ∷ out)

  -- `acc_list.into_iter().map(..).collect()`.
  unfoldable pub requests :
      Map Bytes (BtreeSet Bytes) → r.Selector → List (Bytes × List Bytes × r.Selector)
  requests [] blk = []
  requests ((acc, slots) ∷ acc_list) blk = (acc, keys slots, blk) ∷ requests acc_list blk

  unfoldable pub fetch_proof_by_traces :
      List Trace → r.Selector → Result r.RpcError (List MerkleAccountProof)
  fetch_proof_by_traces traces blk = fetch_groups (requests (group_keys traces []) blk)

  unfoldable pub fetch_account :
      Sh160 → List Sh256 → r.Selector → Result r.RpcError MerkleAccountProof
  fetch_account acc slots blk = r.get_proof acc slots blk

  -- With the version of the client.
  unfoldable pub fetch_proof : String → ℕ → ℕ → Result r.RpcError StateProofResp
  fetch_proof version start end = r.get_state_merkle_proof (record {
    start_block_number = start;
    end_block_number = end;
    zk_state_manager_version = version;
  })

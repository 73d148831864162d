-- ===== src/Tests/Proving.antt =====
-- The theorems on the collection, the execution and the proof of blocks, and on the seal of a block,
-- at concrete inputs: a node whose blocks are empty and have their number as their root.
use linea_sgx_prover.Prelude.{
  ℕ, ◌≤◌, ◌≡◌, Option, none, some, List, [], ◌∷◌, ◌++◌, refl, arith, replicate, true,
}
use linea_sgx_prover.Prelude.Results.{Result, ok, err}
use linea_sgx_prover.Bytes.{Bytes}
use linea_sgx_prover.BtreeMap
use linea_sgx_prover.BtreeMap.{Map, bytes_ord, nat_ord, contains_key}
use linea_sgx_prover.BtreeMap.Groups.{BtreeSet, any, same, has, touch, add_to}
use linea_sgx_prover.EthTypes.{Sh256}
use linea_sgx_prover.Zktrie.Trace
use linea_sgx_prover.Zktrie.Trace.{Trace, read_zero, location}
use linea_sgx_prover.Zktrie.Opening
use linea_sgx_prover.Shomei.{
  MerkleProof, MerkleAccountProof, Rpc, group_keys, requests, fetch_groups, fetch_proof_by_traces,
}
use linea_sgx_prover.Shomei.Laws.{Answered, owner, is_slot, fetch_proof_by_traces-Answered}
use linea_sgx_prover.Linea.Blocks.{inclusive, count_from, retry, retry_from, preprocess_txs, repair}
use linea_sgx_prover.Linea.Executor.{
  Evm, Pob, Builders, Client, fetch_prestate, collect_txs, collect_accounts, add_keys, fetch_reqs,
  generate_pob, resume_db, resume_nodes, resume_codes, commit_txs, insert_hashes, execute,
}
use linea_sgx_prover.Linea.Executor.Laws.{Requested, fetch_prestate-Requested}
use linea_sgx_prover.Linea.Attestation.{Clock, Prover}
use linea_sgx_prover.Linea.Engine.{BlockHeader, RlpStream, Ecdsa, author}
use linea_sgx_prover.Linea.Engine.Laws.{sealed, author-sealed}
use linea_sgx_prover.App.{generate_poe, run_handlers, keep, collect_poes}
use linea_sgx_prover.App.Tasks.{PoeCrate, handle, task_poe, prove}
use linea_sgx_prover.App.Tasks.Laws.{Proved, IsOrder, prove-Proved}
use linea_sgx_prover.Tests.Toys.{digest}
use linea_sgx_prover.Tests.Attestation.{chain}

abbrev evm : Evm
evm = record {
  txs = record {
    Tx = ℕ;
    Inner = ℕ;
    type_of = λ t. 0;
    v = λ t. 0;
    with_v = λ t v. v;
    inner = λ t. some t;
  };
  Header = ℕ;
  Withdrawal = ℕ;
  Block = Bytes;
  State = ℕ;
  RpcError = ℕ;
  CommitError = ℕ;
  number = λ h. h;
  Db = List Bytes;
  new_db = [];
  fork = λ db. db;
  resume_node = λ n db. n ∷ db;
  resume_code = λ n db. n ∷ db;
  commit_db = λ db. db;
  TrieState = Sh256;
  trie_state = λ root db. root;
  keccak = digest;
}

abbrev node : Client evm
node = record {
  trace_prestate = λ b.
      ok (
        some ((replicate 20 1, record { code = 3 ∷ []; storage = replicate 32 4 ∷ [] }) ∷ []) ∷ []);
  get_block = λ b. ok (record { header = b; transactions = 8 ∷ []; withdrawals = none });
  fetch_states = λ reqs b. ok [];
  header_state_root = λ b. ok (b ∷ []);
  from_proof = λ id b root hashes codes states. record {
    chain_id = id;
    block = b;
    prev_state_root = root;
    block_hashes = hashes;
    codes = [];
    mpt_nodes = [];
  };
}

abbrev pob_of : ℕ → ℕ → Pob evm
pob_of n root = record {
  chain_id = 59;
  block = record { header = n; transactions = 8 ∷ []; withdrawals = none };
  prev_state_root = root ∷ [];
  block_hashes = [];
  codes = [];
  mpt_nodes = [];
}

fetched : fetch_prestate evm 59 node 4 ≡ ok (pob_of 4 3)
unfolding fetch_prestate collect_txs collect_accounts add_keys fetch_reqs
fetched = refl

fetch_prestate-Requested_example : Requested evm 59 node 4 (pob_of 4 3)
fetch_prestate-Requested_example = fetch_prestate-Requested evm 59 node 4 fetched

abbrev builders : (S G : Type 0) → Builders evm S G
builders S G = record {
  Builder = ℕ;
  new = λ s g h. ok h;
  commit = λ t b. ok b;
  withdrawal = λ ws b. ok b;
  flush_state = λ b. ok (b ∷ [], b);
  finalize = λ b. ok (b ∷ []);
  hashes = λ b. [];
  collected = λ b. [];
}

abbrev poe_crate : PoeCrate evm chain
poe_crate = record {
  Poe = Bytes;
  state_hash = λ p. [];
  single_block = λ a b r w. r;
  new_state_root = λ p. p;
  batch = λ d ps. ok [];
  sign = λ id k p. k ∷ p;
  encode = λ p. p;
  header_root = λ h. h ∷ [];
  block_root = λ b. b;
  pob_message = λ e. "pob";
  execute_message = λ e. "execution";
}

abbrev clock : Clock
clock = record { Time = ℕ; is_after = λ a b n. true }

abbrev prover : Prover chain clock
prover = record { prvkey = 7; attested = true }

abbrev l2_chain_id : Result ℕ ℕ
l2_chain_id = ok 59

-- Block 5 ends first.
abbrev order : List ℕ
order = 5 ∷ 4 ∷ []

proved :
    prove evm chain poe_crate
      (λ n root db. root)
      (builders Sh256 (ℕ → Option Sh256))
      (builders Sh256 (ℕ → ℕ → Sh256))
      (λ b i. node)
      (λ b n. none)
      l2_chain_id
      prover
      order
      4
      5
    ≡ ok (7 ∷ [])
unfolding prove task_poe generate_poe run_handlers keep collect_poes handle generate_pob retry
    retry_from fetch_prestate collect_txs collect_accounts add_keys fetch_reqs resume_db
    resume_nodes resume_codes commit_txs insert_hashes preprocess_txs execute inclusive count_from
    repair BtreeMap.insert
proved = refl

order-IsOrder :
    IsOrder evm chain poe_crate
      (λ n root db. root)
      (builders Sh256 (ℕ → Option Sh256))
      (builders Sh256 (ℕ → ℕ → Sh256))
      (λ b i. node)
      (λ b n. none)
      order
      (inclusive 4 5)
unfolding inclusive count_from
order-IsOrder = record { same_length = refl; all_there = λ n h. ground arith }

prove-Proved_example :
    (4 ≤ 5)
    × ((chain_id : ℕ) × (l2_chain_id ≡ ok chain_id)
        × ((n : ℕ)
            → 4 ≤ n
            → n ≤ 5
            → Proved evm chain poe_crate
                (λ n root db. root)
                (builders Sh256 (ℕ → Option Sh256))
                (builders Sh256 (ℕ → ℕ → Sh256))
                (λ b i. node)
                (λ b n. none)
                chain_id
                n))
prove-Proved_example =
    prove-Proved evm chain poe_crate (λ n root db. root) (builders Sh256 (ℕ → Option Sh256))
      (builders Sh256 (ℕ → ℕ → Sh256)) (λ b i. node) (λ b n. none) l2_chain_id prover
      (λ a b r w. refl) order 4 5 order-IsOrder proved

abbrev rlp : RlpStream
rlp = record {
  Stream = Bytes;
  new_list = λ n. n ∷ [];
  append_bytes = λ b s. s ++ b;
  append_uint = λ n s. s ++ n ∷ [];
  out = λ s. s;
}

abbrev ecdsa : Ecdsa
ecdsa = record {
  PublicKey = Bytes;
  recover = λ seal msg. some seal;
  from_raw_bytes = λ b. b;
  account_id = λ k. k;
}

abbrev header : BlockHeader
header = record {
  parent_hash = [];
  sha3_uncles = [];
  miner = [];
  state_root = [];
  transactions_root = [];
  receipts_root = [];
  logs_bloom = [];
  difficulty = 2;
  number = 4;
  gas_limit = 0;
  gas_used = 0;
  timestamp = 1;
  extra_data = 1 ∷ 2 ∷ [];
  mix_hash = [];
  nonce = [];
  base_fee_per_gas = 7;
}

author-sealed_example :
    author rlp digest ecdsa (sealed rlp digest header (replicate 65 6)) ≡ ok (some (replicate 65 6))
author-sealed_example =
    author-sealed rlp digest ecdsa header (replicate 65 6) (replicate 65 6) refl refl

abbrev no_proof : MerkleProof
no_proof = record {
  key = [];
  leaf_index = none;
  proof = none;
  left_proof = none;
  right_proof = none;
  left_leaf_index = none;
  right_leaf_index = none;
}

abbrev account_proof : Bytes → MerkleAccountProof
account_proof key = record { account_proof = record no_proof { key = key }; storage_proofs = [] }

abbrev shomei : Rpc
shomei = record {
  RpcError = ℕ;
  Selector = ℕ;
  get_proof = λ acc slots blk. ok (account_proof acc);
  get_state_merkle_proof = λ req. err 0;
}

abbrev absent : Bytes → Bytes → Trace
absent location key = read_zero (record {
  location = location;
  next_free_node = 2;
  sub_root = [];
  left_leaf = Opening.head;
  right_leaf = Opening.head;
  left_proof = record { leaf_index = 0; siblings = [] };
  right_proof = record { leaf_index = 1; siblings = [] };
  key = key;
})

-- An account, and a slot of another.
abbrev traces : List Trace
traces = absent [] (3 ∷ []) ∷ absent (2 ∷ []) (4 ∷ []) ∷ []

asked :
    fetch_proof_by_traces shomei traces 5
    ≡ ok (account_proof (2 ∷ []) ∷ account_proof (3 ∷ []) ∷ [])
unfolding fetch_proof_by_traces fetch_groups requests group_keys touch add_to location Trace.key
    BtreeMap.get BtreeMap.insert
asked = refl

fetch_proof_by_traces-Answered_example :
    (groups : Map Bytes (BtreeSet Bytes)) × Answered shomei 5 groups
      (account_proof (2 ∷ []) ∷ account_proof (3 ∷ []) ∷ [])
    × ((account : Bytes) → contains_key account groups ≡ any (λ t. same account (owner t)) traces)
    × ((account slot : Bytes) → has groups account slot ≡ any (is_slot account slot) traces)
fetch_proof_by_traces-Answered_example = fetch_proof_by_traces-Answered shomei 5 traces asked

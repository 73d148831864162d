-- ===== src/Tests/Linea.antt =====
-- The theorems on accounts, caches, states and blocks at concrete inputs.
use Prim.Native.String.{String}
use linea_sgx_prover.Prelude.{
  ℕ, Option, some, [], ◌∷◌, ◌++◌, true, false, ◌≡◌, ◌≢◌, ◌↔◌, refl, arith, replicate, length,
}
use linea_sgx_prover.Prelude.Results.{Result, ok, panic, ◌>>=◌}
use linea_sgx_prover.Bytes.{Bytes}
use linea_sgx_prover.Bytes.Endian.{from_be}
use linea_sgx_prover.BtreeMap
use linea_sgx_prover.BtreeMap.{Map, bytes_ord, nat_ord}
use linea_sgx_prover.EthTypes.{Sh256, big_endian_types, narrow}
use linea_sgx_prover.Zktrie.Types.{Error, zero_hash}
use linea_sgx_prover.Zktrie.Node.{trie_hash}
use linea_sgx_prover.Linea.Account
use linea_sgx_prover.Linea.Account.{
  ZkStateAccount, default_account, is_exist, from_bytes, empty_mimc_code_hash,
  empty_keccak_code_hash,
}
use linea_sgx_prover.Linea.Account.Codec.{IsTyped, from_bytes-to_bytes, is_exist_iff_no_bytes}
use linea_sgx_prover.Linea.Cache.{
  TrieCache, TrieCacheCtx, Closure, is_dirty, get_cloned, with_key, run_closure, decode_data, enter,
  flush, collect_updates, update_raw, missing_nodes,
}
use linea_sgx_prover.Linea.Cache.Laws.{with_key-get_cloned, flush-clean}
use linea_sgx_prover.Linea.State.{ZkTrieState, add_balance, sub_balance}
use linea_sgx_prover.Linea.State.Laws.{account_of, sub_balance-add_balance}
use linea_sgx_prover.Linea.Blocks.{
  cached_hash, fetch_hash, BatchTask, Log, inclusive, topic_block, read_log, read_logs, batch_task,
}
use linea_sgx_prover.Linea.Blocks.Laws.{cached_hash-fetch_hash, IsTaskOf, batch_task-last}
use linea_sgx_prover.Tests.Toys.{digest, env, NodeMap, node_map, flat_trie, plain_bytes, balances}

abbrev no_account : ZkStateAccount
no_account = record {
  nonce = 0;
  balance = 0;
  root = zero_hash;
  mimc_code_hash = digest zero_hash;
  keccak_code_hash = digest [];
  code_size = 0;
}

no_account_is_default : default_account env {E = Error} ≡ ok no_account
unfolding default_account empty_mimc_code_hash empty_keccak_code_hash trie_hash
no_account_is_default = refl

abbrev account : ZkStateAccount
account = record no_account { nonce = 7; balance = 1000 }

account-IsTyped : IsTyped account
account-IsTyped = record {
  nonce_fits = omega arith;
  balance_fits = omega arith;
  size_fits = omega arith;
  root_size = refl;
  mimc_size = refl;
  keccak_size = refl;
}

from_bytes-to_bytes_example :
    (Account.to_bytes env {E = Error} account >>= from_bytes env) ≡ ok account
from_bytes-to_bytes_example =
    from_bytes-to_bytes env Error no_account no_account_is_default account account-IsTyped

is_exist_iff_no_bytes_example :
    (is_exist env {E = Error} account ≡ ok true)
    ↔ (Account.to_bytes env {E = Error} account ≡ ok [])
is_exist_iff_no_bytes_example =
    is_exist_iff_no_bytes env Error no_account no_account_is_default account account-IsTyped

abbrev flat : Map Bytes Bytes
flat = (1 ∷ [], 8 ∷ 9 ∷ []) ∷ []

abbrev empty_cache : TrieCache Sh256 Bytes
empty_cache = record { raw = zero_hash; cache = []; dirty = [] }

-- It writes a new value and returns the length of the old one.
abbrev rewrite : Closure Sh256 Bytes (Map Bytes Bytes) ℕ
rewrite ctx = (ok (length ctx.val), record ctx { val = 5 ∷ []; dirty = true })

abbrev rewritten : Result String ℕ × TrieCacheCtx Sh256 Bytes (Map Bytes Bytes)
rewritten = rewrite (record { raw = zero_hash; val = 8 ∷ 9 ∷ []; dirty = false; db = flat })

flat_value : (get_cloned flat_trie plain_bytes (1 ∷ []) (empty_cache, flat)).0 ≡ ok (8 ∷ 9 ∷ [])
unfolding get_cloned with_key run_closure decode_data enter BtreeMap.get BtreeMap.or_insert
    BtreeMap.insert
flat_value = refl

with_key-get_cloned_example :
    ((with_key flat_trie plain_bytes (1 ∷ []) rewrite (empty_cache, flat)).0 ≡ rewritten.0)
    × ((get_cloned flat_trie plain_bytes
          (1 ∷ [])
          (with_key flat_trie plain_bytes (1 ∷ []) rewrite (empty_cache, flat)).1).0
        ≡ ok rewritten.1.val)
    × (rewritten.1.dirty ≡ true
        → is_dirty
            (1 ∷ [])
            (with_key flat_trie plain_bytes (1 ∷ []) rewrite (empty_cache, flat)).1.0
          ≡ true)
with_key-get_cloned_example =
    with_key-get_cloned flat_trie plain_bytes (1 ∷ []) rewrite flat (8 ∷ 9 ∷ []) empty_cache
      flat_value

abbrev dirty_cache : TrieCache Sh256 Bytes
dirty_cache = record { raw = zero_hash; cache = (1 ∷ [], 5 ∷ []) ∷ []; dirty = (1 ∷ [], tt) ∷ [] }

flush_succeeds : (flush flat_trie plain_bytes (dirty_cache, flat)).0 ≢ panic
unfolding flush collect_updates update_raw missing_nodes BtreeMap.get
flush_succeeds h = absurd (cc)

flush-clean_example :
    ((flush flat_trie plain_bytes (dirty_cache, flat)).1.0.dirty ≡ [])
    × ((flush flat_trie plain_bytes (dirty_cache, flat)).1.0.cache ≡ dirty_cache.cache)
flush-clean_example = flush-clean flat_trie plain_bytes dirty_cache flat flush_succeeds

abbrev address : Bytes
address = replicate 20 3

abbrev debug : Error → String
debug e = "error"

abbrev state : ZkTrieState NodeMap
state = record {
  db = [];
  acc_cache = record {
    raw = record { root_hash = zero_hash };
    cache = (address, account) ∷ [];
    dirty = [];
  };
  storages = [];
}

account_read : account_of node_map env debug address state ≡ ok account
unfolding get_cloned with_key run_closure BtreeMap.get BtreeMap.insert
account_read = refl

sub_balance-add_balance_example :
    let added = add_balance node_map env debug balances address 5 state in
    let after = sub_balance node_map env debug balances address 5 added.1 in
    (added.0 ≡ ok tt)
    × (after.0 ≡ ok tt)
    × (account_of node_map env debug address after.1 ≡ ok account)
sub_balance-add_balance_example =
    sub_balance-add_balance node_map env debug balances address 5 1005 state account account_read
      refl refl

abbrev client : ℕ → Option Sh256
client n = some (n ∷ [])

cached_hash-fetch_hash_example :
    (cached_hash (fetch_hash client 20 7 []).1 20 7 ≡ (fetch_hash client 20 7 []).0)
    × ((other : ℕ)
        → other ≢ 7
        → BtreeMap.get other (fetch_hash client 20 7 []).1 ≡ BtreeMap.get other [])
cached_hash-fetch_hash_example = cached_hash-fetch_hash client 20 7 []

-- The third call succeeds.
abbrev log : Log
log = record {
  topics = [] ∷ replicate 32 1 ∷ (replicate 31 0 ++ 4 ∷ []) ∷ (replicate 31 0 ++ 6 ∷ []) ∷ [];
  transaction_hash = replicate 32 2;
}

abbrev earlier : Log
earlier = record {
  topics = [] ∷ replicate 32 5 ∷ (replicate 31 0 ++ 1 ∷ []) ∷ (replicate 31 0 ++ 3 ∷ []) ∷ [];
  transaction_hash = replicate 32 9;
}

abbrev task : BatchTask
task = record { data_hash = replicate 32 1; blocks = inclusive 4 6 }

task_of_logs : batch_task big_endian_types {E = String} (earlier ∷ log ∷ []) ≡ ok task
unfolding batch_task read_logs read_log topic_block big_endian_types from_be narrow
task_of_logs = refl

batch_task-last_example : IsTaskOf big_endian_types String log task
batch_task-last_example =
    batch_task-last big_endian_types String (earlier ∷ []) log task task_of_logs

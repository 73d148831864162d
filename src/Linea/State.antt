-- ===== src/Linea/State.antt =====
-- `ZkTrieState` of src/common/linea/src/zktrie_state.rs: the accounts and the storages of a block,
-- through caches over the tries. The methods that are `unreachable!()` and the logs are left out.
-- `StorageValue` of src/common/linea/src/engine.rs is the value of a storage slot.
pub mod Laws
use Prim.Native.String.{String}
use linea_sgx_prover.Prelude.{
  ℕ, ◌-◌, Option, none, some, [], ◌∷◌, ◌++◌, Bool, true, ◌==◌, leb, if◌then◌else◌, length,
  replicate,
}
use linea_sgx_prover.Prelude.Results
use linea_sgx_prover.Prelude.Results.{Result, ok, err, panic, map_err, assert}
use linea_sgx_prover.Prelude.Exec.{Exec, pure, lift, reads, ◌>>=◌, ◌>>◌}
use linea_sgx_prover.Bytes.{Bytes, bytes_eq}
use linea_sgx_prover.BtreeMap
use linea_sgx_prover.BtreeMap.{Map, bytes_ord}
use linea_sgx_prover.EthTypes.{Sh256}
use linea_sgx_prover.Zktrie.Types.{Env, Error, zero_hash}
use linea_sgx_prover.Zktrie.Node.{top_node}
use linea_sgx_prover.Zktrie.Trace.{Trace, old_state}
use linea_sgx_prover.Zktrie.Database.{Database}
use linea_sgx_prover.Zktrie.Sparse.{SpareMerkleTrie}
use linea_sgx_prover.Linea.Account
use linea_sgx_prover.Linea.Account.{ZkStateAccount, default_account, set_nonce}
use linea_sgx_prover.Linea.Trie.{Trie, zk_trie}
use linea_sgx_prover.Linea.Cache
use linea_sgx_prover.Linea.Cache.{CacheValueEnc, TrieCache, Closure, is_dirty, revert}

-- `statedb::Error`, as the methods make it.
pub data StateError : Type 0 where
  with_key : String → StateError
  code_not_found : Sh256 → StateError

-- What `StorageValue` uses of the crate `rlp`.
pub record Rlp : Type 1 where
  pub Stream : Type 0
  pub new_stream : Stream
  pub append : Bytes → Stream → Stream
  pub out : Stream → Bytes
  pub is_null : Bytes → Bool
  pub as_raw : Bytes → Bytes

-- What the state uses of the arithmetic of `SU256`: `none` is the panic of an overflow.
pub record Balances : Type 0 where
  pub add : ℕ → ℕ → Option ℕ
  pub sub : ℕ → ℕ → Option ℕ

-- The bytes from the first that is not 0: none where all are 0.
unfoldable pub trim_zeros : Bytes → Option Bytes
trim_zeros [] = none
trim_zeros (b ∷ bs) = if b == 0 then trim_zeros bs else some (b ∷ bs)

module _ (rlp : Rlp) where
  -- `rlp_append`.
  unfoldable pub rlp_append : Sh256 → rlp.Stream → rlp.Stream
  rlp_append value s = elim (trim_zeros value) [ some bytes ↦ rlp.append bytes s | none ↦ s ]

  -- `rlp::Decodable::decode`, of the `Rlp` over a buffer. `as_raw` is what the source reads.
  unfoldable pub rlp_decode : {E : Type 0} → Bytes → Result E Sh256
  rlp_decode buf =
      if rlp.is_null buf
      then ok zero_hash
      else Results.◌>>=◌ (assert (leb (length (rlp.as_raw buf)) 32))
          (λ _. ok (replicate (32 - length (rlp.as_raw buf)) 0 ++ rlp.as_raw buf))

  -- `impl CacheValueEnc for StorageValue`.
  abbrev pub storage_enc : CacheValueEnc Sh256
  storage_enc = record {
    encode = λ value. ok (rlp.out (rlp_append value rlp.new_stream));
    decode = rlp_decode;
    default_value = ok zero_hash;
  }

-- `impl CacheValueEnc for ZkStateAccount`.
abbrev pub account_enc : Env → CacheValueEnc ZkStateAccount
account_enc env = record {
  encode = Account.to_bytes env;
  decode = Account.from_bytes env;
  default_value = default_account env;
}

pub record ZkTrieState (D : Type 0) : Type 0 where
  pub db : D
  pub acc_cache : TrieCache SpareMerkleTrie ZkStateAccount
  pub storages : Map Bytes (TrieCache SpareMerkleTrie Sh256)

-- `account_key`.
unfoldable pub account_key : Env → {E : Type 0} → Bytes → Result E Sh256
account_key env acc = Results.unwrap (env.sum acc)

-- `new_from_trace`.
unfoldable pub new_from_trace : {D E : Type 0} → Env → D → Trace → Result E (ZkTrieState D)
new_from_trace env db t = Results.◌>>=◌ (old_state t) (λ old.
    Results.◌>>=◌ (top_node env old.0 old.1) (λ root. ok (record {
      db = db;
      acc_cache = Cache.new (record { root_hash = root.hash });
      storages = [];
    })))

abbrev pub Run : Type 0 → Type 0 → Type 0
Run D O = Exec (ZkTrieState D) StateError O

module _ {D : Type 0} where
  -- `*ctx.dirty = true` and a new balance, or the panic of the arithmetic.
  abbrev pub change_balance : (ℕ → Option ℕ) → Closure SpareMerkleTrie ZkStateAccount D (Unit {0})
  change_balance f ctx = elim (f ctx.val.balance) [
    | some b ↦ (ok tt, record ctx { val = record ctx.val { balance = b }; dirty = true })
    | none ↦ (panic, record ctx { dirty = true })
  ]

module _ {D : Type 0} (db : Database D) (env : Env) (debug : Error → String) where
  abbrev pub trie : Trie SpareMerkleTrie D
  trie = zk_trie db env debug

  -- `with_acc`.
  unfoldable pub with_acc :
      {O : Type 0} → Bytes → Closure SpareMerkleTrie ZkStateAccount D O → Run D O
  with_acc address f st =
      let after = Cache.with_key trie (account_enc env) address f (st.acc_cache, st.db) in
      (map_err with_key after.0, record st { acc_cache = after.1.0; db = after.1.1 })

  -- `set_nonce`, whose nonce is narrowed by `as_u64`.
  unfoldable pub set_state_nonce : Bytes → ℕ → Run D (Unit {0})
  set_state_nonce address val = with_acc address (λ ctx. elim (env.eth.as_u64 val) [
    | some n ↦
        let after = set_nonce ctx.val ctx.dirty n in
        (ok tt, record ctx { val = after.0; dirty = after.1 })
    | none ↦ (panic, ctx)
  ])

  unfoldable pub exist : Bytes → Run D Bool
  exist address = with_acc address (λ ctx. (Account.is_exist env ctx.val, ctx))

  unfoldable pub get_account_basic : Bytes → Run D (ℕ × ℕ)
  get_account_basic address = with_acc address (λ ctx. (ok (ctx.val.balance, ctx.val.nonce), ctx))

  unfoldable pub get_balance : Bytes → Run D ℕ
  get_balance address = with_acc address (λ ctx. (ok ctx.val.balance, ctx))

  unfoldable pub get_nonce : Bytes → Run D ℕ
  get_nonce address = with_acc address (λ ctx. (ok ctx.val.nonce, ctx))

  unfoldable pub get_code : Bytes → Run D Bytes
  get_code address = do
    (code_hash, code_size) ←
        with_acc address (λ ctx. (ok (ctx.val.keccak_code_hash, ctx.val.code_size), ctx))
    if code_size == 0 then pure [] else (do
      code ← reads (λ st. ok (db.get_code st.db code_hash))
      elim code [ some c ↦ pure c | none ↦ lift (err (code_not_found code_hash)) ])

  -- `flush`: only the accounts' cache is flushed; an error is logged and dropped.
  unfoldable pub flush : Run D Sh256
  flush st =
      let after = Cache.flush trie (account_enc env) (st.acc_cache, st.db) in
      let st' = record st { acc_cache = after.1.0; db = after.1.1 } in
      elim after.0 [
        | ok _ ↦ (ok (trie.root_hash st'.acc_cache.raw), st')
        | err _ ↦ (ok (trie.root_hash st'.acc_cache.raw), st')
        | panic ↦ (panic, st')
      ]

module _ {D : Type 0} (db : Database D) (env : Env) (debug : Error → String) (rlp : Rlp) where
  -- The cache of a storage, new where there is none, and cleared where its root is another.
  unfoldable pub open_storage : Bytes → Sh256 → ZkTrieState D → TrieCache SpareMerkleTrie Sh256
  open_storage address root st =
      let storage : TrieCache SpareMerkleTrie Sh256 = elim (BtreeMap.get address st.storages) [
        | some c ↦ c
        | none ↦ Cache.new ((trie db env debug).new_root st.acc_cache.raw root)
      ] in
      if bytes_eq ((trie db env debug).root_hash storage.raw) root
      then storage
      else (revert (trie db env debug) (storage_enc rlp) root storage).1

  -- `storage.with_key`, on the storage of an address: whether the slot is dirty comes back too.
  unfoldable pub run_storage :
      {O : Type 0}
      → Bytes
      → Bytes
      → Closure SpareMerkleTrie Sh256 D O
      → TrieCache SpareMerkleTrie Sh256
      → Run D (O × Bool)
  run_storage address index f storage st =
      let after = Cache.with_key (trie db env debug) (storage_enc rlp) index f (storage, st.db) in
      (
        map_err with_key (Results.◌>>=◌ after.0 (λ o. ok (o, is_dirty index after.1.0))),
        record st { storages = BtreeMap.insert address after.1.0 st.storages; db = after.1.1 },
      )

  -- `with_storage`.
  unfoldable pub with_storage :
      {O : Type 0} → Bytes → Bytes → Closure SpareMerkleTrie Sh256 D O → Run D O
  with_storage address index f = do
    root ← with_acc db env debug address (λ ctx. (ok ctx.val.root, ctx))
    storage ← reads (λ st. ok (open_storage address root st))
    (out, dirty) ← run_storage address index f storage
    if dirty
        then with_acc db env debug address (λ ctx. (ok tt, record ctx { dirty = true }))
        else pure tt
    pure out

  unfoldable pub get_state : Bytes → Bytes → Run D Sh256
  get_state address index = with_storage address index (λ ctx. (ok ctx.val, ctx))

module _ {D : Type 0} (db : Database D) (env : Env) (debug : Error → String)
    (su256 : Balances) where
  unfoldable pub add_balance : Bytes → ℕ → Run D (Unit {0})
  add_balance address val = with_acc db env debug address (change_balance (λ b. su256.add b val))

  unfoldable pub sub_balance : Bytes → ℕ → Run D (Unit {0})
  sub_balance address val = with_acc db env debug address (change_balance (λ b. su256.sub b val))

-- ===== src/Linea/Account.antt =====
-- `ZkStateAccount` of src/common/linea/src/engine.rs, with the hashes of src/common/zktrie/src/hash.rs.
pub mod Codec
use linea_sgx_prover.Prelude.{ℕ, ◌+◌, [], ◌∷◌, ◌++◌, Bool, true, ◌&&◌, ◌==◌, if◌then◌else◌}
use linea_sgx_prover.Prelude.Results.{Result, ok, ◌>>=◌, expect, unwrap}
use linea_sgx_prover.Bytes.{Bytes, bytes_eq, slice, copy_from_slice}
use linea_sgx_prover.EthTypes.{Sh256}
use linea_sgx_prover.Zktrie.Types.{Env, zero_hash}
use linea_sgx_prover.Zktrie.Node.{trie_hash}

pub record ZkStateAccount : Type 0 where
  pub nonce : ℕ
  pub balance : ℕ
  pub root : Sh256
  pub mimc_code_hash : Sh256
  pub keccak_code_hash : Sh256
  pub code_size : ℕ

-- The derived `==`.
unfoldable pub account_eq : ZkStateAccount → ZkStateAccount → Bool
account_eq a b =
    a.nonce == b.nonce
    && (a.balance == b.balance
        && (bytes_eq a.root b.root
            && (bytes_eq a.mimc_code_hash b.mimc_code_hash
                && (bytes_eq a.keccak_code_hash b.keccak_code_hash && a.code_size == b.code_size))))

-- `set_nonce`: the account, and the flag behind `dirty`.
unfoldable pub set_nonce : ZkStateAccount → Bool → ℕ → ZkStateAccount × Bool
set_nonce a dirty val = if a.nonce == val then (a, dirty) else (record a { nonce = val }, true)

module _ (env : Env) where
  -- `EMPTY_MIMC_CODE_HASH` and `EMPTY_KECCAK_CODE_HASH`.
  unfoldable pub empty_mimc_code_hash : {E : Type 0} → Result E Sh256
  empty_mimc_code_hash = unwrap (trie_hash env zero_hash)

  unfoldable pub empty_keccak_code_hash : Sh256
  empty_keccak_code_hash = env.keccak []

  -- `ZkStateAccount::default`.
  unfoldable pub default_account : {E : Type 0} → Result E ZkStateAccount
  default_account = do
    mimc ← empty_mimc_code_hash
    ok (record {
      nonce = 0;
      balance = 0;
      root = zero_hash;
      mimc_code_hash = mimc;
      keccak_code_hash = empty_keccak_code_hash;
      code_size = 0;
    })

  -- `is_exist`, as the source has it: whether the account is the default one.
  unfoldable pub is_exist : {E : Type 0} → ZkStateAccount → Result E Bool
  is_exist a = do d ← default_account; ok (account_eq a d)

  -- `to_bytes`: nothing for the default account, and 6 fields of 32 bytes for the others.
  unfoldable pub to_bytes : {E : Type 0} → ZkStateAccount → Result E Bytes
  to_bytes a = do
    d ← default_account
    if account_eq a d then ok [] else (do
      root ← copy_from_slice 32 a.root
      mimc ← copy_from_slice 32 a.mimc_code_hash
      keccak ← copy_from_slice 32 a.keccak_code_hash
      ok (
          env.eth.to_big_endian a.nonce
          ++ (env.eth.to_big_endian a.balance
              ++ (root ++ (mimc ++ (keccak ++ env.eth.to_big_endian a.code_size))))))

  -- `from_bytes`.
  unfoldable pub from_bytes : {E : Type 0} → Bytes → Result E ZkStateAccount
  from_bytes [] = default_account
  from_bytes (x ∷ xs) = do
    nonce ← slice (x ∷ xs) 0 32
    balance ← slice (x ∷ xs) 32 64
    root_bytes ← slice (x ∷ xs) 64 96
    root ← expect (env.eth.from_slice root_bytes)
    mimc_bytes ← slice (x ∷ xs) 96 128
    mimc ← expect (env.eth.from_slice mimc_bytes)
    keccak_bytes ← slice (x ∷ xs) 128 160
    keccak ← expect (env.eth.from_slice keccak_bytes)
    code_size ← slice (x ∷ xs) 160 192
    nonce_value ← expect (env.eth.as_u64 (env.eth.from_big_endian nonce))
    ok (record {
      nonce = nonce_value;
      balance = env.eth.from_big_endian balance;
      root = root;
      mimc_code_hash = mimc;
      keccak_code_hash = keccak;
      code_size = env.eth.from_big_endian code_size;
    })

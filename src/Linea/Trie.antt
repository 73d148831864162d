-- ===== src/Linea/Trie.antt =====
-- src/common/linea/src/trie.rs: the trait `Trie`, and `ZkTrie` over the trie of src/common/zktrie.
-- The trait's `DB` is the state `D`; the lines that only log are left out, but for the decoding of
-- an account, which may panic.
use Prim.Native.String.{String}
use linea_sgx_prover.Prelude.{
  Option, none, some, List, [], ◌∷◌, Ordering, ◌==◌, if◌then◌else◌, length,
}
use linea_sgx_prover.Prelude.Results
use linea_sgx_prover.Prelude.Results.{Result, ok, err, panic, map_err, unwrap}
use linea_sgx_prover.Prelude.Exec.{Exec, pure, lift, ◌>>=◌, ◌>>◌}
use linea_sgx_prover.Bytes.{Bytes, compare_bytes}
use linea_sgx_prover.EthTypes.{Sh256}
use linea_sgx_prover.Zktrie.Types.{Env, Error}
use linea_sgx_prover.Zktrie.Database.{Database}
use linea_sgx_prover.Zktrie.Sparse.{SpareMerkleTrie}
use linea_sgx_prover.Zktrie.Trie as ZkTrie
use linea_sgx_prover.Linea.Account

-- `TrieUpdate` of the crate `statedb`, as its users match on it.
pub data TrieUpdate : Type 0 where
  missing : Sh256 → TrieUpdate
  success : TrieUpdate

-- The trait `Trie`.
pub record Trie (T D : Type 0) : Type 1 where
  pub root_hash : T → Sh256
  pub try_get : T → Bytes → D → Result String (Option Bytes)
  pub get : T → Bytes → D → Result String Bytes
  -- It reports no error, but it may panic.
  pub update : List (Bytes × Bytes) → Exec (T × D) ⊥ (List TrieUpdate)
  pub new_root : T → Sh256 → T

-- `updates.sort_by(|(a, _), (b, _)| b.cmp(a))`: stable, the greatest key first.
unfoldable pub insert_sorted : Bytes × Bytes → List (Bytes × Bytes) → List (Bytes × Bytes)
insert_sorted u [] = u ∷ []
insert_sorted u (v ∷ vs) = elim (compare_bytes v.0 u.0) [
  | Ordering.lt ↦ u ∷ v ∷ vs
  | Ordering.eq ↦ u ∷ v ∷ vs
  | Ordering.gt ↦ v ∷ insert_sorted u vs
]

unfoldable pub sort_updates : List (Bytes × Bytes) → List (Bytes × Bytes)
sort_updates [] = []
sort_updates (u ∷ us) = insert_sorted u (sort_updates us)

-- `r.unwrap()` of a call that changes the state.
abbrev pub unwrap_run : {S E A F : Type 0} → Exec S E A → Exec S F A
unwrap_run m s = (unwrap (m s).0, (m s).1)

module _ {D : Type 0} (db : Database D) (env : Env) where
  -- The decoding of an account in `update`, for its log.
  unfoldable pub log_account : {E : Type 0} → Bytes → Result E (Unit {0})
  log_account data' =
      if length data' == 192
      then Results.◌>>=◌ (Account.from_bytes env data') (λ a. ok tt)
      else ok tt

  -- One round of `update`: empty data removes the key.
  unfoldable pub write_item : {E : Type 0} → Bytes → Bytes → Exec (SpareMerkleTrie × D) E (Unit {0})
  write_item item [] = unwrap_run (ZkTrie.remove db env item)
  write_item item (b ∷ bs) = do
    lift (log_account (b ∷ bs))
    unwrap_run (ZkTrie.put db env item (b ∷ bs))

  unfoldable pub write_items :
      {E : Type 0} → List (Bytes × Bytes) → Exec (SpareMerkleTrie × D) E (List TrieUpdate)
  write_items [] = pure []
  write_items ((item, data') ∷ rest) = do
    write_item item data'
    result ← write_items rest
    pure (success ∷ result)

  -- `update`.
  unfoldable pub update :
      {E : Type 0} → List (Bytes × Bytes) → Exec (SpareMerkleTrie × D) E (List TrieUpdate)
  update updates = write_items (sort_updates updates)

  -- `get`, given how `debug` shows an error.
  unfoldable pub get : (Error → String) → SpareMerkleTrie → Bytes → D → Result String Bytes
  get debug t key s =
      Results.◌>>=◌ (map_err debug (ZkTrie.read db env key (t, s)))
        (λ val. elim val [ some v ↦ ok v | none ↦ ok [] ])

  -- `impl Trie for ZkTrie`.
  unfoldable pub zk_trie : (Error → String) → Trie SpareMerkleTrie D
  zk_trie debug = record {
    root_hash = λ t. t.root_hash;
    try_get = λ t key s. panic;
    get = get debug;
    update = update;
    new_root = λ t new_root. record { root_hash = new_root };
  }

-- ===== src/Zktrie/Database.antt =====
-- The trait `Database` of src/common/zktrie/src/sparse_merkle_trie.rs, and what the tries rely on.
use linea_sgx_prover.Prelude.{◌≡◌, ◌≢◌, ◌⊎◌, Option, some}
use linea_sgx_prover.Prelude.Results.{Result, ok}
use linea_sgx_prover.Bytes.{Bytes}
use linea_sgx_prover.EthTypes.{Sh256}
use linea_sgx_prover.Zktrie.Types.{Node, Error, FlattenedLeaf, KeyRange}

-- A method with `&mut self` returns the state beside its result.
pub record Database (D : Type 0) : Type 0 where
  pub get_node : D → Sh256 → Result Error (Option Node)
  pub update_node : Sh256 → Node → D → Result Error Node × D
  pub get_nearest_keys : D → Sh256 → Sh256 → Result Error KeyRange
  pub update_index : Sh256 → FlattenedLeaf → D → D
  pub remove_index : Sh256 → D → D
  pub get_code : D → Sh256 → Option Bytes

-- A write is read back, or the node that was read under that hash before stays, as a fixed one does,
-- and it changes no other hash.
pub record IsLawful {D : Type 0} (db : Database D) : Type 0 where
  pub update_ok : (h : Sh256) (n : Node) (s : D) → (db.update_node h n s).0 ≡ ok n
  pub get-update_self :
      (h : Sh256) (n : Node) (s : D)
      → (db.get_node (db.update_node h n s).1 h ≡ ok (some n))
        ⊎ ((m : Node) × (db.get_node s h ≡ ok (some m))
            × (db.get_node (db.update_node h n s).1 h ≡ ok (some m)))
  pub get-update_ne :
      (h j : Sh256) (n : Node) (s : D)
      → j ≢ h
      → db.get_node (db.update_node h n s).1 j ≡ db.get_node s j

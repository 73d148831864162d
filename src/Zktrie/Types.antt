-- ===== src/Zktrie/Types.antt =====
-- The data of src/common/zktrie/src: the errors of lib.rs, the nodes of node.rs, and what the
-- crate takes from outside.
use Prim.Native.String.{String}
use linea_sgx_prover.Prelude.{ℕ, Option, replicate}
use linea_sgx_prover.Prelude.Results.{Result}
use linea_sgx_prover.Bytes.{Bytes}
use linea_sgx_prover.EthTypes.{EthTypes, Sh256}
use linea_sgx_prover.Mimc

-- `mimc::sum` comes from the crate `mimc` (the module `Mimc`), keccak from the crate `crypto`.
pub record Env : Type 0 where
  pub eth : EthTypes
  pub sum : Bytes → Result Mimc.Error Bytes
  pub keccak : Bytes → Bytes

-- `SH256::default()`.
abbrev pub zero_hash : Sh256
zero_hash = replicate 32 0

abbrev pub zk_trie_depth : ℕ
zk_trie_depth = 40

-- `enum LeafType`, by its discriminants.
abbrev pub leaf_type_value : ℕ
leaf_type_value = 0x16

abbrev pub leaf_type_next_free_node : ℕ
leaf_type_next_free_node = 0x17

abbrev pub leaf_type_empty : ℕ
leaf_type_empty = 0x18

pub record BranchNode : Type 0 where
  pub left : Sh256
  pub right : Sh256

pub record LeafNode : Type 0 where
  pub path : Bytes
  pub value : Bytes

pub data NodeValue : Type 0 where
  branch : BranchNode → NodeValue
  leaf : LeafNode → NodeValue
  empty_leaf : NodeValue
  next_free : LeafNode → NodeValue

pub record Node : Type 0 where
  pub raw : NodeValue
  pub hash : Sh256

pub data Error : Type 0 where
  reached_max_level path_not_allow in_mem_next_node_not_found next_free_node_not_found : Error
  next_free_node_empty_value : Node → Error
  node_not_found : ℕ → Sh256 → Error
  zk_trie_key_not_found : Bytes → Error
  zk_trie_parse_node_fail : Bytes → String → Error
  hash_fail : Mimc.Error → Error
  invalid_branch_node : Bytes → Error
  invalid_proof : Error
  root_node_not_found : Sh256 → Error
  root_node_expect_to_be_branch_node : Node → Error

pub record FlattenedLeaf : Type 0 where
  pub leaf_index : ℕ
  pub leaf_value : Bytes

pub record KeyRange : Type 0 where
  pub left_index : ℕ
  pub center : Option FlattenedLeaf
  pub right_index : ℕ

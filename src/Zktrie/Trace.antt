-- ===== src/Zktrie/Trace.antt =====
-- src/common/zktrie/src/trace.rs: the traces of Shomei. The crate `serde` decodes them from JSON.
pub mod Decode
use linea_sgx_prover.Prelude.{
  ℕ, zero, suc, ◌-◌, Option, none, some, List, [], ◌∷◌, ◌++◌, ◌==◌, if◌then◌else◌, length,
  get_elem?,
}
use linea_sgx_prover.Prelude.Results.{Result, ok, panic, ◌>>=◌, expect}
use linea_sgx_prover.Bytes.{Bytes, slice_from}
use linea_sgx_prover.EthTypes.{Sh256}
use linea_sgx_prover.Zktrie.Types.{Env, Node, KeyRange}
use linea_sgx_prover.Zktrie.Path.{get_leaf_path}
use linea_sgx_prover.Zktrie.Node.{branch_node, leaf_node, empty_leaf_node, top_node}
use linea_sgx_prover.Zktrie.Opening
use linea_sgx_prover.Zktrie.Opening.{LeafOpening}

pub record TraceProof : Type 0 where
  pub leaf_index : ℕ
  pub siblings : List Sh256

pub record UpdateTrace : Type 0 where
  pub location : Bytes
  pub new_next_free_node : ℕ
  pub old_sub_root : Sh256
  pub new_sub_root : Sh256
  pub proof : TraceProof
  pub key : Bytes
  pub old_value : Bytes
  pub new_value : Bytes
  pub prior_updated_leaf : LeafOpening

pub record DeletionTrace : Type 0 where
  pub location : Bytes
  pub new_next_free_node : ℕ
  pub old_sub_root : Sh256
  pub new_sub_root : Sh256
  pub left_proof : TraceProof
  pub delete_proof : TraceProof
  pub right_proof : TraceProof
  pub key : Bytes
  pub delete_value : Bytes
  pub prior_left_leaf : LeafOpening
  pub prior_delete_leaf : LeafOpening
  pub prior_right_leaf : LeafOpening

pub record InsertionTrace : Type 0 where
  pub location : Bytes
  pub new_next_free_node : ℕ
  pub old_sub_root : Sh256
  pub new_sub_root : Sh256
  pub left_proof : TraceProof
  pub new_proof : TraceProof
  pub right_proof : TraceProof
  pub key : Bytes
  pub value : Bytes
  pub prior_left_leaf : LeafOpening
  pub prior_right_leaf : LeafOpening

pub record ReadTrace : Type 0 where
  pub location : Bytes
  pub next_free_node : ℕ
  pub sub_root : Sh256
  pub leaf : LeafOpening
  pub proof : TraceProof
  pub key : Bytes
  pub value : Bytes

pub record ReadZeroTrace : Type 0 where
  pub location : Bytes
  pub next_free_node : ℕ
  pub sub_root : Sh256
  pub left_leaf : LeafOpening
  pub right_leaf : LeafOpening
  pub left_proof : TraceProof
  pub right_proof : TraceProof
  pub key : Bytes

pub data Trace : Type 0 where
  read : ReadTrace → Trace
  read_zero : ReadZeroTrace → Trace
  insertion : InsertionTrace → Trace
  update : UpdateTrace → Trace
  deletion : DeletionTrace → Trace

-- `n - 1` on a `u64`.
abbrev pub pred_u64 : {E : Type 0} → ℕ → Result E ℕ
pred_u64 zero = panic
pred_u64 (suc n) = ok n

-- `old_state`: the next free node and the root of the sub-trie before the trace.
unfoldable pub old_state : {E : Type 0} → Trace → Result E (ℕ × Sh256)
old_state (deletion n) = ok (n.new_next_free_node, n.old_sub_root)
old_state (insertion n) = do free ← pred_u64 n.new_next_free_node; ok (free, n.old_sub_root)
old_state (read n) = ok (n.next_free_node, n.sub_root)
old_state (read_zero n) = ok (n.next_free_node, n.sub_root)
old_state (update n) = ok (n.new_next_free_node, n.old_sub_root)

unfoldable pub key : Trace → Bytes
key (deletion n) = n.key
key (insertion n) = n.key
key (read n) = n.key
key (read_zero n) = n.key
key (update n) = n.key

unfoldable pub read_value : Trace → Bytes
read_value (read n) = n.value
read_value (deletion n) = []
read_value (insertion n) = []
read_value (read_zero n) = []
read_value (update n) = []

unfoldable pub location : Trace → Bytes
location (deletion n) = n.location
location (insertion n) = n.location
location (read n) = n.location
location (read_zero n) = n.location
location (update n) = n.location

unfoldable pub key_range : Trace → KeyRange
key_range (read_zero n) = record {
  left_index = n.left_proof.leaf_index;
  center = none;
  right_index = n.right_proof.leaf_index;
}
key_range (read n) = record {
  left_index = n.leaf.prev_leaf;
  center = some (record { leaf_index = n.proof.leaf_index; leaf_value = n.value });
  right_index = n.leaf.next_leaf;
}
key_range (update n) = record {
  left_index = n.prior_updated_leaf.prev_leaf;
  center = some (record { leaf_index = n.proof.leaf_index; leaf_value = n.old_value });
  right_index = n.prior_updated_leaf.next_leaf;
}
key_range (insertion n) = record {
  left_index = n.left_proof.leaf_index;
  center = none;
  right_index = n.right_proof.leaf_index;
}
key_range (deletion n) = record {
  left_index = n.prior_delete_leaf.prev_leaf;
  center = some (record { leaf_index = n.delete_proof.leaf_index; leaf_value = n.delete_value });
  right_index = n.prior_delete_leaf.next_leaf;
}

module _ (env : Env) where
  unfoldable pub old_top_node : {E : Type 0} → Trace → Result E Node
  old_top_node t = do (free, sub_root) ← old_state t; top_node env free sub_root

  unfoldable pub old_top_hash : {E : Type 0} → Trace → Result E Sh256
  old_top_hash t = do n ← old_top_node t; ok n.hash

  -- The loop of `build_nodes`: the siblings left, whose number is the index into the path, since
  -- the siblings come from the leaf up. The result is in the order of `out`.
  unfoldable pub climb : {E : Type 0} → Bytes → List Sh256 → Node → Result E (List Node)
  climb trie_path [] root = ok (root ∷ [])
  climb trie_path (sibling ∷ siblings) root = do
    bit ← expect (get_elem? trie_path (length (sibling ∷ siblings)))
    new_root ←
        if bit == 0 then branch_node env root.hash sibling else branch_node env sibling root.hash
    rest ← climb trie_path siblings new_root
    ok (root ∷ rest)

  -- The node at the bottom of `build_nodes`.
  unfoldable pub bottom : {E : Type 0} → Bytes → Option LeafOpening → Result E Node
  bottom trie_path none = ok empty_leaf_node
  bottom trie_path (some leaf) = do
    marker ← slice_from trie_path (length trie_path - 1)
    leaf_node env marker (Opening.to_bytes env.eth leaf)

  -- `TraceProof::build_nodes`.
  unfoldable pub build_nodes : {E : Type 0} → TraceProof → Option LeafOpening → Result E (List Node)
  build_nodes p leaf = do
    trie_path ← get_leaf_path p.leaf_index
    root ← bottom trie_path leaf
    climb trie_path p.siblings root

  -- `Trace::nodes`.
  unfoldable pub nodes : {E : Type 0} → Trace → Result E (List Node)
  nodes (update n) = build_nodes n.proof (some n.prior_updated_leaf)
  nodes (insertion n) = do
    left ← build_nodes n.left_proof (some n.prior_left_leaf)
    new ← build_nodes n.new_proof none
    right ← build_nodes n.right_proof (some n.prior_right_leaf)
    ok (left ++ (new ++ right))
  nodes (deletion n) = do
    left ← build_nodes n.left_proof (some n.prior_left_leaf)
    deleted ← build_nodes n.delete_proof (some n.prior_delete_leaf)
    right ← build_nodes n.right_proof (some n.prior_right_leaf)
    ok (left ++ (deleted ++ right))
  nodes (read n) = ok []
  nodes (read_zero n) = ok []

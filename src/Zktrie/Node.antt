-- ===== src/Zktrie/Node.antt =====
-- src/common/zktrie/src/node.rs: nodes, their bytes and hashes, and the empty trie.
pub mod Codec
use Prim.Native.String.{String}
use linea_sgx_prover.Prelude.{
  ℕ, zero, suc, ◌+◌, [], ◌∷◌, ◌++◌, Option, none, some, Bool, true, false, ◌==◌, if◌then◌else◌,
  length, replicate,
}
use linea_sgx_prover.Prelude.Results.{Result, ok, err, panic, ◌>>=◌, expect, unwrap, map_err}
use linea_sgx_prover.Bytes.{Bytes, slice, slice_from, bytes_eq}
use linea_sgx_prover.Bytes.Endian.{to_be}
use linea_sgx_prover.BtreeMap
use linea_sgx_prover.BtreeMap.{Map, bytes_ord}
use linea_sgx_prover.EthTypes.{Sh256}
use linea_sgx_prover.Zktrie.Types.{
  Env, zero_hash, zk_trie_depth, leaf_type_next_free_node, BranchNode, NodeValue, branch, leaf,
  empty_leaf, next_free, Node, Error, hash_fail, invalid_branch_node,
}

-- `NodeValue::ty`.
unfoldable pub ty : NodeValue → String
ty (branch _) = "branch"
ty empty_leaf = "emptyleaf"
ty (leaf _) = "leaf"
ty (next_free _) = "nextfree"

-- `NodeValue::new_next_free`.
unfoldable pub new_next_free : Bytes → NodeValue
new_next_free val = next_free (record { path = []; value = val })

-- `NodeValue::branch`.
unfoldable pub as_branch : NodeValue → Option BranchNode
as_branch (branch node) = some node
as_branch _ = none

-- `NodeValue::value`, and `Node::value`.
unfoldable pub value : NodeValue → Option Bytes
value (branch _) = none
value empty_leaf = some []
value (next_free node) = some node.value
value (leaf node) = some node.value

-- `NodeValue::write_to` into an empty vector: `NodeValue::to_bytes`.
unfoldable pub to_bytes : {E : Type 0} → NodeValue → Result E Bytes
to_bytes (branch node) = ok (node.left ++ node.right)
to_bytes (leaf node) = ok node.value
to_bytes (next_free node) = ok node.value
to_bytes empty_leaf = panic

unfoldable pub is_next_free : Node → Bool
is_next_free n = elim n.raw [ next_free _ ↦ true | _ ↦ false ]

-- `BranchNode::child`.
unfoldable pub child : {E : Type 0} → BranchNode → ℕ → Result E Sh256
child b idx = if idx == 0 then ok b.left else if idx == 1 then ok b.right else panic

-- `BranchNode::new_replace`.
unfoldable pub new_replace : BranchNode → ℕ → Sh256 → BranchNode
new_replace b idx n = record {
  left = if idx == 0 then n else b.left;
  right = if idx == 1 then n else b.right;
}

-- `NodeValue::parse_leaf`.
unfoldable pub parse_leaf : Bytes → Bytes → NodeValue
parse_leaf path buf = leaf (record { path = path; value = buf })

-- `Node::empty_leaf`.
abbrev pub empty_leaf_node : Node
empty_leaf_node = record { raw = empty_leaf; hash = zero_hash }

module _ (env : Env) where
  -- `trie_hash` of hash.rs.
  unfoldable pub trie_hash : Bytes → Result Error Sh256
  trie_hash bytes = map_err hash_fail (env.sum bytes)

  -- `hash` of utils.rs.
  unfoldable pub hash : {E : Type 0} → Bytes → Result E Sh256
  hash msg = unwrap (env.sum msg)

  -- `NodeValue::hash`.
  unfoldable pub value_hash : {E : Type 0} → NodeValue → Result E Sh256
  unfolding to_bytes
  value_hash empty_leaf = ok zero_hash
  value_hash v = do bytes ← to_bytes v; unwrap (env.sum bytes)

  -- `Node::new`.
  unfoldable pub new : {E : Type 0} → NodeValue → Result E Node
  unfolding value_hash
  new v = do h ← value_hash v; ok (record { raw = v; hash = h })

  -- `Node::branch`, which is also `Node::raw_branch`.
  unfoldable pub branch_node : {E : Type 0} → Sh256 → Sh256 → Result E Node
  unfolding new
  branch_node left right = new (branch (record { left = left; right = right }))

  unfoldable pub raw_branch_auto : {E : Type 0} → ℕ → Sh256 → Sh256 → Result E Node
  unfolding branch_node
  raw_branch_auto path leaf' sibling =
      if path == 0 then branch_node leaf' sibling else branch_node sibling leaf'

  -- `Node::top_node`.
  unfoldable pub top_node : {E : Type 0} → ℕ → Sh256 → Result E Node
  unfolding branch_node
  top_node next_free_node sub_root = branch_node (env.eth.to_big_endian next_free_node) sub_root

  -- `Node::leaf`.
  unfoldable pub leaf_node : {E : Type 0} → Bytes → Bytes → Result E Node
  unfolding new
  leaf_node path v = new (
      if bytes_eq path (leaf_type_next_free_node ∷ [])
      then next_free (record { path = path; value = v })
      else leaf (record { path = path; value = v }))

  -- `Node::next_free_node`.
  unfoldable pub next_free_node : {E : Type 0} → ℕ → Result E Node
  unfolding new new_next_free to_be
  next_free_node index = new (new_next_free (replicate 24 0 ++ to_be 8 index))

  -- The loop of `init_world_state`.
  unfoldable pub grow_empty :
      {E : Type 0} → ℕ → Node → Map Sh256 Node → Result E (Node × Map Sh256 Node)
  unfolding branch_node BtreeMap.insert
  grow_empty zero node nodes = ok (node, nodes)
  grow_empty (suc n) node nodes = do
    up ← branch_node node.hash node.hash
    grow_empty n up (BtreeMap.insert up.hash up nodes)

  -- `init_world_state`: the root of the empty trie, and its nodes (`EMPTY_TRIE_NODE`).
  unfoldable pub init_world_state : {E : Type 0} → Result E (Node × Map Sh256 Node)
  unfolding grow_empty
  init_world_state = do
    (node, nodes) ←
        grow_empty zk_trie_depth empty_leaf_node (BtreeMap.insert zero_hash empty_leaf_node [])
    root ← branch_node zero_hash node.hash
    ok (root, BtreeMap.insert root.hash root nodes)

  -- `Node::is_empty_node`.
  unfoldable pub is_empty_node : {E : Type 0} → Node → Result E Bool
  unfolding init_world_state
  is_empty_node n = do (_, nodes) ← init_world_state; ok (BtreeMap.contains_key n.hash nodes)

  -- `NodeValue::parse_branch`, which is also `NodeValue::parse_root`.
  unfoldable pub parse_branch : Bytes → Result Error NodeValue
  parse_branch buf =
      if length buf == 64
      then (do
        l ← slice buf 0 32
        left ← expect (env.eth.from_slice l)
        r ← slice_from buf 32
        right ← expect (env.eth.from_slice r)
        ok (branch (record { left = left; right = right })))
      else err (invalid_branch_node buf)

-- `enum HashOrNode`, with the conversions from a hash and from a node as its constructors.
pub data HashOrNode : Type 0 where
  of_node : Node → HashOrNode
  of_hash : Sh256 → HashOrNode

unfoldable pub wrap_branch_child : Node → HashOrNode
wrap_branch_child n = elim n.raw [ next_free _ ↦ of_node n | _ ↦ of_hash n.hash ]

-- `HashOrNode::hash`.
unfoldable pub child_hash : HashOrNode → Sh256
child_hash (of_hash h) = h
child_hash (of_node n) = n.hash

-- `HashOrNode::expand`, given `db.get_node`.
unfoldable pub expand :
    (Sh256 → Result Error (Option Node)) → HashOrNode → Result Error (Option Node)
expand get_node (of_hash h) = get_node h
expand get_node (of_node n) = ok (some n)

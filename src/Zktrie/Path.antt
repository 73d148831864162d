-- ===== src/Zktrie/Path.antt =====
-- src/common/zktrie/src/utils.rs: leaf paths and node indices.
pub mod Bits
pub mod Index
use linea_sgx_prover.Prelude.{
  ℕ, zero, suc, ◌+◌, leb, ◌-◌, ◌/◌, ◌%◌, [], ◌∷◌, ◌++◌, ◌==◌, if◌then◌else◌, set, replicate, length,
}
use linea_sgx_prover.Prelude.Results.{Result, ok, panic, ◌>>=◌}
use linea_sgx_prover.Bytes.{Bytes, slice_from}
use linea_sgx_prover.Bytes.Endian.{to_be, from_be}
use linea_sgx_prover.EthTypes.{Sh256}
use linea_sgx_prover.Zktrie.Types.{zk_trie_depth, leaf_type_value}

-- `prefix_len`.
unfoldable pub prefix_len : Bytes → Bytes → ℕ
prefix_len [] b = 0
prefix_len (x ∷ a) [] = 0
prefix_len (x ∷ a) (y ∷ b) = if x == y then suc (prefix_len a b) else 0

-- `format_node_index`: the 8 bytes of a `u64` behind 24 zeros.
unfoldable pub format_node_index : ℕ → Sh256
unfolding to_be
format_node_index node_index = replicate 24 0 ++ to_be 8 node_index

-- `parse_node_index`: the last 8 bytes.
unfoldable pub parse_node_index : {E : Type 0} → Bytes → Result E ℕ
unfolding from_be
parse_node_index [] = ok 0
parse_node_index (b ∷ n) =
    if leb 8 (length (b ∷ n))
    then (do tmp ← slice_from (b ∷ n) (length (b ∷ n) - 8); ok (from_be tmp))
    else panic

-- The loop of `get_leaf_path`, by the index `i`: it writes the lowest bit, and `i -= 1` panics at
-- 0 before the test of the loop.
unfoldable pub write_bits : {E : Type 0} → ℕ → ℕ → Bytes → Result E Bytes
write_bits zero value path = panic
write_bits (suc i) value path =
    let rest = write_bits i (value / 2) (set path (suc i) (value % 2)) in
    if value / 2 == 0 then ok (set path (suc i) (value % 2)) else rest

-- `get_leaf_path`.
unfoldable pub get_leaf_path : {E : Type 0} → ℕ → Result E Bytes
unfolding write_bits
get_leaf_path idx = do
  path ← write_bits zk_trie_depth idx (1 ∷ replicate (zk_trie_depth + 1) 0)
  ok (set path (zk_trie_depth + 1) leaf_type_value)

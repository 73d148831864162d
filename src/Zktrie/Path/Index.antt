-- ===== src/Zktrie/Path/Index.antt =====
-- Node indices of src/common/zktrie/src/utils.rs: encoding and decoding.
use linea_sgx_prover.Prelude.{ℕ, ◌^◌, ◌<◌, ◌≡◌, ap, arith}
use linea_sgx_prover.Prelude.Results.{ok}
use linea_sgx_prover.Bytes.Endian.{to_be}
use linea_sgx_prover.Zktrie.Path.{format_node_index, parse_node_index}

-- A 64-bit node index survives its 32-byte encoding.
pub parse-format :
    (E : Type 0) (i : ℕ) → i < 2 ^ 64 → parse_node_index {E = E} (format_node_index i) ≡ ok i
unfolding parse_node_index format_node_index to_be
parse-format E i h = ap ok (omega arith)

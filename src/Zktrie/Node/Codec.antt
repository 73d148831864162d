-- ===== src/Zktrie/Node/Codec.antt =====
-- The bytes of a branch node (src/common/zktrie/src/node.rs): `write_to` and `parse_branch`.
use linea_sgx_prover.Prelude.{◌≡◌, ◌++◌, arith, length, length-append, take, drop}
use linea_sgx_prover.Prelude.Results.{ok}
use linea_sgx_prover.Bytes.{Bytes, take-append, drop-append}
use linea_sgx_prover.EthTypes.{Sh256}
use linea_sgx_prover.Zktrie.Types.{Env, BranchNode, branch, Error}
use linea_sgx_prover.Zktrie.Node.{to_bytes, parse_branch}

parse_halves :
    (env : Env) (left right : Sh256)
    → length left ≡ 32
    → length right ≡ 32
    → parse_branch env (left ++ right) ≡ ok (branch (record { left = left; right = right }))
unfolding parse_branch
parse_halves env left right hl hr =
    let size : length (left ++ right) ≡ 64 = omega (arith, length-append left right) in
    let first : take 32 (left ++ right) ≡ left = rw (← hl) (take-append left right) in
    let second : drop 32 (left ++ right) ≡ right = rw (← hl) (drop-append left right) in
    ground
      (arith, size, first, second, env.eth.from_slice_lem left hl, env.eth.from_slice_lem right hr)

-- A branch of two 32-byte hashes is read back from its bytes.
pub parse_branch-to_bytes :
    (env : Env) (b : BranchNode) {buf : Bytes}
    → length b.left ≡ 32
    → length b.right ≡ 32
    → to_bytes {E = Error} (branch b) ≡ ok buf
    → parse_branch env buf ≡ ok (branch b)
unfolding to_bytes
parse_branch-to_bytes env b {buf} hl hr h =
    let e : b.left ++ b.right ≡ buf = cc in rw (← e) (parse_halves env b.left b.right hl hr)

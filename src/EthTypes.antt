-- ===== src/EthTypes.antt =====
-- The 256-bit types of the crate `eth_types`, which the program takes from outside: what it uses of
-- `SU256` and `SH256`, and what it relies on.
use linea_sgx_prover.Prelude.{
  ℕ, ◌^◌, ◌<◌, ◌≡◌, refl, Option, none, some, ltb, arith, if◌then◌else◌, length, ◌==◌,
}
use linea_sgx_prover.Bytes.{Bytes}
use linea_sgx_prover.Bytes.Endian.{to_be, from_be}

-- A hash is its 32 bytes.
abbrev pub Sh256 : Type 0
Sh256 = Bytes

-- An address is its 20 bytes.
abbrev pub Sh160 : Type 0
Sh160 = Bytes

-- `none` is a panic.
pub record EthTypes : Type 0 where
  -- `SU256::to_big_endian` into 32 bytes, and the conversion of a `SU256` into a `SH256`.
  pub to_big_endian : ℕ → Bytes
  pub from_big_endian : Bytes → ℕ
  pub as_u64 : ℕ → Option ℕ
  pub from_slice : Bytes → Option Sh256
  pub to_big_endian_lem : (n : ℕ) → n < 2 ^ 256 → to_big_endian n ≡ to_be 32 n
  pub from_big_endian_lem : (b : Bytes) → length b ≡ 32 → from_big_endian b ≡ from_be b
  pub as_u64_lem : (n : ℕ) → n < 2 ^ 64 → as_u64 n ≡ some n
  pub from_slice_lem : (b : Bytes) → length b ≡ 32 → from_slice b ≡ some b

unfoldable pub narrow : ℕ → Option ℕ
narrow n = if ltb n (2 ^ 64) then some n else none

unfoldable pub exactly_32 : Bytes → Option Sh256
exactly_32 b = if length b == 32 then some b else none

pub narrow_lem : (n : ℕ) → n < 2 ^ 64 → narrow n ≡ some n
unfolding narrow
narrow_lem n h = ground arith

pub exactly_32_lem : (b : Bytes) → length b ≡ 32 → exactly_32 b ≡ some b
unfolding exactly_32
exactly_32_lem b h = ground arith

-- The big-endian types themselves meet what the program relies on.
unfoldable pub big_endian_types : EthTypes
unfolding to_be from_be narrow exactly_32
big_endian_types = record {
  to_big_endian = to_be 32;
  from_big_endian = from_be;
  as_u64 = narrow;
  from_slice = exactly_32;
  to_big_endian_lem = λ n h. refl;
  from_big_endian_lem = λ b h. refl;
  as_u64_lem = narrow_lem;
  from_slice_lem = exactly_32_lem;
}

-- ===== src/Bytes/Slices.antt =====
-- Slices of a concatenation.
use linea_sgx_prover.Prelude.{ℕ, ◌+◌, ◌-◌, ◌≡◌, ◌++◌, arith, length, length-append, take, drop}
use linea_sgx_prover.Prelude.Results.{ok}
use linea_sgx_prover.Bytes.{Bytes, slice, slice_from, take-append, drop-append}

pub drop_front : (xs ys : Bytes) (i : ℕ) → length xs ≡ i → drop i (xs ++ ys) ≡ ys
drop_front xs ys i h = rw (← h) (drop-append xs ys)

pub take_front : (xs ys : Bytes) (i : ℕ) → length xs ≡ i → take i (xs ++ ys) ≡ xs
take_front xs ys i h = rw (← h) (take-append xs ys)

pub slice_mid :
    (E : Type 0) (xs ys zs : Bytes) (i j : ℕ)
    → length xs ≡ i
    → i + length ys ≡ j
    → slice {E = E} (xs ++ (ys ++ zs)) i j ≡ ok ys
slice_mid E xs ys zs i j hi hj =
    let n : j - i ≡ length ys = omega arith in
    ground (
      arith,
      length-append xs (ys ++ zs),
      length-append ys zs,
      drop_front xs (ys ++ zs) i hi,
      take_front ys zs (j - i) (omega arith),
    )

pub slice_end :
    (E : Type 0) (xs ys : Bytes) (i : ℕ) → length xs ≡ i → slice_from {E = E} (xs ++ ys) i ≡ ok ys
slice_end E xs ys i h = ground (arith, length-append xs ys, drop_front xs ys i h)

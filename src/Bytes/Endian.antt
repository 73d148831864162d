-- ===== src/Bytes/Endian.antt =====
-- `to_be_bytes` and `from_be_bytes` of unsigned integers, at any width in bytes.
use native.Mathlib.Nat.{pow-suc}
use linea_sgx_prover.Prelude.{
  ℕ, zero, suc, ◌+◌, ◌*◌, ◌/◌, ◌%◌, ◌^◌, ◌<◌, ◌≡◌, refl, List, [], ◌∷◌, ◌++◌, arith, length,
  length-append,
}

-- The `w` bytes of `n`, the most significant first.
unfoldable pub to_be : ℕ → ℕ → List ℕ
to_be zero n = []
to_be (suc w) n = to_be w (n / 256) ++ (n % 256) ∷ []

unfoldable pub from_be_from : ℕ → List ℕ → ℕ
from_be_from acc [] = acc
from_be_from acc (b ∷ bs) = from_be_from (acc * 256 + b) bs

unfoldable pub from_be : List ℕ → ℕ
unfolding from_be_from
from_be bs = from_be_from 0 bs

pub length-to_be : (w n : ℕ) → length (to_be w n) ≡ w
unfolding to_be
length-to_be zero n = refl
length-to_be (suc w) n =
    omega (arith, length-to_be w (n / 256), length-append (to_be w (n / 256)) ((n % 256) ∷ []))

from_be_from-append :
    (acc : ℕ) (xs : List ℕ) (b : ℕ)
    → from_be_from acc (xs ++ b ∷ []) ≡ from_be_from acc xs * 256 + b
unfolding from_be_from
from_be_from-append acc [] b = refl
from_be_from-append acc (x ∷ xs) b = from_be_from-append (acc * 256 + x) xs b

-- Decoding what was encoded gives the number back, if it fits the width.
pub from_be-to_be : (w n : ℕ) → n < 256 ^ w → from_be (to_be w n) ≡ n
unfolding to_be from_be
from_be-to_be zero n h = omega arith
from_be-to_be (suc w) n h =
    let fits : n / 256 < 256 ^ w = let e = pow-suc 256 w in omega arith in
    omega
      (arith, from_be_from-append 0 (to_be w (n / 256)) (n % 256), from_be-to_be w (n / 256) fits)

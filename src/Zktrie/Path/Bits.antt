-- ===== src/Zktrie/Path/Bits.antt =====
-- `get_leaf_path` of src/common/zktrie/src/utils.rs against the binary digits of the index.
use native.Mathlib.Nat.{pow-suc}
use mathlib.Core.List.{append_assoc}
use linea_sgx_prover.Prelude.{
  ℕ, ltb, if◌then◌else◌, zero, suc, ◌/◌, ◌%◌, ◌^◌, ◌≤◌, ◌<◌, ◌≡◌, refl, ap, ◌∙◌, [], ◌∷◌, ◌++◌,
  ◌==◌, arith, set, replicate, length, length-append, Bool-cases, true, false, inl, inr,
}
use linea_sgx_prover.Prelude.Results.{Result, ok, panic}
use linea_sgx_prover.Bytes.{Bytes}
use linea_sgx_prover.Zktrie.Path.{write_bits, get_leaf_path}

-- The `w` binary digits of `n`, the highest first.
unfoldable pub bits : ℕ → ℕ → Bytes
bits zero n = []
bits (suc w) n = bits w (n / 2) ++ (n % 2) ∷ []

replicate-append_zero : (w : ℕ) → ◌++◌ {A = ℕ} (replicate w 0) (0 ∷ []) ≡ replicate (suc w) 0
replicate-append_zero zero = refl
replicate-append_zero (suc w) = ap (◌∷◌ 0) (replicate-append_zero w)

bits_zero : (w : ℕ) → bits w 0 ≡ replicate w 0
unfolding bits
bits_zero zero = refl
bits_zero (suc w) = rw (bits_zero w) (replicate-append_zero w)

pub length-bits : (w n : ℕ) → length (bits w n) ≡ w
unfolding bits
length-bits zero n = refl
length-bits (suc w) n =
    omega (arith, length-bits w (n / 2), length-append (bits w (n / 2)) ((n % 2) ∷ []))

split_last :
    (xs ys : Bytes) (b c : ℕ)
    → length xs ≡ length ys
    → xs ++ b ∷ [] ≡ ys ++ c ∷ []
    → (xs ≡ ys) × (b ≡ c)
split_last [] [] b c l e = (refl, cc)
split_last [] (y ∷ ys) b c l e = absurd (omega arith)
split_last (x ∷ xs) [] b c l e = absurd (omega arith)
split_last (x ∷ xs) (y ∷ ys) b c l e =
    let (front, last) = split_last xs ys b c (omega arith) (cc) in (cc, last)

-- The digits of a number that fits determine it.
pub bits_injective : (w m n : ℕ) → m < 2 ^ w → n < 2 ^ w → bits w m ≡ bits w n → m ≡ n
unfolding bits
bits_injective zero m n hm hn e = omega arith
bits_injective (suc w) m n hm hn e =
    let p = pow-suc 2 w in
    let (front, last) =
      split_last (bits w (m / 2)) (bits w (n / 2)) (m % 2) (n % 2)
        (omega (arith, length-bits w (m / 2), length-bits w (n / 2))) e in
    let halves = bits_injective w (m / 2) (n / 2) (omega arith) (omega arith) front in omega arith

bits-suc : (w n : ℕ) → bits (suc w) n ≡ bits w (n / 2) ++ (n % 2) ∷ []
unfolding bits
bits-suc w n = refl

set_at :
    (i v : ℕ) (tail : Bytes) → set (replicate (suc i) 0 ++ tail) i v ≡ replicate i 0 ++ v ∷ tail
set_at zero v tail = refl
set_at (suc i) v tail = ap (◌∷◌ 0) (set_at i v tail)

write_bits-suc :
    (E : Type 0) (i value : ℕ) (path : Bytes)
    → write_bits {E = E} (suc i) value path ≡ (
        if value / 2 == 0
        then ok (set path (suc i) (value % 2))
        else write_bits i (value / 2) (set path (suc i) (value % 2)))
unfolding write_bits
write_bits-suc E i value path = refl

-- From a path that is still zero before the index, the loop writes the digits.
write_bits-bits :
    (E : Type 0) (i value head : ℕ) (tail : Bytes)
    → value < 2 ^ suc i
    → write_bits {E = E} (suc i) value (head ∷ replicate (suc i) 0 ++ tail)
      ≡ ok (head ∷ bits (suc i) value ++ tail)
write_bits-bits E zero value head tail h =
    let small : (value / 2 == 0) ≡ true = ground arith in
    rw (write_bits-suc E 0 value (head ∷ 0 ∷ tail), small, bits-suc 0 value) (unfold bits in refl)
write_bits-bits E (suc i) value head tail h =
    let p = pow-suc 2 (suc i) in
    let whole = append_assoc (bits (suc i) (value / 2)) ((value % 2) ∷ []) tail in
    let step =
      write_bits-suc E (suc i) value (head ∷ replicate (suc (suc i)) 0 ++ tail)
      ∙ ap
          (λ t. if value / 2 == 0 then ok (head ∷ t) else write_bits (suc i) (value / 2) (head ∷ t))
          (set_at (suc i) (value % 2) tail) in
    elim (Bool-cases (value / 2 == 0)) [
      | inl done ↦
          let none : value / 2 ≡ 0 = ground arith in
          rw (step, done, bits-suc (suc i) value, whole, none, bits_zero (suc i)) refl
      | inr more ↦
          rw (step, more, bits-suc (suc i) value, whole)
            (write_bits-bits E i (value / 2) head ((value % 2) ∷ tail) (omega arith))
    ]

two_pow_pos : (i : ℕ) → 0 < 2 ^ i
two_pow_pos zero = omega arith
two_pow_pos (suc i) = omega (arith, pow-suc 2 i, two_pow_pos i)

-- An index of more than `i` digits runs past the front of the path.
write_bits_panic :
    (E : Type 0) (i value : ℕ) (path : Bytes)
    → 2 ^ i ≤ value
    → write_bits {E = E} i value path ≡ panic
unfolding write_bits
write_bits_panic E zero value path h = refl
write_bits_panic E (suc i) value path h =
    let p = pow-suc 2 i in
    let q = two_pow_pos i in
    let more : (value / 2 == 0) ≡ false = let big : 0 < value / 2 = omega arith in ground arith in
    rw more (write_bits_panic E i (value / 2) (set path (suc i) (value % 2)) (omega arith))

set_last : (n : ℕ) (xs : Bytes) (a v : ℕ) → length xs ≡ n → set (xs ++ a ∷ []) n v ≡ xs ++ v ∷ []
set_last zero [] a v h = refl
set_last zero (x ∷ xs) a v h = absurd (omega arith)
set_last (suc n) [] a v h = absurd (omega arith)
set_last (suc n) (x ∷ xs) a v h = ap (◌∷◌ x) (set_last n xs a v (omega arith))

-- The path of an index of at most 40 binary digits is 1, these digits from the highest on, and
-- the marker of a value leaf; a larger index panics.
pub get_leaf_path-bits :
    (E : Type 0) (idx : ℕ)
    → get_leaf_path {E = E} idx
      ≡ (if ltb idx (2 ^ 40) then ok (1 ∷ bits 40 idx ++ 0x16 ∷ []) else panic)
unfolding get_leaf_path
get_leaf_path-bits E idx = elim (Bool-cases (ltb idx (2 ^ 40))) [
  | inl small ↦
      rw
        (
          small,
          write_bits-bits E 39 idx 1 (0 ∷ []) (ground arith),
          set_last 40 (bits 40 idx) 0 0x16 (length-bits 40 idx),
        )
        refl
  | inr large ↦ rw (large, write_bits_panic E 40 idx (1 ∷ replicate 41 0) (ground arith))
]

pub path_of :
    (E : Type 0) (idx : ℕ) {path : Bytes}
    → get_leaf_path {E = E} idx ≡ ok path
    → (idx < 2 ^ 40) × (path ≡ 1 ∷ bits 40 idx ++ 0x16 ∷ [])
path_of E idx {path} h = elim (Bool-cases (ltb idx (2 ^ 40))) [
  | inl small ↦
      let e : ◌≡◌ {A = Result E Bytes} (ok (1 ∷ bits 40 idx ++ 0x16 ∷ [])) (ok path) =
        rw (get_leaf_path-bits E idx, small) at h in
      (ground arith, cc)
  | inr large ↦
      let e : ◌≡◌ {A = Result E Bytes} panic (ok path) =
        rw (get_leaf_path-bits E idx, large) at h in
      cc
]

-- Two indices with one path are one index.
pub get_leaf_path_injective :
    (E : Type 0) (i j : ℕ) {path : Bytes}
    → get_leaf_path {E = E} i ≡ ok path
    → get_leaf_path {E = E} j ≡ ok path
    → i ≡ j
get_leaf_path_injective E i j hi hj =
    let (small, digits) = path_of E i hi in
    let (small', digits') = path_of E j hj in
    let same : bits 40 i ++ 0x16 ∷ [] ≡ bits 40 j ++ 0x16 ∷ [] = cc in
    let (front, last) =
      split_last (bits 40 i) (bits 40 j) 0x16 0x16
        (omega (arith, length-bits 40 i, length-bits 40 j)) same in
    bits_injective 40 i j small small' front

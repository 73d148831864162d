-- ===== src/Bytes.antt =====
-- Byte strings, and the slicing and integer encoding of Rust's standard library that
-- src/common/zktrie/src/utils.rs, node.rs and src/common/linea/src/engine.rs use.
pub mod Endian
pub mod Slices
use linea_sgx_prover.Prelude.{
  ℕ, ◌+◌, ◌-◌, ◌≡◌, refl, ap, Bool, true, false, List, [], ◌∷◌, ◌++◌, ◌&&◌, arith, compare,
  Ordering, ◌==◌, leb, if◌then◌else◌, length, take, drop,
}
use linea_sgx_prover.Prelude.Results.{Result, ok, panic}

abbrev pub Bytes : Type 0
Bytes = List ℕ

-- `a == b` on byte strings.
abbrev pub bytes_eq : Bytes → Bytes → Bool
bytes_eq [] [] = true
bytes_eq (a ∷ as') (b ∷ bs) = a == b && bytes_eq as' bs
bytes_eq _ _ = false

-- `a.cmp(&b)`: the lexicographic order of byte strings.
abbrev pub compare_bytes : Bytes → Bytes → Ordering
compare_bytes [] [] = Ordering.eq
compare_bytes [] (b ∷ bs) = Ordering.lt
compare_bytes (a ∷ as') [] = Ordering.gt
compare_bytes (a ∷ as') (b ∷ bs) = elim (compare a b) [
  | Ordering.lt ↦ Ordering.lt
  | Ordering.eq ↦ compare_bytes as' bs
  | Ordering.gt ↦ Ordering.gt
]

-- `&xs[a..b]`.
abbrev pub slice : {E : Type 0} → Bytes → ℕ → ℕ → Result E Bytes
slice xs a b = if leb a b && leb b (length xs) then ok (take (b - a) (drop a xs)) else panic

-- `&xs[a..]`.
abbrev pub slice_from : {E : Type 0} → Bytes → ℕ → Result E Bytes
slice_from xs a = if leb a (length xs) then ok (drop a xs) else panic

-- `dst.copy_from_slice(src)` for a destination of `n` bytes: the new content.
abbrev pub copy_from_slice : {E : Type 0} → ℕ → Bytes → Result E Bytes
copy_from_slice n src = if length src == n then ok src else panic

pub bytes_eq_refl : (a : Bytes) → bytes_eq a a ≡ true
bytes_eq_refl [] = refl
bytes_eq_refl (x ∷ xs) = ground (arith, bytes_eq_refl xs)

pub eq_of_bytes_eq : (a b : Bytes) → bytes_eq a b ≡ true → a ≡ b
eq_of_bytes_eq [] [] h = refl
eq_of_bytes_eq [] (y ∷ ys) h = absurd (ground arith)
eq_of_bytes_eq (x ∷ xs) [] h = absurd (ground arith)
eq_of_bytes_eq (x ∷ xs) (y ∷ ys) h = ground (arith, eq_of_bytes_eq xs ys)

pub compare_bytes_refl : (a : Bytes) → compare_bytes a a ≡ Ordering.eq
compare_bytes_refl [] = refl
compare_bytes_refl (x ∷ xs) = ground (arith, compare_bytes_refl xs)

pub eq_of_compare_bytes : (a b : Bytes) → compare_bytes a b ≡ Ordering.eq → a ≡ b
eq_of_compare_bytes [] [] h = refl
eq_of_compare_bytes [] (y ∷ ys) h = absurd (ground arith)
eq_of_compare_bytes (x ∷ xs) [] h = absurd (ground arith)
eq_of_compare_bytes (x ∷ xs) (y ∷ ys) h = ground (arith, eq_of_compare_bytes xs ys)

pub take-append : (xs ys : Bytes) → take (length xs) (xs ++ ys) ≡ xs
take-append [] ys = refl
take-append (x ∷ xs) ys = ap (◌∷◌ x) (take-append xs ys)

pub drop-append : (xs ys : Bytes) → drop (length xs) (xs ++ ys) ≡ ys
drop-append [] ys = refl
drop-append (x ∷ xs) ys = drop-append xs ys

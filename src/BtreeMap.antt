-- ===== src/BtreeMap.antt =====
-- `std::collections::BTreeMap` and `BTreeSet` as association lists in the order of their keys.
pub mod Groups
pub mod Entries
use linea_sgx_prover.Prelude.{
  ℕ, ◌≡◌, refl, Option, none, some, List, [], ◌∷◌, Bool, true, false, arith, compare, Ordering, ◌≢◌,
}
use linea_sgx_prover.Bytes.{Bytes, compare_bytes, compare_bytes_refl, eq_of_compare_bytes}

-- `Ord`, with what a map needs of it.
pub record Ord (K : Type 0) : Type 0 where
  pub cmp : K → K → Ordering
  pub cmp_refl : (a : K) → cmp a a ≡ Ordering.eq
  pub eq_of_cmp : (a b : K) → cmp a b ≡ Ordering.eq → a ≡ b

pub nat_refl : (a : ℕ) → compare a a ≡ Ordering.eq
nat_refl a = ground arith

pub nat_eq : (a b : ℕ) → compare a b ≡ Ordering.eq → a ≡ b
nat_eq a b h = ground arith

instance abbrev pub nat_ord : Ord ℕ
nat_ord = record { cmp = compare; cmp_refl = nat_refl; eq_of_cmp = nat_eq }

instance abbrev pub bytes_ord : Ord Bytes
bytes_ord = record {
  cmp = compare_bytes;
  cmp_refl = compare_bytes_refl;
  eq_of_cmp = eq_of_compare_bytes;
}

-- The order of the key `(u64, SH256)`.
abbrev pub compare_slot : ℕ × Bytes → ℕ × Bytes → Ordering
compare_slot (p, a) (q, b) = elim (compare p q) [
  | Ordering.lt ↦ Ordering.lt
  | Ordering.eq ↦ compare_bytes a b
  | Ordering.gt ↦ Ordering.gt
]

pub slot_refl : (a : ℕ × Bytes) → compare_slot a a ≡ Ordering.eq
slot_refl (p, a) = ground (arith, compare_bytes_refl a)

pub slot_eq : (a b : ℕ × Bytes) → compare_slot a b ≡ Ordering.eq → a ≡ b
slot_eq (p, a) (q, b) h = ground (arith, eq_of_compare_bytes a b)

instance abbrev pub slot_ord : Ord (ℕ × Bytes)
slot_ord = record { cmp = compare_slot; cmp_refl = slot_refl; eq_of_cmp = slot_eq }

abbrev pub Map : Type 0 → Type 0 → Type 0
Map K V = List (K × V)

module _ {K V : Type 0} ⦃o : Ord K⦄ where
  unfoldable pub get : K → Map K V → Option V
  get k [] = none
  get k ((j, v) ∷ m) = elim (o.cmp k j) [ Ordering.eq ↦ some v | _ ↦ get k m ]

  unfoldable pub insert : K → V → Map K V → Map K V
  insert k v [] = (k, v) ∷ []
  insert k v ((j, w) ∷ m) = elim (o.cmp k j) [
    | Ordering.lt ↦ (k, v) ∷ (j, w) ∷ m
    | Ordering.eq ↦ (k, v) ∷ m
    | Ordering.gt ↦ (j, w) ∷ insert k v m
  ]

  unfoldable pub remove : K → Map K V → Map K V
  remove k [] = []
  remove k ((j, w) ∷ m) = elim (o.cmp k j) [ Ordering.eq ↦ remove k m | _ ↦ (j, w) ∷ remove k m ]

  -- `m.entry(k).or_insert(v)`: the map afterwards, and the value in the entry.
  unfoldable pub or_insert : K → V → Map K V → Map K V × V
  unfolding get insert
  or_insert k v m = elim (get k m) [ none ↦ (insert k v m, v) | some w ↦ (m, w) ]

  unfoldable pub contains_key : K → Map K V → Bool
  unfolding get
  contains_key k m = elim (get k m) [ none ↦ false | some _ ↦ true ]

  abbrev pub keys : Map K V → List K
  keys [] = []
  keys ((j, w) ∷ m) = j ∷ keys m

  pub get-insert_self : (k : K) (v : V) (m : Map K V) → get k (insert k v m) ≡ some v
  unfolding get insert
  get-insert_self k v [] = rw (o.cmp_refl k)
  get-insert_self k v ((j, w) ∷ m) = ground (arith, o.cmp_refl k, get-insert_self k v m)

  pub get-insert_ne : (k j : K) (v : V) (m : Map K V) → j ≢ k → get j (insert k v m) ≡ get j m
  unfolding get insert
  get-insert_ne k j v [] h = ground (arith, o.eq_of_cmp j k)
  get-insert_ne k j v ((i, w) ∷ m) h =
      ground (arith, o.eq_of_cmp j k, o.eq_of_cmp k i, o.eq_of_cmp j i, get-insert_ne k j v m)

  pub get-remove_self : (k : K) (m : Map K V) → get k (remove k m) ≡ none
  unfolding get remove
  get-remove_self k [] = refl
  get-remove_self k ((j, w) ∷ m) = ground (arith, get-remove_self k m)

  pub get-remove_ne : (k j : K) (m : Map K V) → j ≢ k → get j (remove k m) ≡ get j m
  unfolding get remove
  get-remove_ne k j [] h = refl
  get-remove_ne k j ((i, w) ∷ m) h =
      ground (arith, o.eq_of_cmp j i, o.eq_of_cmp k i, get-remove_ne k j m)

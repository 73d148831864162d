-- ===== src/BtreeMap/Entries.antt =====
-- The entries of a map from keys to `BTreeSet`s (module Groups), as its iterator gives them.
use linea_sgx_prover.Prelude.{
  ◌≡◌, refl, ap, ◌∙◌, inl, inr, ◌⊎◌, Option, none, some, [], ◌∷◌, Bool, true, false, ◌&&◌, ◌||◌,
  Ordering, Option-cases,
}
use linea_sgx_prover.BtreeMap.{Ord, Map, get, insert, contains_key, keys}
use linea_sgx_prover.BtreeMap.Groups.{BtreeSet, any, same, touch, add_to, contains_key-insert}

or_swap : (a b c : Bool) → (a || (b || c)) ≡ (b || (a || c))
or_swap true true c = refl
or_swap true false c = refl
or_swap false b c = refl

or_twice : (a b : Bool) → (a || (a || b)) ≡ (a || b)
or_twice true b = refl
or_twice false b = refl

or_assoc : (a b c : Bool) → ((a || b) || c) ≡ (a || (b || c))
or_assoc true b c = refl
or_assoc false b c = refl

and_or : (a b c : Bool) → (a && (b || c)) ≡ ((a && b) || (a && c))
and_or true b c = refl
and_or false b c = refl

and_false : (a : Bool) → (a && false) ≡ false
and_false true = refl
and_false false = refl

or_false : (a : Bool) → (a || false) ≡ a
or_false true = refl
or_false false = refl

Ordering-cases : (r : Ordering) → (r ≡ Ordering.lt) ⊎ ((r ≡ Ordering.eq) ⊎ (r ≡ Ordering.gt))
Ordering-cases Ordering.lt = inl refl
Ordering-cases Ordering.eq = inr (inl refl)
Ordering-cases Ordering.gt = inr (inr refl)

-- A key is in a map exactly where it is among its keys.
pub contains_key-keys :
    {K V : Type 0} ⦃o : Ord K⦄ (k : K) (m : Map K V) → contains_key k m ≡ any (same k) (keys m)
unfolding contains_key get
contains_key-keys k [] = refl
contains_key-keys ⦃o⦄ k ((j, w) ∷ m) = elim (Ordering-cases (o.cmp k j)) [
  | inl less ↦ rw (contains_key, get, same, less) (contains_key-keys k m)
  | inr (inl at) ↦ rw (contains_key, get, same, at) refl
  | inr (inr more) ↦ rw (contains_key, get, same, more) (contains_key-keys k m)
]

module _ {K V : Type 0} ⦃o : Ord K⦄ ⦃p : Ord V⦄ where
  -- Whether an entry is of a key and its set has a value.
  abbrev pub holds : K → V → K × BtreeSet V → Bool
  holds j w (k, s) = same j k && contains_key w s

  entry :
      (k i : K) (u : BtreeSet V) (m : Map K (BtreeSet V)) {s : BtreeSet V}
      → o.cmp k i ≡ Ordering.eq
      → get k ((i, u) ∷ m) ≡ some s
      → (k ≡ i) × (s ≡ u)
  unfolding get
  entry k i u m {s} at e =
      let found : some u ≡ some s = rw (get, at) at e in (o.eq_of_cmp k i at, cc)

  -- The set that `get` finds is that of an entry.
  holds-get :
      (k : K) (m : Map K (BtreeSet V)) (j : K) (w : V) {s : BtreeSet V}
      → get k m ≡ some s
      → (holds j w (k, s) || any (holds j w) m) ≡ any (holds j w) m
  unfolding get
  holds-get k [] j w e = absurd (cc)
  holds-get k ((i, u) ∷ m) j w {s} e = elim (Ordering-cases (o.cmp k i)) [
    | inl less ↦
        or_swap (holds j w (k, s)) (holds j w (i, u)) (any (holds j w) m)
        ∙ ap (λ b. holds j w (i, u) || b) (holds-get k m j w (rw (get, less) at e))
    | inr (inl at) ↦
        let (at_key, is_set) = entry k i u m at e in
        let one : holds j w (k, s) ≡ holds j w (i, u) = cc in
        ap (λ b. b || (holds j w (i, u) || any (holds j w) m)) one
        ∙ or_twice (holds j w (i, u)) (any (holds j w) m)
    | inr (inr more) ↦
        or_swap (holds j w (k, s)) (holds j w (i, u)) (any (holds j w) m)
        ∙ ap (λ b. holds j w (i, u) || b) (holds-get k m j w (rw (get, more) at e))
  ]

  -- A set under a new key is one more entry.
  holds-insert_new :
      (k : K) (x : BtreeSet V) (m : Map K (BtreeSet V)) (j : K) (w : V)
      → get k m ≡ none
      → any (holds j w) (insert k x m) ≡ (holds j w (k, x) || any (holds j w) m)
  unfolding get insert
  holds-insert_new k x [] j w e = refl
  holds-insert_new k x ((i, u) ∷ m) j w e = elim (Ordering-cases (o.cmp k i)) [
    | inl less ↦ rw (insert, less) refl
    | inr (inl at) ↦
        absurd (let found : ◌≡◌ {A = Option (BtreeSet V)} (some u) none = rw (get, at) at e in cc)
    | inr (inr more) ↦
        rw (insert, more)
          (ap (λ b. holds j w (i, u) || b) (holds-insert_new k x m j w (rw (get, more) at e))
            ∙ or_swap (holds j w (i, u)) (holds j w (k, x)) (any (holds j w) m))
  ]

  -- A set that is put in the place of a smaller one adds what it has more.
  holds-insert_over :
      (k : K) (x : BtreeSet V) (m : Map K (BtreeSet V)) (j : K) (w : V) (c : Bool) {s : BtreeSet V}
      → get k m ≡ some s
      → contains_key w x ≡ (c || contains_key w s)
      → any (holds j w) (insert k x m) ≡ ((same j k && c) || any (holds j w) m)
  unfolding get insert contains_key
  holds-insert_over k x [] j w c e more_in = absurd (cc)
  holds-insert_over k x ((i, u) ∷ m) j w c {s} e more_in =
      let whole : holds j w (k, x) ≡ ((same j k && c) || holds j w (k, s)) =
        ap (λ b. same j k && b) more_in ∙ and_or (same j k) c (contains_key w s) in
      elim (Ordering-cases (o.cmp k i)) [
        | inl less ↦
            rw (insert, less)
              (ap (λ b. b || any (holds j w) ((i, u) ∷ m)) whole
                ∙ or_assoc (same j k && c) (holds j w (k, s)) (any (holds j w) ((i, u) ∷ m))
                ∙ ap (λ b. (same j k && c) || b) (holds-get k ((i, u) ∷ m) j w e))
        | inr (inl at) ↦
            let (at_key, is_set) = entry k i u m at e in
            let one : holds j w (k, s) ≡ holds j w (i, u) = cc in
            rw (insert, at)
              (ap (λ b. b || any (holds j w) m) whole
                ∙ or_assoc (same j k && c) (holds j w (k, s)) (any (holds j w) m)
                ∙ ap (λ b. (same j k && c) || (b || any (holds j w) m)) one)
        | inr (inr greater) ↦
            rw (insert, greater)
              (ap (λ b. holds j w (i, u) || b)
                  (holds-insert_over k x m j w c (rw (get, greater) at e) more_in)
                ∙ or_swap (holds j w (i, u)) (same j k && c) (any (holds j w) m))
      ]

  pub holds-touch :
      (k : K) (m : Map K (BtreeSet V)) (j : K) (w : V)
      → any (holds j w) (touch k m) ≡ any (holds j w) m
  unfolding touch contains_key get
  holds-touch k m j w = elim (Option-cases (get k m)) [
    | inr (s, e) ↦ rw (touch, e) refl
    | inl e ↦
        rw (touch, e)
          (holds-insert_new k [] m j w e ∙ ap (λ b. b || any (holds j w) m) (and_false (same j k)))
  ]

  pub holds-add_to :
      (k : K) (v : V) (m : Map K (BtreeSet V)) (j : K) (w : V)
      → any (holds j w) (add_to k v m) ≡ ((same j k && same w v) || any (holds j w) m)
  unfolding add_to contains_key get
  holds-add_to k v m j w = elim (Option-cases (get k m)) [
    | inr (s, e) ↦
        rw (add_to, e)
          (holds-insert_over k (insert v tt s) m j w (same w v) e (contains_key-insert v tt s w))
    | inl e ↦
        rw (add_to, e)
          (holds-insert_new k (insert v tt []) m j w e
            ∙ ap (λ b. (same j k && b) || any (holds j w) m)
                (contains_key-insert v tt [] w ∙ or_false (same w v)))
  ]

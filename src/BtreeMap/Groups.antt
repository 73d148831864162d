-- ===== src/BtreeMap/Groups.antt =====
-- Maps from keys to `BTreeSet`s, as src/common/shomei/src/client.rs and
-- src/common/linea/src/block_executor.rs build them with the entry interface.
use mathlib.Core.Path.{subst}
use linea_sgx_prover.Prelude.{
  ◌≡◌, refl, ap, sym, ◌∙◌, inl, inr, ◌⊎◌, none, some, List, [], ◌∷◌, Bool, true, false, ◌&&◌, ◌||◌,
  Ordering, ◌≢◌, Option-cases, Bool-cases,
}
use linea_sgx_prover.BtreeMap.{Ord, Map, get, insert, contains_key, get-insert_self, get-insert_ne}

abbrev pub BtreeSet : Type 0 → Type 0
BtreeSet K = Map K (Unit {0})

abbrev pub any : {A : Type 0} → (A → Bool) → List A → Bool
any test [] = false
any test (x ∷ xs) = test x || any test xs

eq_of_same : (r : Ordering) → elim r [ Ordering.eq ↦ true | _ ↦ false ] ≡ true → r ≡ Ordering.eq
eq_of_same Ordering.lt h = absurd (cc)
eq_of_same Ordering.eq h = refl
eq_of_same Ordering.gt h = absurd (cc)

module _ {K : Type 0} ⦃o : Ord K⦄ where
  -- `a == b`, by the order.
  abbrev pub same : K → K → Bool
  same a b = elim (o.cmp a b) [ Ordering.eq ↦ true | _ ↦ false ]

  same_refl : {a b : K} → a ≡ b → same a b ≡ true
  same_refl {a} e = subst (λ x. same a x ≡ true) e (rw (same, o.cmp_refl a) refl)

  pub same-cases : (a b : K) → ((a ≡ b) × (same a b ≡ true)) ⊎ ((a ≢ b) × (same a b ≡ false))
  same-cases a b = elim (Bool-cases (same a b)) [
    | inl yes' ↦ inl (o.eq_of_cmp a b (eq_of_same (o.cmp a b) yes'), yes')
    | inr no' ↦ inr (λ e. absurd (let r = same_refl e in cc), no')
  ]

  pub contains_key-insert :
      {V : Type 0} (k : K) (v : V) (m : Map K V) (j : K)
      → contains_key j (insert k v m) ≡ (same j k || contains_key j m)
  unfolding contains_key
  contains_key-insert k v m j = elim (same-cases j k) [
    | inl (e, yes') ↦
        let found : get j (insert k v m) ≡ some v =
          ap (λ i. get i (insert k v m)) e ∙ get-insert_self k v m in
        rw (contains_key, found, yes') refl
    | inr (ne, no') ↦ rw (contains_key, get-insert_ne k j v m ne, no') refl
  ]

  pub contains_key_at :
      {V : Type 0} (k : K) (m : Map K V) (j : K) {v : V}
      → get k m ≡ some v
      → contains_key j m ≡ (same j k || contains_key j m)
  unfolding contains_key
  contains_key_at k m j {v} e = elim (same-cases j k) [
    | inl (at, yes') ↦
        let found : get j m ≡ some v = ap (λ i. get i m) at ∙ e in
        rw (contains_key, found, yes') refl
    | inr (ne, no') ↦ rw no' refl
  ]

module _ {K V : Type 0} ⦃o : Ord K⦄ ⦃p : Ord V⦄ where
  -- `m.entry(k).or_insert_with(|| BTreeSet::new())`.
  unfoldable pub touch : K → Map K (BtreeSet V) → Map K (BtreeSet V)
  touch k m = elim (get k m) [ none ↦ insert k [] m | some s ↦ m ]

  -- The same, and `.insert(v)` on the set.
  unfoldable pub add_to : K → V → Map K (BtreeSet V) → Map K (BtreeSet V)
  add_to k v m = elim (get k m) [
    | none ↦ insert k (insert v tt []) m
    | some s ↦ insert k (insert v tt s) m
  ]

  -- Whether the set of a key has a value.
  unfoldable pub has : Map K (BtreeSet V) → K → V → Bool
  unfolding contains_key
  has m k v = elim (get k m) [ none ↦ false | some s ↦ contains_key v s ]

  has-at :
      (m : Map K (BtreeSet V)) {k j : K} {s : BtreeSet V} (w : V)
      → j ≡ k
      → get k m ≡ some s
      → has m j w ≡ contains_key w s
  unfolding has
  has-at m {s} w at e =
      let found : get _ m ≡ some s = ap (λ i. get i m) at ∙ e in rw (has, found) refl

  has-none : (m : Map K (BtreeSet V)) {k j : K} (w : V) → j ≡ k → get k m ≡ none → has m j w ≡ false
  unfolding has
  has-none m w at e = let gone : get _ m ≡ none = ap (λ i. get i m) at ∙ e in rw (has, gone) refl

  has-insert_ne :
      (k : K) (s : BtreeSet V) (m : Map K (BtreeSet V)) (j : K) (w : V)
      → j ≢ k
      → has (insert k s m) j w ≡ has m j w
  unfolding has
  has-insert_ne k s m j w ne = rw (has, get-insert_ne k j s m ne) refl

  pub has-touch : (k : K) (m : Map K (BtreeSet V)) (j : K) (w : V) → has (touch k m) j w ≡ has m j w
  unfolding touch contains_key get
  has-touch k m j w = elim (Option-cases (get k m)) [
    | inr (s, e) ↦ rw (touch, e) refl
    | inl e ↦ elim (same-cases j k) [
      | inl (at, yes') ↦
          rw (touch, e)
            (has-at (insert k [] m) w at (get-insert_self k [] m) ∙ sym (has-none m w at e))
      | inr (ne, no') ↦ rw (touch, e) (has-insert_ne k [] m j w ne)
    ]
  ]

  pub has-add_to :
      (k : K) (v : V) (m : Map K (BtreeSet V)) (j : K) (w : V)
      → has (add_to k v m) j w ≡ ((same j k && same w v) || has m j w)
  unfolding add_to contains_key get
  has-add_to k v m j w = elim (Option-cases (get k m)) [
    | inl e ↦ elim (same-cases j k) [
      | inl (at, yes') ↦
          let now =
            has-at (insert k (insert v tt []) m) w at (get-insert_self k (insert v tt []) m) in
          rw (add_to, e, yes', has-none m w at e) (now ∙ contains_key-insert v tt [] w)
      | inr (ne, no') ↦ rw (add_to, e, no') (has-insert_ne k (insert v tt []) m j w ne)
    ]
    | inr (s, e) ↦ elim (same-cases j k) [
      | inl (at, yes') ↦
          let now =
            has-at (insert k (insert v tt s) m) w at (get-insert_self k (insert v tt s) m) in
          rw (add_to, e, yes', has-at m w at e) (now ∙ contains_key-insert v tt s w)
      | inr (ne, no') ↦ rw (add_to, e, no') (has-insert_ne k (insert v tt s) m j w ne)
    ]
  ]

  pub contains_key-touch :
      (k : K) (m : Map K (BtreeSet V)) (j : K)
      → contains_key j (touch k m) ≡ (same j k || contains_key j m)
  unfolding touch
  contains_key-touch k m j = elim (Option-cases (get k m)) [
    | inl e ↦ rw (touch, e) (contains_key-insert k [] m j)
    | inr (s, e) ↦ rw (touch, e) (contains_key_at k m j e)
  ]

  pub contains_key-add_to :
      (k : K) (v : V) (m : Map K (BtreeSet V)) (j : K)
      → contains_key j (add_to k v m) ≡ (same j k || contains_key j m)
  unfolding add_to
  contains_key-add_to k v m j = elim (Option-cases (get k m)) [
    | inl e ↦ rw (add_to, e) (contains_key-insert k (insert v tt []) m j)
    | inr (s, e) ↦ rw (add_to, e) (contains_key-insert k (insert v tt s) m j)
  ]

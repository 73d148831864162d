-- ===== src/Prelude/Results.antt =====
-- Results of Rust calls: a value, an error that the caller sees, or a panic (a failed `unwrap`, an
-- index out of range, `unreachable!`, an arithmetic overflow under overflow checks).
use mathlib.Core.Path.{◌≡◌, refl, ap}
use mathlib.Core.Bool.{Bool, true, false}
use mathlib.Core.Logic.{◌⊎◌, inl, inr}
use mathlib.Core.Option.{Option, none, some}
use native.Mathlib.Omega.{arith}

pub data Result (E : Type 0) (A : Type 0) : Type 0 where
  ok : A → Result E A
  err : E → Result E A
  panic : Result E A

infixl 5 ◌>>=◌ ◌>>◌
abbrev pub ◌>>=◌ : {E A B : Type 0} → Result E A → (A → Result E B) → Result E B
panic >>= next = panic
err e >>= next = err e
ok a >>= next = next a

abbrev pub ◌>>◌ : {E B : Type 0} → Result E (Unit {0}) → Result E B → Result E B
first >> second = first >>= λ _. second

-- `map_err(f)`.
abbrev pub map_err : {E F A : Type 0} → (E → F) → Result E A → Result F A
map_err f (ok a) = ok a
map_err f (err e) = err (f e)
map_err f panic = panic

-- `r.unwrap()`, in a function whose own errors are of the type `F`.
abbrev pub unwrap : {E F A : Type 0} → Result E A → Result F A
unwrap (ok a) = ok a
unwrap (err e) = panic
unwrap panic = panic

-- `o.unwrap()`, and any partial access that panics.
abbrev pub expect : {E A : Type 0} → Option A → Result E A
expect (some a) = ok a
expect none = panic

-- `o.ok_or_else(|| e)`.
abbrev pub ok_or : {E A : Type 0} → Option A → E → Result E A
ok_or (some a) e = ok a
ok_or none e = err e

-- `assert!(b)`.
abbrev pub assert : {E : Type 0} → Bool → Result E (Unit {0})
assert true = ok tt
assert false = panic

-- Where a chain succeeds, so do its parts.
pub >>=-inv :
    {E T U : Type 0} (call : Result E T) (next : T → Result E U) {u : U}
    → (call >>= next) ≡ ok u
    → (t : T) × (call ≡ ok t) × (next t ≡ ok u)
>>=-inv panic next e = absurd (ground arith)
>>=-inv (err x) next e = absurd (ground arith)
>>=-inv (ok t) next e = (t, refl, e)

pub Result-cases :
    {E A : Type 0} (r : Result E A)
    → ((a : A) × (r ≡ ok a)) ⊎ (((e : E) × (r ≡ err e)) ⊎ (r ≡ panic))
Result-cases (ok a) = inl (a, refl)
Result-cases (err e) = inr (inl (e, refl))
Result-cases panic = inr (inr refl)

pub expect-inv : {E A : Type 0} (o : Option A) {a : A} → expect {E = E} o ≡ ok a → o ≡ some a
expect-inv none h = absurd (ground arith)
expect-inv (some b) h = cc

pub ok_inj : {E A : Type 0} {a b : A} → ◌≡◌ {A = Result E A} (ok a) (ok b) → a ≡ b
ok_inj h = cc

pub map_err-inv :
    {E F A : Type 0} (f : E → F) (r : Result E A) {a : A} → map_err f r ≡ ok a → r ≡ ok a
map_err-inv {F = F} f (ok b) {a} h = ap ok (ok_inj {E = F} h)
map_err-inv f (err e) h = absurd (cc)
map_err-inv f panic h = absurd (cc)

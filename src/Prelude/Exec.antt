-- ===== src/Prelude/Exec.antt =====
-- Calls through `&mut` of a state `S`. What was written before an error stays written, so the
-- state comes back beside every result.
use mathlib.Core.Path.{◌≡◌, refl}
use linea_sgx_prover.Prelude.Results.{Result, ok, err, panic}

abbrev pub Exec : Type 0 → Type 0 → Type 0 → Type 0
Exec S E A = S → Result E A × S

module _ {S E A : Type 0} where
  abbrev pub pure : A → Exec S E A
  pure a s = (ok a, s)

  abbrev pub lift : Result E A → Exec S E A
  lift r s = (r, s)

  -- A fallible read of the state.
  abbrev pub reads : (S → Result E A) → Exec S E A
  reads f s = (f s, s)

module _ {S E : Type 0} where
  -- A write that cannot fail.
  abbrev pub modify : (S → S) → Exec S E (Unit {0})
  modify f s = (ok tt, f s)

module _ {S E A B : Type 0} where
  abbrev pub continue : Result E A → (A → Exec S E B) → Exec S E B
  continue (ok a) f s = f a s
  continue (err e) f s = (err e, s)
  continue panic f s = (panic, s)

  infixl 5 ◌>>=◌ ◌>>◌
  abbrev pub ◌>>=◌ : Exec S E A → (A → Exec S E B) → Exec S E B
  ◌>>=◌ m f s = continue (m s).0 f (m s).1

  abbrev pub ◌>>◌ : Exec S E A → Exec S E B → Exec S E B
  m >> n = m >>= λ _. n

-- A call that keeps a predicate of the state, however it ends.
module _ {S E : Type 0} (P : S → Type 0) where
  abbrev pub Keeps : {A : Type 0} → Exec S E A → Type 0
  Keeps m = (s : S) → P s → P (m s).1

  module _ {A B : Type 0} where
    pub continue-Keeps :
        (r : Result E A) (f : A → Exec S E B)
        → ((a : A) → r ≡ ok a → Keeps (f a))
        → Keeps (continue r f)
    continue-Keeps (ok a) f next s p = next a refl s p
    continue-Keeps (err e) f next s p = p
    continue-Keeps panic f next s p = p

    pub bind-Keeps :
        (m : Exec S E A) (f : A → Exec S E B) → Keeps m → ((a : A) → Keeps (f a)) → Keeps (m >>= f)
    bind-Keeps m f first next s p = continue-Keeps (m s).0 f (λ a e. next a) (m s).1 (first s p)

-- ===== src/Mimc/Rounds.antt =====
-- The block cipher of src/common/mimc/src/hash.rs against its description by powers.
use mathlib.Core.List.{foldl}
use linea_sgx_prover.Prelude.{ℕ, zero, suc, ◌+◌, ◌≡◌, refl, sym, ap, ◌∙◌, List, [], ◌∷◌, arith}
use linea_sgx_prover.Mimc.{encrypt, encrypt_rounds, round}
use linea_sgx_prover.Mimc.Field.{PrimeField, IsLawful}

module _ (f : PrimeField) where
  -- x ^ (n + 1), as a product.
  unfoldable pub power : f.F → ℕ → f.F
  power x zero = x
  power x (suc n) = f.mul (power x n) x

  -- The cipher as the paper has it: every round raises key + state + constant to the power 17,
  -- and the key is added at the end.
  unfoldable pub cipher : List f.F → f.F → f.F → f.F
  unfolding power
  cipher constants key m = f.add (foldl (λ s c. power (f.add (f.add key s) c) 16) m constants) key

module _ (f : PrimeField) (l : IsLawful f) where
  mul-power : (x : f.F) (m n : ℕ) → f.mul (power f x m) (power f x n) ≡ power f x (suc (m + n))
  unfolding power
  mul-power x m zero = let e : m + zero ≡ m = omega arith in rw e
  mul-power x m (suc n) =
      let e : m + suc n ≡ suc (m + n) = omega arith in
      rw e (sym (l.mul_assoc (power f x m) (power f x n) x) ∙ ap (λ t. f.mul t x) (mul-power x m n))

  square-power : (x : f.F) (n : ℕ) → f.square (power f x n) ≡ power f x (suc (n + n))
  square-power x n = rw l.square_lem (mul-power x n n)

  -- Four squarings and a product are the power 17.
  round-power : (hash m c : f.F) → round f hash m c ≡ power f (f.add (f.add hash m) c) 16
  unfolding round power
  round-power hash m c =
      let x = f.add (f.add hash m) c in
      let sq = f.square in
      ap (λ t. f.mul t x)
        (ap (λ t. sq (sq (sq t))) (square-power x 0)
          ∙ ap (λ t. sq (sq t)) (square-power x 1)
          ∙ ap sq (square-power x 3)
          ∙ square-power x 7)

  encrypt_rounds-foldl :
      (hash : f.F) (cs : List f.F) (m : f.F)
      → encrypt_rounds f hash cs m ≡ foldl (λ s c. power f (f.add (f.add hash s) c) 16) m cs
  unfolding encrypt_rounds
  encrypt_rounds-foldl hash [] m = refl
  encrypt_rounds-foldl hash (c ∷ cs) m =
      rw (round-power hash m c) (encrypt_rounds-foldl hash cs (power f (f.add (f.add hash m) c) 16))

  -- For a lawful field, `encrypt` is the cipher: one round for each constant, in order, each the
  -- power 17 of key + state + constant, and the key added to the last state.
  pub encrypt-cipher :
      (constants : List f.F) (hash m : f.F) → encrypt f constants hash m ≡ cipher f constants hash m
  unfolding encrypt cipher
  encrypt-cipher constants hash m = ap (λ t. f.add t hash) (encrypt_rounds-foldl hash constants m)

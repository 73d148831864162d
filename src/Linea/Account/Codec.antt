-- ===== src/Linea/Account/Codec.antt =====
-- The bytes of an account (src/common/linea/src/engine.rs): `to_bytes` and `from_bytes`.
use mathlib.Core.List.{append_assoc, append-nil}
use linea_sgx_prover.Prelude.{
  ℕ, ◌+◌, ◌^◌, ◌<◌, ◌≡◌, ◌≢◌, ◌↔◌, refl, sym, ap, ◌∙◌, Bool, true, false, inl, inr, [], ◌∷◌, ◌++◌,
  arith, Bool-cases, length, length-append,
}
use linea_sgx_prover.Prelude.Results.{Result, ok, ◌>>=◌}
use linea_sgx_prover.Bytes.{Bytes, slice, copy_from_slice, eq_of_bytes_eq}
use linea_sgx_prover.Bytes.Endian.{length-to_be, from_be-to_be}
use linea_sgx_prover.Bytes.Slices.{slice_mid}
use linea_sgx_prover.Zktrie.Types.{Env}
use linea_sgx_prover.Linea.Account.{
  ZkStateAccount, account_eq, default_account, is_exist, to_bytes, from_bytes,
}

-- What Rust's types give.
pub record IsTyped (a : ZkStateAccount) : Type 0 where
  pub nonce_fits : a.nonce < 2 ^ 64
  pub balance_fits : a.balance < 2 ^ 256
  pub size_fits : a.code_size < 2 ^ 256
  pub root_size : length a.root ≡ 32
  pub mimc_size : length a.mimc_code_hash ≡ 32
  pub keccak_size : length a.keccak_code_hash ≡ 32

eq_of_account_eq : (a b : ZkStateAccount) → account_eq a b ≡ true → a ≡ b
unfolding account_eq
eq_of_account_eq a b h =
    let n : a.nonce ≡ b.nonce = ground arith in
    let l : a.balance ≡ b.balance = ground arith in
    let s : a.code_size ≡ b.code_size = ground arith in
    let r : a.root ≡ b.root = eq_of_bytes_eq a.root b.root (ground arith) in
    let m : a.mimc_code_hash ≡ b.mimc_code_hash =
      eq_of_bytes_eq a.mimc_code_hash b.mimc_code_hash (ground arith) in
    let k : a.keccak_code_hash ≡ b.keccak_code_hash =
      eq_of_bytes_eq a.keccak_code_hash b.keccak_code_hash (ground arith) in
    λ i. record {
      nonce = n i;
      balance = l i;
      root = r i;
      mimc_code_hash = m i;
      keccak_code_hash = k i;
      code_size = s i;
    }

module _ (env : Env) (E : Type 0) where
  number_decodes :
      (n : ℕ)
      → n < 2 ^ 256
      → (length (env.eth.to_big_endian n) ≡ 32)
        × (env.eth.from_big_endian (env.eth.to_big_endian n) ≡ n)
  number_decodes n h =
      let size : length (env.eth.to_big_endian n) ≡ 32 =
        rw (env.eth.to_big_endian_lem n h) (length-to_be 32 n) in
      (
        size,
        rw
            (
              env.eth.from_big_endian_lem (env.eth.to_big_endian n) size,
              env.eth.to_big_endian_lem n h,
            )
            (from_be-to_be 32 n (omega arith)),
      )

  -- A field behind `xs` in a concatenation of three parts.
  behind :
      (xs ys zs all : Bytes) (i j : ℕ)
      → all ≡ xs ++ (ys ++ zs)
      → length xs ≡ i
      → i + length ys ≡ j
      → slice {E = E} all i j ≡ ok ys
  behind xs ys zs all i j e hi hj = rw (e) (slice_mid E xs ys zs i j hi hj)

  copies : (b : Bytes) → length b ≡ 32 → copy_from_slice {E = E} 32 b ≡ ok b
  copies b h = ground arith

  -- Where the six fields can be read, so can the account.
  from_fields :
      (a : ZkStateAccount) (t : IsTyped a) (buf : Bytes)
      → buf ≢ []
      → slice {E = E} buf 0 32 ≡ ok (env.eth.to_big_endian a.nonce)
      → slice {E = E} buf 32 64 ≡ ok (env.eth.to_big_endian a.balance)
      → slice {E = E} buf 64 96 ≡ ok a.root
      → slice {E = E} buf 96 128 ≡ ok a.mimc_code_hash
      → slice {E = E} buf 128 160 ≡ ok a.keccak_code_hash
      → slice {E = E} buf 160 192 ≡ ok (env.eth.to_big_endian a.code_size)
      → from_bytes env {E = E} buf ≡ ok a
  unfolding from_bytes
  from_fields a t [] nonempty h0 h1 h2 h3 h4 h5 = absurd (nonempty refl)
  from_fields a t (x ∷ xs) nonempty h0 h1 h2 h3 h4 h5 =
      rw
        (
          h0,
          h1,
          h2,
          h3,
          h4,
          h5,
          env.eth.from_slice_lem a.root t.root_size,
          env.eth.from_slice_lem a.mimc_code_hash t.mimc_size,
          env.eth.from_slice_lem a.keccak_code_hash t.keccak_size,
          (number_decodes a.nonce (let h = t.nonce_fits in omega arith)).1,
          (number_decodes a.balance t.balance_fits).1,
          (number_decodes a.code_size t.size_fits).1,
          env.eth.as_u64_lem a.nonce t.nonce_fits,
        )
        refl

  -- The six fields, each of 32 bytes, are read back.
  read_fields :
      (a : ZkStateAccount)
      → IsTyped a
      → from_bytes env {E = E} (
          env.eth.to_big_endian a.nonce
          ++ (env.eth.to_big_endian a.balance
              ++ (a.root
                  ++ (a.mimc_code_hash
                      ++ (a.keccak_code_hash ++ env.eth.to_big_endian a.code_size)))))
        ≡ ok a
  read_fields a t =
      let n = env.eth.to_big_endian a.nonce in
      let b = env.eth.to_big_endian a.balance in
      let r = a.root in
      let m = a.mimc_code_hash in
      let k = a.keccak_code_hash in
      let s = env.eth.to_big_endian a.code_size in
      let all = n ++ (b ++ (r ++ (m ++ (k ++ s)))) in
      let len_n : length n ≡ 32 =
        (number_decodes a.nonce (let h = t.nonce_fits in omega arith)).0 in
      let len_b : length b ≡ 32 = (number_decodes a.balance t.balance_fits).0 in
      let len_s : length s ≡ 32 = (number_decodes a.code_size t.size_fits).0 in
      let len_r = t.root_size in
      let len_m = t.mimc_size in
      let len_k = t.keccak_size in
      let l2 : length (n ++ b) ≡ 64 = omega (arith, length-append n b) in
      let l3 : length ((n ++ b) ++ r) ≡ 96 = omega (arith, length-append (n ++ b) r) in
      let l4 : length (((n ++ b) ++ r) ++ m) ≡ 128 =
        omega (arith, length-append ((n ++ b) ++ r) m) in
      let l5 : length ((((n ++ b) ++ r) ++ m) ++ k) ≡ 160 =
        omega (arith, length-append (((n ++ b) ++ r) ++ m) k) in
      let e2 : all ≡ (n ++ b) ++ (r ++ (m ++ (k ++ s))) =
        sym (append_assoc n b (r ++ (m ++ (k ++ s)))) in
      let e3 : all ≡ ((n ++ b) ++ r) ++ (m ++ (k ++ s)) =
        rw (append_assoc (n ++ b) r (m ++ (k ++ s))) e2 in
      let e4 : all ≡ (((n ++ b) ++ r) ++ m) ++ (k ++ s) =
        rw (append_assoc ((n ++ b) ++ r) m (k ++ s)) e3 in
      let e5 : all ≡ ((((n ++ b) ++ r) ++ m) ++ k) ++ (s ++ []) =
        rw (append-nil s, append_assoc (((n ++ b) ++ r) ++ m) k s) e4 in
      let nonempty : all ≢ [] = λ h.
        let size : length all ≡ 0 = ap length h in
        omega (arith, length-append n (b ++ (r ++ (m ++ (k ++ s))))) in
      from_fields a t all nonempty
        (behind [] n (b ++ (r ++ (m ++ (k ++ s)))) all 0 32 refl refl (omega arith))
        (behind n b (r ++ (m ++ (k ++ s))) all 32 64 refl len_n (omega arith))
        (behind (n ++ b) r (m ++ (k ++ s)) all 64 96 e2 l2 (omega arith))
        (behind ((n ++ b) ++ r) m (k ++ s) all 96 128 e3 l3 (omega arith))
        (behind (((n ++ b) ++ r) ++ m) k s all 128 160 e4 l4 (omega arith))
        (behind ((((n ++ b) ++ r) ++ m) ++ k) s [] all 160 192 e5 l5 (omega arith))

  -- Where the default account exists (its code hash can be computed), every account that Rust's
  -- types allow, the default one included, is the decoding of its encoding.
  pub from_bytes-to_bytes :
      (d : ZkStateAccount)
      → default_account env {E = E} ≡ ok d
      → (a : ZkStateAccount) → IsTyped a
      → (to_bytes env {E = E} a >>= from_bytes env) ≡ ok a
  unfolding to_bytes from_bytes
  from_bytes-to_bytes d h a t = elim (Bool-cases (account_eq a d)) [
    | inl same ↦ rw (h, same) (let e = eq_of_account_eq a d same in h ∙ ap ok (sym e))
    | inr other ↦
        rw
          (
            h,
            other,
            copies a.root t.root_size,
            copies a.mimc_code_hash t.mimc_size,
            copies a.keccak_code_hash t.keccak_size,
          )
          (read_fields a t)
  ]

  some_bytes :
      (a : ZkStateAccount)
      → IsTyped a
      → (rest : Bytes)
      → ◌≢◌ {A = Result E Bytes} (ok (env.eth.to_big_endian a.nonce ++ rest)) (ok [])
  some_bytes a t rest e =
      let size = (number_decodes a.nonce (let h = t.nonce_fits in omega arith)).0 in
      let empty : env.eth.to_big_endian a.nonce ++ rest ≡ [] = cc in
      let none_left : length (env.eth.to_big_endian a.nonce ++ rest) ≡ 0 = ap length empty in
      omega (arith, length-append (env.eth.to_big_endian a.nonce) rest)

  -- Where the default account exists, `is_exist` holds of exactly the accounts that are encoded as
  -- nothing, which is how the trie encodes an account that is not there.
  pub is_exist_iff_no_bytes :
      (d : ZkStateAccount)
      → default_account env {E = E} ≡ ok d
      → (a : ZkStateAccount) → IsTyped a
      → (is_exist env {E = E} a ≡ ok true) ↔ (to_bytes env {E = E} a ≡ ok [])
  unfolding to_bytes is_exist
  is_exist_iff_no_bytes d h a t = elim (Bool-cases (account_eq a d)) [
    | inl same ↦ rw (h, same) (λ e. refl, λ e. refl)
    | inr other ↦
        rw
          (
            h,
            other,
            copies a.root t.root_size,
            copies a.mimc_code_hash t.mimc_size,
            copies a.keccak_code_hash t.keccak_size,
          )
          (
            (λ e. absurd (let e' : ◌≡◌ {A = Result E Bool} (ok false) (ok true) = e in cc)),
            (λ e. absurd (some_bytes a t _ e)),
          )
  ]

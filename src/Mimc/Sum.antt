-- ===== src/Mimc/Sum.antt =====
-- Which inputs `mimc::sum` of src/common/mimc/src/hash.rs accepts, and how long its results are.
use linea_sgx_prover.Prelude.{
  ℕ, zero, suc, ◌+◌, ◌*◌, ◌-◌, ◌/◌, ◌%◌, ◌≤◌, ◌<◌, ◌≡◌, ◌≢◌, inl, inr, refl, List, [], ◌∷◌, ◌++◌,
  arith, length, length-append, replicate, length-replicate, take, drop, length-take, length-drop,
  ltb, ◌==◌, Bool-cases, if◌then◌else◌,
}
use linea_sgx_prover.Prelude.Results.{Result, ok, err, panic}
use linea_sgx_prover.Bytes.{Bytes, slice}
use linea_sgx_prover.Mimc.{
  Error, invalid_input_length, from_be, fill_constants, init_constants, checksum, pad, write_blocks,
  write, bytes, sum, seed, checksum_from,
}
use linea_sgx_prover.Mimc.Field.{PrimeField, IsLawful}

slice_total :
    (p : Bytes) (i n : ℕ)
    → i + n ≤ length p
    → (b : Bytes) × (slice {E = Error} p i (i + n) ≡ ok b) × (length b ≡ n)
slice_total p i n h = (
  take (i + n - i) (drop i p),
  ground arith,
  omega (arith, length-take (i + n - i) (drop i p), length-drop i p),
)

slice_panic : (p : Bytes) (i n : ℕ) → length p < i + n → slice {E = Error} p i (i + n) ≡ panic
slice_panic p i n h = ground arith

-- How a write ends, by the length of its input alone.
pub data Verdict : Type 0 where
  elements : ℕ → Verdict
  refused crash : Verdict

unfoldable pub verdict : ℕ → Verdict
verdict n =
    if n == 0
    then refused
    else if ltb n 32
    then elements 1
    else if n % 32 == 0
    then elements (n / 32)
    else crash

abbrev pub Meets : (f : PrimeField) → Verdict → List f.F → Result Error (List f.F) → Type 0
Meets f (elements n) items r = (es : List f.F) × (r ≡ ok es) × (length es ≡ length items + n)
Meets f refused items r = r ≡ err invalid_input_length
Meets f crash items r = r ≡ panic

module _ (f : PrimeField) (l : IsLawful f) where
  from_be_total : (b : Bytes) → length b ≡ 32 → (e : f.F) × (from_be f b ≡ ok e)
  unfolding from_be
  from_be_total b h =
      let (repr, got) = l.read_be_lem b h in
      let (r, square) = l.r_square_lem in
      (f.mul (f.raw repr) r, rw (got, square, l.from_into_raw (f.raw repr) r))

  -- With `n + 1` full blocks left, the loop adds as many elements and ends at the last block.
  write_blocks_total :
      (n i start : ℕ) (p : Bytes) (items : List f.F)
      → i + 32 * suc n ≤ length p
      → (es : List f.F) × (write_blocks f (suc n) i start p items ≡ ok (i + 32 * n, es))
        × (length es ≡ length items + suc n)
  unfolding write_blocks
  write_blocks_total zero i start p items h =
      let (b, sliced, size) = slice_total p i 32 (omega arith) in
      let (e, decoded) = from_be_total b size in
      let same : i + 32 * 0 ≡ i = omega arith in
      (
        items ++ e ∷ [],
        rw (sliced, decoded, same) refl,
        omega (arith, length-append items (e ∷ [])),
      )
  write_blocks_total (suc n) i start p items h =
      let (b, sliced, size) = slice_total p i 32 (omega arith) in
      let (e, decoded) = from_be_total b size in
      let (es, run, count) = write_blocks_total n (i + 32) i p (items ++ e ∷ []) (omega arith) in
      let same : i + 32 + 32 * n ≡ i + 32 * suc n = omega arith in
      (es, rw (sliced, decoded, ← same) run, omega (arith, count, length-append items (e ∷ [])))

  -- With a part of a block behind `n` full blocks, the loop reads past the end.
  write_blocks_panic :
      (n i start : ℕ) (p : Bytes) (items : List f.F)
      → i + 32 * n < length p
      → length p < i + 32 * suc n
      → write_blocks f (suc n) i start p items ≡ panic
  unfolding write_blocks
  write_blocks_panic zero i start p items low high = rw (slice_panic p i 32 (omega arith))
  write_blocks_panic (suc n) i start p items low high =
      let (b, sliced, size) = slice_total p i 32 (omega arith) in
      let (e, decoded) = from_be_total b size in
      rw (sliced, decoded)
        (write_blocks_panic n (i + 32) i p (items ++ e ∷ []) (omega arith) (omega arith))

  -- The input as `write` reads it.
  pad_short : (p : Bytes) → 0 < length p → length p < 32 → length (pad f p) ≡ 32
  unfolding pad
  pad_short p low high = ground (
    arith,
    length-append (replicate (32 - length p) 0) p,
    length-replicate {A = ℕ} (32 - length p) 0,
  )

  pad_long : (p : Bytes) → 32 ≤ length p → pad f p ≡ p
  unfolding pad
  pad_long p low = ground arith

  -- An input whose padded length is a positive number of blocks is one element for each block.
  write_total :
      (n : ℕ) (items : List f.F) (p : Bytes)
      → length (pad f p) ≡ 32 * suc n
      → (es : List f.F) × (write f items p ≡ ok es) × (length es ≡ length items + suc n)
  unfolding write
  write_total n items p h =
      let (es, run, count) = write_blocks_total n 0 0 (pad f p) items (omega arith) in
      let rounds : (length (pad f p) + 32 - 1) / 32 ≡ suc n = omega arith in
      (es, rw (rounds, run) (ground arith), count)

  write_empty :
      (items : List f.F) (p : Bytes) → length p ≡ 0 → write f items p ≡ err invalid_input_length
  unfolding write pad write_blocks
  write_empty items [] h = refl
  write_empty items (b ∷ p) h = absurd (omega arith)

  write_partial :
      (items : List f.F) (p : Bytes) → 32 < length p → length p % 32 ≢ 0 → write f items p ≡ panic
  unfolding write
  write_partial items p low part =
      let n = length p / 32 in
      let rounds : (length p + 32 - 1) / 32 ≡ suc n = omega arith in
      rw
        (
          pad_long p (omega arith),
          rounds,
          write_blocks_panic n 0 0 p items (omega arith) (omega arith),
        )
        refl

  write_whole :
      (items : List f.F) (p : Bytes)
      → 32 ≤ length p
      → length p % 32 ≡ 0
      → Meets f (elements (length p / 32)) items (write f items p)
  write_whole items p low whole =
      let n = length p / 32 - 1 in
      let blocks : length p / 32 ≡ suc n = omega arith in
      rw blocks (write_total n items p (rw (pad_long p low) (omega arith)))

  -- `write` into any digest ends as `verdict` says for the length of the input: one more element
  -- for 1 to 31 bytes, one for each block of a positive number of whole blocks, the error for the
  -- empty input alone, and a panic for a longer input that ends in a part of a block.
  pub write-verdict :
      (items : List f.F) (p : Bytes) → Meets f (verdict (length p)) items (write f items p)
  unfolding verdict
  write-verdict items p = elim (Bool-cases (length p == 0)) [
    | inl none ↦ rw none (write_empty items p (ground arith))
    | inr some ↦ rw some (elim (Bool-cases (ltb (length p) 32)) [
      | inl short ↦ rw short (write_total 0 items p (pad_short p (ground arith) (ground arith)))
      | inr long ↦ rw long (elim (Bool-cases (length p % 32 == 0)) [
        | inl whole ↦ rw whole (write_whole items p (ground arith) (ground arith))
        | inr part ↦ rw part (write_partial items p (ground arith) (ground arith))
      ])
    ])
  ]

  fill_constants_total :
      (keccak : Bytes → Bytes) (n : ℕ) (rnd : Bytes)
      → ((b : Bytes) → length (keccak b) ≡ 32)
      → length rnd ≡ 32
      → (cs : List f.F) × (fill_constants f keccak n rnd ≡ ok cs) × (length cs ≡ n)
  unfolding fill_constants
  fill_constants_total keccak zero rnd digest h = ([], refl, refl)
  fill_constants_total keccak (suc n) rnd digest h =
      let (e, decoded) = from_be_total rnd h in
      let (cs, filled, count) = fill_constants_total keccak n (keccak rnd) digest (digest rnd) in
      (e ∷ cs, rw (decoded, filled) refl, omega (arith, count))

  -- With a keccak of 32 bytes, the hash of 1 to 31 bytes and of a positive number of whole blocks
  -- is defined and is 32 bytes long.
  pub sum_total :
      (keccak : Bytes → Bytes) (p : Bytes) (n : ℕ)
      → ((b : Bytes) → length (keccak b) ≡ 32)
      → verdict (length p) ≡ elements n
      → (h : Bytes) × (sum f keccak p ≡ ok h) × (length h ≡ 32)
  unfolding sum checksum bytes init_constants
  sum_total keccak p n digest v =
      let (es, written, count) : Meets f (elements n) [] (write f [] p) =
        rw v at (write-verdict [] p) in
      let (cs, made, rounds) =
        fill_constants_total keccak 62 (keccak (keccak seed)) digest (digest _) in
      (
        f.write_be (f.into_repr (checksum_from f cs f.zero es)),
        rw (written, made) refl,
        l.length-write_be _,
      )

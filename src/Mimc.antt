-- ===== src/Mimc.antt =====
-- The MiMC hash of src/common/mimc/src: fr.rs, constants.rs and hash.rs. The field arithmetic is
-- derived by the crate `ff`, and keccak comes from the crate `crypto`: both are parameters.
pub mod Field
pub mod Rounds
pub mod Sum
use linea_sgx_prover.Prelude.{
  ℕ, zero, suc, ◌+◌, ◌-◌, ◌/◌, ◌&&◌, Option, none, some, List, [], ◌∷◌, ◌++◌, ltb, ◌==◌,
  if◌then◌else◌, length, replicate,
}
use linea_sgx_prover.Prelude.Results.{Result, ok, err, panic, ◌>>=◌, expect, unwrap}
use linea_sgx_prover.Bytes.{Bytes, slice}
use Field.{PrimeField}

-- The `String` errors of the crate, by the place that builds them.
pub data Error : Type 0 where
  invalid_input_length : Error
  not_in_field : Error

abbrev pub mimc_nb_rounds : ℕ
mimc_nb_rounds = 62

abbrev pub block_size : ℕ
block_size = 32

-- The bytes of "seed".
abbrev pub seed : Bytes
seed = 115 ∷ 101 ∷ 101 ∷ 100 ∷ []

module _ (f : PrimeField) where
  open f use {F, Repr}

  -- `R_SQUARE`; `none` of `from_raw_repr` is a failed `unwrap`.
  unfoldable pub r_square : Result Error F
  r_square = expect (
      f.from_raw_repr
        (f.limbs 2726216793283724667 14712177743343147295 12091039717619697043 81024008013859129))

  -- `from_raw_repr(..).map_err(..)`.
  abbrev pub decoded : Option F → Result Error F
  decoded (some a) = ok a
  decoded none = err not_in_field

  -- `Fr::from_be`, which is also `ByteOrder::element`.
  unfoldable pub from_be : Bytes → Result Error F
  unfolding r_square
  from_be bytes = do
    repr ← expect (f.read_be bytes)
    r ← r_square
    decoded (f.from_raw_repr (f.into_raw_repr (f.mul (f.raw repr) r)))

  -- `Fr::bytes`.
  unfoldable pub bytes : F → Bytes
  bytes a = f.write_be (f.into_repr a)

  -- The loop of `init_constants`, with the entries that are left to fill.
  unfoldable pub fill_constants : (Bytes → Bytes) → ℕ → Bytes → Result Error (List F)
  unfolding from_be
  fill_constants keccak zero rnd = ok []
  fill_constants keccak (suc n) rnd = do
    item ← unwrap (from_be rnd)
    rest ← fill_constants keccak n (keccak rnd)
    ok (item ∷ rest)

  unfoldable pub init_constants : (Bytes → Bytes) → Result Error (List F)
  unfolding fill_constants
  init_constants keccak = fill_constants keccak mimc_nb_rounds (keccak (keccak seed))

  -- One round of `encrypt`: `m = tmp; m.square() four times; m *= tmp`.
  unfoldable pub round : F → F → F → F
  round hash m c =
      let tmp = f.add (f.add hash m) c in f.mul (f.square (f.square (f.square (f.square tmp)))) tmp

  unfoldable pub encrypt_rounds : F → List F → F → F
  unfolding round
  encrypt_rounds hash [] m = m
  encrypt_rounds hash (c ∷ cs) m = encrypt_rounds hash cs (round hash m c)

  -- `Digest::encrypt`, given the constants.
  unfoldable pub encrypt : List F → F → F → F
  unfolding encrypt_rounds
  encrypt constants hash m = f.add (encrypt_rounds hash constants m) hash

  unfoldable pub checksum_from : List F → F → List F → F
  unfolding encrypt
  checksum_from constants hash [] = hash
  checksum_from constants hash (item ∷ items) =
      checksum_from constants (f.add (f.add hash (encrypt constants hash item)) item) items

  -- `Digest::checksum` of the elements written so far.
  unfoldable pub checksum : (Bytes → Bytes) → List F → Result Error F
  unfolding checksum_from
  checksum keccak items = do
    constants ← init_constants keccak
    ok (checksum_from constants f.zero items)

  -- The loop of `write`: the rounds left, `i`, `start` and the elements; the result is `start` and
  -- the elements.
  unfoldable pub write_blocks : ℕ → ℕ → ℕ → Bytes → List F → Result Error (ℕ × List F)
  write_blocks zero i start p items = ok (start, items)
  write_blocks (suc n) i start p items = do
    block ← slice p i (i + block_size)
    e ← from_be block
    write_blocks n (i + block_size) i p (items ++ e ∷ [])

  -- A short input is padded with zeros on the left.
  unfoldable pub pad : Bytes → Bytes
  pad p =
      if ltb 0 (length p) && ltb (length p) block_size
      then replicate (block_size - length p) 0 ++ p
      else p

  -- `Digest::write` into a digest that holds `items`: the elements afterwards.
  unfoldable pub write : List F → Bytes → Result Error (List F)
  unfolding pad write_blocks
  write items p = do
    (start, items') ←
        write_blocks ((length (pad p) + block_size - 1) / block_size) 0 0 (pad p) items
    if start + block_size == length (pad p) then ok items' else err invalid_input_length

  -- `mimc::sum`.
  unfoldable pub sum : (Bytes → Bytes) → Bytes → Result Error Bytes
  unfolding write checksum bytes
  sum keccak msg = do items ← write [] msg; h ← checksum keccak items; ok (bytes h)

-- ===== src/Tests/Hashing.antt =====
-- The theorems on bytes and on the MiMC hash at concrete inputs.
use linea_sgx_prover.Prelude.{
  ◌^◌, ◌≡◌, ◌↔◌, refl, [], ◌∷◌, ◌++◌, arith, length, replicate, ltb, if◌then◌else◌,
}
use linea_sgx_prover.Prelude.Results.{ok, panic}
use linea_sgx_prover.Bytes.{Bytes}
use linea_sgx_prover.EthTypes.{big_endian_types}
use linea_sgx_prover.Mimc.{encrypt, write, sum}
use linea_sgx_prover.Mimc.Rounds.{cipher, encrypt-cipher}
use linea_sgx_prover.Mimc.Sum.{verdict, Meets, write-verdict, sum_total}
use linea_sgx_prover.Zktrie.Types.{Error}
use linea_sgx_prover.Zktrie.Path.{get_leaf_path}
use linea_sgx_prover.Zktrie.Path.Bits.{bits, get_leaf_path-bits}
use linea_sgx_prover.Zktrie.Opening
use linea_sgx_prover.Zktrie.Opening.{LeafOpening, parse}
use linea_sgx_prover.Zktrie.Opening.Codec.{IsTyped, parse-to_bytes_iff}
use linea_sgx_prover.Tests.Toys.{numbers, numbers-IsLawful, digest}

encrypt-cipher_example : encrypt numbers (3 ∷ 5 ∷ []) 2 1 ≡ cipher numbers (3 ∷ 5 ∷ []) 2 1
encrypt-cipher_example = encrypt-cipher numbers numbers-IsLawful (3 ∷ 5 ∷ []) 2 1

abbrev partial : Bytes
partial = replicate 33 1

write-verdict_example :
    Meets numbers (verdict (length partial)) (4 ∷ []) (write numbers (4 ∷ []) partial)
write-verdict_example = write-verdict numbers numbers-IsLawful (4 ∷ []) partial

length-digest : (b : Bytes) → length (digest b) ≡ 32
length-digest b = refl

sum_total_example : (h : Bytes) × (sum numbers digest (1 ∷ 2 ∷ 3 ∷ []) ≡ ok h) × (length h ≡ 32)
unfolding verdict
sum_total_example = sum_total numbers numbers-IsLawful digest (1 ∷ 2 ∷ 3 ∷ []) 1 length-digest refl

get_leaf_path-bits_example :
    get_leaf_path {E = Error} 5
    ≡ (if ltb 5 (2 ^ 40) then ok (1 ∷ bits 40 5 ++ 0x16 ∷ []) else panic)
get_leaf_path-bits_example = get_leaf_path-bits Error 5

abbrev opening : LeafOpening
opening = record { hkey = replicate 32 1; hval = replicate 32 2; prev_leaf = 3; next_leaf = 7 }

opening-IsTyped : IsTyped opening
opening-IsTyped = record { prev = omega arith; next = omega arith; key = refl; val = refl }

parse-to_bytes_iff_example :
    (parse big_endian_types {E = Error} (Opening.to_bytes big_endian_types opening)
      ≡ ok (record opening { next_leaf = 3 }))
    × ((parse big_endian_types {E = Error} (Opening.to_bytes big_endian_types opening) ≡ ok opening)
        ↔ (opening.prev_leaf ≡ opening.next_leaf))
parse-to_bytes_iff_example = parse-to_bytes_iff big_endian_types Error opening opening-IsTyped

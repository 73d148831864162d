-- ===== src/Zktrie/Opening.antt =====
-- `LeafOpening` of src/common/zktrie/src/node.rs: a leaf of the linked list of keys.
pub mod Codec
use linea_sgx_prover.Prelude.{ℕ, List, [], ◌∷◌, ◌++◌}
use linea_sgx_prover.Prelude.Results.{Result, ok, ◌>>=◌, expect}
use linea_sgx_prover.Bytes.{Bytes, slice, slice_from}
use linea_sgx_prover.EthTypes.{EthTypes, Sh256}
use linea_sgx_prover.Zktrie.Types.{zero_hash}

pub record LeafOpening : Type 0 where
  pub hkey : Sh256
  pub hval : Sh256
  pub prev_leaf : ℕ
  pub next_leaf : ℕ

-- `LEAF_OPENING_HEAD`.
abbrev pub head : LeafOpening
head = record { hkey = zero_hash; hval = zero_hash; prev_leaf = 0; next_leaf = 1 }

-- 0x12ab655e9a2ca55660b44d1e5c37b00159aa76fed00000010a11800000000000.
abbrev pub tail_hkey : Sh256
tail_hkey =
    0x12 ∷ 0xab ∷ 0x65 ∷ 0x5e ∷ 0x9a ∷ 0x2c ∷ 0xa5 ∷ 0x56 ∷ 0x60 ∷ 0xb4 ∷ 0x4d ∷ 0x1e ∷ 0x5c ∷ 0x37
    ∷ 0xb0 ∷ 0x01 ∷ 0x59 ∷ 0xaa ∷ 0x76 ∷ 0xfe ∷ 0xd0 ∷ 0x00 ∷ 0x00 ∷ 0x01 ∷ 0x0a ∷ 0x11 ∷ 0x80
    ∷ 0x00 ∷ 0x00 ∷ 0x00 ∷ 0x00 ∷ 0x00 ∷ []

-- `LEAF_OPENING_TAIL`.
abbrev pub tail : LeafOpening
tail = record { hkey = tail_hkey; hval = zero_hash; prev_leaf = 0; next_leaf = 1 }

unfoldable pub new : ℕ → ℕ → Sh256 → Sh256 → LeafOpening
new prev_index next_index hkey hval = record {
  hkey = hkey;
  hval = hval;
  prev_leaf = prev_index;
  next_leaf = next_index;
}

unfoldable pub new_hval : LeafOpening → Sh256 → LeafOpening
new_hval o hval = record o { hval = hval }

unfoldable pub new_next_leaf : LeafOpening → ℕ → LeafOpening
new_next_leaf o next_leaf = record o { next_leaf = next_leaf }

unfoldable pub new_prev_leaf : LeafOpening → ℕ → LeafOpening
new_prev_leaf o prev_leaf = record o { prev_leaf = prev_leaf }

module _ (eth : EthTypes) where
  -- `LeafOpening::to_bytes`: 4 fields of 32 bytes.
  unfoldable pub to_bytes : LeafOpening → Bytes
  to_bytes o =
      eth.to_big_endian o.prev_leaf ++ (eth.to_big_endian o.next_leaf ++ (o.hkey ++ o.hval))

  -- `LeafOpening::parse`. Both indices are read from `prev_leaf`, as the source has it.
  unfoldable pub parse : {E : Type 0} → Bytes → Result E LeafOpening
  parse buf = do
    prev ← slice buf 0 32
    next ← slice buf 32 64
    key ← slice buf 64 96
    hkey ← expect (eth.from_slice key)
    rest ← slice_from buf 96
    hval ← expect (eth.from_slice rest)
    prev_leaf ← expect (eth.as_u64 (eth.from_big_endian prev))
    next_leaf ← expect (eth.as_u64 (eth.from_big_endian prev))
    ok (record { hkey = hkey; hval = hval; prev_leaf = prev_leaf; next_leaf = next_leaf })

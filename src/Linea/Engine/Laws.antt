-- ===== src/Linea/Engine/Laws.antt =====
-- The author that src/common/linea/src/engine.rs recovers from the seal of a block.
use linea_sgx_prover.Prelude.{
  ◌+◌, ◌-◌, ◌≡◌, refl, some, ◌++◌, true, leb, arith, length, length-append,
}
use linea_sgx_prover.Prelude.Results.{ok}
use linea_sgx_prover.Bytes.{Bytes, copy_from_slice}
use linea_sgx_prover.Bytes.Slices.{take_front, slice_end}
use linea_sgx_prover.Linea.Engine.{
  BlockHeader, RlpStream, Ecdsa, EngineError, seal_stream, seal_hash, author,
}

module _ (rlp : RlpStream) (keccak : Bytes → Bytes) where
  -- The hash that a signer of a header signs before the signature stands in its extra data.
  abbrev pub unsealed_hash : BlockHeader → Bytes
  unsealed_hash header = keccak (seal_stream rlp keccak header header.extra_data)

  -- A header with a seal behind its extra data.
  abbrev pub sealed : BlockHeader → Bytes → BlockHeader
  sealed header seal = record header { extra_data = header.extra_data ++ seal }

  seal_hash-sealed :
      (E : Type 0) (header : BlockHeader) (seal : Bytes)
      → length seal ≡ 65
      → seal_hash rlp keccak {E = E} (sealed header seal) ≡ ok (unsealed_hash header)
  unfolding seal_hash seal_stream
  seal_hash-sealed E header seal size =
      let n = length (header.extra_data ++ seal) in
      let total : n ≡ length header.extra_data + length seal =
        length-append header.extra_data seal in
      let long : leb 65 n ≡ true = ground arith in
      let kept = take_front header.extra_data seal (n - 65) (omega arith) in
      rw (seal_hash, long, kept) refl

  -- If a signature of 65 bytes over the hash of a header recovers to a public key, then `author`
  -- finds the account of this key in the header with the signature behind its extra data.
  pub author-sealed :
      (ec : Ecdsa) (header : BlockHeader) (seal : Bytes) (raw : Bytes)
      → length seal ≡ 65
      → ec.recover seal (unsealed_hash header) ≡ some raw
      → author rlp keccak ec (sealed header seal)
        ≡ ok (some (ec.account_id (ec.from_raw_bytes raw)))
  unfolding author
  author-sealed ec header seal raw size recovered =
      let n = length (header.extra_data ++ seal) in
      let total : n ≡ length header.extra_data + length seal =
        length-append header.extra_data seal in
      let long : leb 65 n ≡ true = ground arith in
      let tail = slice_end EngineError header.extra_data seal (n - 65) (omega arith) in
      let whole : copy_from_slice {E = EngineError} 65 seal ≡ ok seal = ground arith in
      rw (author, long, tail, whole, seal_hash-sealed EngineError header seal size, recovered) refl

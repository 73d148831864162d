-- ===== src/Zktrie/Opening/Codec.antt =====
-- The bytes of a leaf opening (src/common/zktrie/src/node.rs): `to_bytes` and `parse`.
use mathlib.Core.List.{append_assoc}
use linea_sgx_prover.Bytes.Slices.{slice_mid, slice_end}
use linea_sgx_prover.Prelude.{
  some, ℕ, ◌^◌, ◌<◌, ◌≡◌, ◌↔◌, refl, sym, ap, ◌∙◌, [], ◌++◌, arith, length, length-append,
}
use linea_sgx_prover.Prelude.Results.{Result, ok, expect, >>=-inv, ok_inj}
use linea_sgx_prover.Bytes.{Bytes, slice, slice_from}
use linea_sgx_prover.Bytes.Endian.{length-to_be, from_be-to_be}
use linea_sgx_prover.EthTypes.{EthTypes, Sh256}
use linea_sgx_prover.Zktrie.Opening.{LeafOpening, to_bytes, parse}

-- What Rust's types give: indices of 64 bits and hashes of 32 bytes.
pub record IsTyped (o : LeafOpening) : Type 0 where
  pub prev : o.prev_leaf < 2 ^ 64
  pub next : o.next_leaf < 2 ^ 64
  pub key : length o.hkey ≡ 32
  pub val : length o.hval ≡ 32

-- The bytes of a leaf: its indices of the previous and of the next leaf, and its hashes.
abbrev pub layout : EthTypes → ℕ → ℕ → Sh256 → Sh256 → Bytes
layout eth prev next hkey hval =
    eth.to_big_endian prev ++ (eth.to_big_endian next ++ (hkey ++ hval))

-- Every opening that `parse` returns names one leaf twice.
pub parse-next :
    (eth : EthTypes) {E : Type 0} (buf : Bytes) {o : LeafOpening}
    → parse eth {E = E} buf ≡ ok o
    → o.next_leaf ≡ o.prev_leaf
unfolding parse
parse-next eth {E} buf h =
    let (prev, _, h1) = >>=-inv (slice {E = E} buf 0 32) _ h in
    let (next, _, h2) = >>=-inv (slice {E = E} buf 32 64) _ h1 in
    let (key, _, h3) = >>=-inv (slice {E = E} buf 64 96) _ h2 in
    let (hkey, _, h4) = >>=-inv (expect {E = E} (eth.from_slice key)) _ h3 in
    let (rest, _, h5) = >>=-inv (slice_from {E = E} buf 96) _ h4 in
    let (hval, _, h6) = >>=-inv (expect {E = E} (eth.from_slice rest)) _ h5 in
    let (i, at, h7) = >>=-inv (expect {E = E} (eth.as_u64 (eth.from_big_endian prev))) _ h6 in
    let (j, at', h8) = >>=-inv (expect {E = E} (eth.as_u64 (eth.from_big_endian prev))) _ h7 in
    let same : j ≡ i = ok_inj {E = E} (sym at' ∙ at) in
    let made = ok_inj {E = E} h8 in
    sym (ap (λ o. o.next_leaf) made) ∙ same ∙ ap (λ o. o.prev_leaf) made

module _ (eth : EthTypes) (E : Type 0) where
  index_decodes :
      (i : ℕ)
      → i < 2 ^ 64
      → (length (eth.to_big_endian i) ≡ 32)
        × (eth.as_u64 (eth.from_big_endian (eth.to_big_endian i)) ≡ some i)
  index_decodes i h =
      let small : i < 2 ^ 256 = omega arith in
      let size : length (eth.to_big_endian i) ≡ 32 =
        rw (eth.to_big_endian_lem i small) (length-to_be 32 i) in
      (
        size,
        rw
            (
              eth.from_big_endian_lem (eth.to_big_endian i) size,
              eth.to_big_endian_lem i small,
              from_be-to_be 32 i (omega arith),
            )
            (eth.as_u64_lem i h),
      )

  parse-to_bytes :
      (o : LeafOpening)
      → IsTyped o
      → parse eth {E = E} (to_bytes eth o) ≡ ok (record o { next_leaf = o.prev_leaf })
  unfolding parse to_bytes
  parse-to_bytes o t =
      let a = eth.to_big_endian o.prev_leaf in
      let b = eth.to_big_endian o.next_leaf in
      let (size_a, prev) = index_decodes o.prev_leaf t.prev in
      let (size_b, next) = index_decodes o.next_leaf t.next in
      let c = o.hkey in
      let d = o.hval in
      let third : slice {E = E} (a ++ (b ++ (c ++ d))) 64 96 ≡ ok c =
        rw (append_assoc a b (c ++ d)) at
          (slice_mid E (a ++ b) c d 64 96 (omega (arith, length-append a b)) (omega arith)) in
      let fourth : slice_from {E = E} (a ++ (b ++ (c ++ d))) 96 ≡ ok d =
        rw (append_assoc a (b ++ c) d, append_assoc b c d) at
          (slice_end E (a ++ (b ++ c)) d 96
            (omega (arith, length-append a (b ++ c), length-append b c))) in
      rw
        (
          slice_mid E [] a (b ++ (c ++ d)) 0 32 refl (omega arith),
          slice_mid E a b (c ++ d) 32 64 size_a (omega arith),
          third,
          fourth,
          eth.from_slice_lem c t.key,
          eth.from_slice_lem d t.val,
          prev,
        )
        refl

  -- Reading back an opening that was written gives the opening with `prev_leaf` in the place of
  -- `next_leaf` too, so it survives exactly when its two neighbours are the same leaf.
  pub parse-to_bytes_iff :
      (o : LeafOpening)
      → IsTyped o
      → (parse eth {E = E} (to_bytes eth o) ≡ ok (record o { next_leaf = o.prev_leaf }))
        × ((parse eth {E = E} (to_bytes eth o) ≡ ok o) ↔ (o.prev_leaf ≡ o.next_leaf))
  parse-to_bytes_iff o t = (
    parse-to_bytes o t,
    (
      λ back.
          let e : ◌≡◌ {A = Result E LeafOpening} (ok (record o { next_leaf = o.prev_leaf }))
              (ok o) =
            rw (parse-to_bytes o t) at back in
          cc,
      λ same. rw (parse-to_bytes o t) (λ i. ok (record o { next_leaf = same i })),
    ),
  )

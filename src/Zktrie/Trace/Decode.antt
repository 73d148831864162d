-- ===== src/Zktrie/Trace/Decode.antt =====
-- The decoders of src/common/zktrie/src/trace.rs and of `LeafOpening` in node.rs, over the crate
-- rlp. Those that `RlpDecodable` derives are parameters.
use mathlib.Core.Path.{subst, subst₂}
use linea_sgx_prover.Prelude.{
  ℕ, zero, suc, ◌+◌, ◌<◌, ◌≡◌, sym, ap, ◌∙◌, arith, some, List, [], ◌∷◌, ◌==◌, if◌then◌else◌,
  length, get_elem?,
}
use linea_sgx_prover.Prelude.Results.{Result, ok, err, ◌>>=◌, ◌>>◌, >>=-inv, ok_inj}
use linea_sgx_prover.Bytes.{Bytes}
use linea_sgx_prover.Bytes.Endian.{from_be}
use linea_sgx_prover.EthTypes.{EthTypes, Sh256}
use linea_sgx_prover.Zktrie.Opening
use linea_sgx_prover.Zktrie.Opening.{LeafOpening}
use linea_sgx_prover.Zktrie.Trace.{
  Trace, read, read_zero, insertion, update, deletion, ReadTrace, ReadZeroTrace, InsertionTrace,
  UpdateTrace, DeletionTrace, TraceProof,
}

-- `rlp::Rlp`, with its errors, and the two `Custom` errors of this module.
pub record Rlp : Type 1 where
  pub Item : Type 0
  pub DecoderError : Type 0
  pub ty_not_4_bytes : DecoderError
  pub unknown_trace_type : DecoderError
  pub at : Item → ℕ → Result DecoderError Item
  pub item_count : Item → Result DecoderError ℕ
  pub as_bytes : Item → Result DecoderError Bytes
  pub as_u64 : Item → Result DecoderError ℕ
  pub as_hash : Item → Result DecoderError Sh256

-- The derived decoders.
pub record Derived (r : Rlp) : Type 0 where
  pub as_read : r.Item → Result r.DecoderError ReadTrace
  pub as_read_zero : r.Item → Result r.DecoderError ReadZeroTrace
  pub as_insertion : r.Item → Result r.DecoderError InsertionTrace
  pub as_update : r.Item → Result r.DecoderError UpdateTrace
  pub as_deletion : r.Item → Result r.DecoderError DeletionTrace

module _ (r : Rlp) where
  -- The loop over the siblings, from the index `i`, with `n` of them left. `val_at` is `at` and
  -- `as_val`.
  unfoldable pub decode_siblings : ℕ → ℕ → r.Item → Result r.DecoderError (List Sh256)
  decode_siblings zero i rlp = ok []
  decode_siblings (suc n) i rlp = do
    item ← r.at rlp i
    node ← r.as_hash item
    siblings ← decode_siblings n (suc i) rlp
    ok (node ∷ siblings)

  -- `TraceProof::decode`.
  unfoldable pub decode_proof : r.Item → Result r.DecoderError TraceProof
  decode_proof rlp = do
    first ← r.at rlp 0
    leaf_index ← r.as_u64 first
    list ← r.at rlp 1
    count ← r.item_count list
    siblings ← decode_siblings count 0 list
    ok (record { leaf_index = leaf_index; siblings = siblings })

  -- `LeafOpening::decode`.
  unfoldable pub decode_opening : EthTypes → r.Item → Result r.DecoderError LeafOpening
  decode_opening eth rlp = do val ← r.as_bytes rlp; Opening.parse eth val

  -- `Trace::decode`.
  unfoldable pub decode : Derived r → r.Item → Result r.DecoderError Trace
  decode d item = do
    rlp ← r.at item 0
    first ← r.at rlp 0
    ty ← r.as_bytes first
    (if length ty == 4 then ok tt else err (r.ty_not_4_bytes))
    body ← r.at rlp 1
    if from_be ty == 4
        then (do n ← d.as_deletion body; ok (deletion n))
        else if from_be ty == 3
        then (do n ← d.as_update body; ok (update n))
        else if from_be ty == 2
        then (do n ← d.as_insertion body; ok (insertion n))
        else if from_be ty == 1
        then (do n ← d.as_read_zero body; ok (read_zero n))
        else if from_be ty == 0
        then (do n ← d.as_read body; ok (read n))
        else err (r.unknown_trace_type)

  length-decode_siblings :
      (n i : ℕ) (rlp : r.Item) {siblings : List Sh256}
      → decode_siblings n i rlp ≡ ok siblings
      → length siblings ≡ n
  unfolding decode_siblings
  length-decode_siblings zero i rlp h = ap length (sym (ok_inj {E = r.DecoderError} h))
  length-decode_siblings (suc n) i rlp h =
      let (item, stands, h1) = >>=-inv (r.at rlp i) _ h in
      let (node, hashed, h2) = >>=-inv (r.as_hash item) _ h1 in
      let (rest, below, e) = >>=-inv (decode_siblings n (suc i) rlp) _ h2 in
      ap length (sym (ok_inj {E = r.DecoderError} e))
      ∙ ap suc (length-decode_siblings n (suc i) rlp below)

  -- What stands at an item is the sibling that far from where the loop starts.
  decode_siblings-at :
      (n i j : ℕ) (rlp : r.Item) {siblings : List Sh256}
      → decode_siblings n i rlp ≡ ok siblings
      → j < n
      → (x : Sh256) × (get_elem? siblings j ≡ some x) × ((r.at rlp (i + j) >>= r.as_hash) ≡ ok x)
  unfolding decode_siblings
  decode_siblings-at zero i j rlp h less = absurd (omega arith)
  decode_siblings-at (suc n) i zero rlp h less =
      let (item, stands, h1) = >>=-inv (r.at rlp i) _ h in
      let (node, hashed, h2) = >>=-inv (r.as_hash item) _ h1 in
      let (rest, below, e) = >>=-inv (decode_siblings n (suc i) rlp) _ h2 in
      let here : (r.at rlp i >>= r.as_hash) ≡ ok node = rw stands hashed in
      (
        node,
        ap (λ l. get_elem? l 0) (sym (ok_inj {E = r.DecoderError} e)),
        ap (λ k. r.at rlp k >>= r.as_hash) (plus_zero i) ∙ here,
      )
    where
      plus_zero : (i : ℕ) → i + 0 ≡ i
      plus_zero i = omega arith
  decode_siblings-at (suc n) i (suc j) rlp h less =
      let (item, stands, h1) = >>=-inv (r.at rlp i) _ h in
      let (node, hashed, h2) = >>=-inv (r.as_hash item) _ h1 in
      let (rest, below, e) = >>=-inv (decode_siblings n (suc i) rlp) _ h2 in
      let (x, there, hashed') = decode_siblings-at n (suc i) j rlp below (omega arith) in
      (
        x,
        ap (λ l. get_elem? l (suc j)) (sym (ok_inj {E = r.DecoderError} e)) ∙ there,
        ap (λ k. r.at rlp k >>= r.as_hash) (plus_suc i j) ∙ hashed',
      )
    where
      plus_suc : (i j : ℕ) → i + suc j ≡ suc i + j
      plus_suc i j = omega arith

  -- Decoding a proof gives as many siblings as the list has items, each from its own item.
  pub decode_proof-siblings :
      (rlp list : r.Item) (j n : ℕ) {p : TraceProof}
      → decode_proof rlp ≡ ok p
      → r.at rlp 1 ≡ ok list
      → r.item_count list ≡ ok n
      → j < n
      → (length p.siblings ≡ n)
        × (x : Sh256) × (get_elem? p.siblings j ≡ some x)
        × ((r.at list j >>= r.as_hash) ≡ ok x)
  unfolding decode_proof
  decode_proof-siblings rlp list j n {p} h listed counted less =
      let (first, _, h1) = >>=-inv (r.at rlp 0) _ h in
      let (leaf_index, _, h2) = >>=-inv (r.as_u64 first) _ h1 in
      let (list', second, h3) = >>=-inv (r.at rlp 1) _ h2 in
      let (count, sized, h4) = >>=-inv (r.item_count list') _ h3 in
      let (siblings, run, e) = >>=-inv (decode_siblings count 0 list') _ h4 in
      let same : list' ≡ list = ok_inj {E = r.DecoderError} (sym second ∙ listed) in
      let many : count ≡ n =
        ok_inj {E = r.DecoderError} (sym sized ∙ ap r.item_count same ∙ counted) in
      let run' : decode_siblings n 0 list ≡ ok siblings =
        subst₂ (λ c l. decode_siblings c 0 l ≡ ok siblings) many same run in
      let (x, there, hashed) = decode_siblings-at n 0 j list run' less in
      subst
        (λ q.
          (length q.siblings ≡ n)
          × (x : Sh256) × (get_elem? q.siblings j ≡ some x)
          × ((r.at list j >>= r.as_hash) ≡ ok x))
        (ok_inj {E = r.DecoderError} e)
        (
          length-decode_siblings n 0 list run',
          x,
          there,
          ap (λ k. r.at list k >>= r.as_hash) (zero_plus j) ∙ hashed,
        )
    where
      zero_plus : (j : ℕ) → j ≡ 0 + j
      zero_plus j = omega arith

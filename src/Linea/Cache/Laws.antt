-- ===== src/Linea/Cache/Laws.antt =====
-- What the cache of src/common/linea/src/cache.rs keeps for its reader.
use Prim.Native.String.{String}
use linea_sgx_prover.Prelude.{
  ◌≡◌, ◌≢◌, ◌⊎◌, refl, sym, ap, ◌∙◌, inl, inr, none, some, List, [], ◌∷◌, true, false, arith,
  Option-cases, Bool-cases, length, ◌==◌,
}
use linea_sgx_prover.Prelude.Results.{Result, ok, panic, Result-cases}
use linea_sgx_prover.Bytes.{Bytes, compare_bytes_refl}
use linea_sgx_prover.BtreeMap
use linea_sgx_prover.BtreeMap.{Map, bytes_ord, get-insert_self, get-insert_ne}
use linea_sgx_prover.Linea.Trie.{Trie}
use linea_sgx_prover.Linea.Cache.{
  CacheValueEnc, TrieCache, TrieCacheCtx, Closure, is_dirty, settle, run_closure, decode_data,
  enter, with_key, get_cloned, collect_updates, update_raw, flush,
}

remove_comm :
    (j k : Bytes) (m : Map Bytes (Unit {0}))
    → BtreeMap.remove j (BtreeMap.remove k m) ≡ BtreeMap.remove k (BtreeMap.remove j m)
unfolding BtreeMap.remove
remove_comm j k [] = refl
remove_comm j k ((i, w) ∷ m) = ground (arith, remove_comm j k m)

settle-remove :
    (ks : List Bytes) (j : Bytes) (m : Map Bytes (Unit {0}))
    → settle ks (BtreeMap.remove j m) ≡ BtreeMap.remove j (settle ks m)
unfolding settle
settle-remove [] j m = refl
settle-remove (k ∷ ks) j m =
    ap (settle ks) (remove_comm k j m) ∙ settle-remove ks j (BtreeMap.remove k m)

-- Settling every key of a map leaves nothing of it.
settle-keys : (m : Map Bytes (Unit {0})) → settle (BtreeMap.keys m) m ≡ []
unfolding settle BtreeMap.remove
settle-keys [] = refl
settle-keys ((j, w) ∷ m) =
    let head : BtreeMap.remove j ((j, w) ∷ m) ≡ BtreeMap.remove j m =
      ground (arith, compare_bytes_refl j) in
    ap (settle (BtreeMap.keys m)) head
    ∙ (settle-remove (BtreeMap.keys m) j m ∙ ap (BtreeMap.remove j) (settle-keys m))

module _ {T V D : Type 0} (trie : Trie T D) (enc : CacheValueEnc V) where
  get_cloned-present :
      (k : Bytes) (c : TrieCache T V) (s : D) (w : V)
      → BtreeMap.get k c.cache ≡ some w
      → (get_cloned trie enc k (c, s)).0 ≡ ok w
  unfolding get_cloned with_key run_closure
  get_cloned-present k c s w h = ground arith

  -- `get_cloned` reads the entry of a key, or what the trie's data decode to.
  get_cloned-inv :
      (k : Bytes) (c : TrieCache T V) (s : D) (v : V)
      → (get_cloned trie enc k (c, s)).0 ≡ ok v
      → (BtreeMap.get k c.cache ≡ some v)
        ⊎ ((BtreeMap.get k c.cache ≡ none)
            × ((buf : Bytes) × trie.get c.raw k s ≡ ok buf × decode_data trie enc buf ≡ ok v))
  unfolding get_cloned with_key run_closure enter BtreeMap.or_insert
  get_cloned-inv k c s v h = elim (Option-cases (BtreeMap.get k c.cache)) [
    | inl absent ↦ inr (
      absent,
      elim (Result-cases (trie.get c.raw k s)) [
        | inl (buf, read) ↦ elim (Result-cases (decode_data trie enc buf)) [
          | inl (w, decoded) ↦
              let same : (get_cloned trie enc k (c, s)).0 ≡ ok w = ground arith in
              (buf, read, decoded ∙ (sym same ∙ h))
          | inr (inl (e, failed)) ↦ absurd (ground arith)
          | inr (inr failed) ↦ absurd (ground arith)
        ]
        | inr (inl (e, failed)) ↦ absurd (ground arith)
        | inr (inr failed) ↦ absurd (ground arith)
      ],
    )
    | inr (w, present) ↦ inl (
        let e : ◌≡◌ {A = Result String V} (ok w) (ok v) =
          sym (get_cloned-present k c s w present) ∙ h in
        present ∙ ap some cc)
  ]

  module _ {O : Type 0} (k : Bytes) (f : Closure T V D O) (s : D) (v : V) where
    -- Whether the key was in the cache or not, the closure runs on its value.
    with_key-run :
        (c : TrieCache T V)
        → (get_cloned trie enc k (c, s)).0 ≡ ok v
        → (m : Map Bytes V) × (with_key trie enc k f (c, s)
            ≡ run_closure trie enc k f v (record c { cache = m }, s))
    unfolding with_key enter BtreeMap.or_insert
    with_key-run c h = elim (get_cloned-inv k c s v h) [
      | inl present ↦ (c.cache, ground arith)
      | inr (absent, (buf, read, decoded)) ↦ (BtreeMap.insert k v c.cache, ground arith)
    ]

    abbrev run_at : TrieCache T V → Result String O × TrieCacheCtx T V D
    run_at c = f (record { raw = c.raw; val = v; dirty = false; db = s })

    run_closure-read :
        (c : TrieCache T V)
        → (get_cloned trie enc k (run_closure trie enc k f v (c, s)).1).0 ≡ ok (run_at c).1.val
    unfolding run_closure
    run_closure-read c =
        get_cloned-present k _ (run_at c).1.db (run_at c).1.val
          (get-insert_self k (run_at c).1.val c.cache)

    run_closure-dirty :
        (c : TrieCache T V)
        → (run_at c).1.dirty ≡ true
        → is_dirty k (run_closure trie enc k f v (c, s)).1.0 ≡ true
    unfolding run_closure is_dirty BtreeMap.contains_key
    run_closure-dirty c h = ground (arith, get-insert_self k tt c.dirty)

    -- Where `get_cloned` reads the value v of a key, `with_key` runs the closure on v and returns
    -- what the closure returns; afterwards `get_cloned` reads the value that the closure left, and
    -- the key is dirty if the closure said so.
    pub with_key-get_cloned :
        (c : TrieCache T V)
        → (get_cloned trie enc k (c, s)).0 ≡ ok v
        → ((with_key trie enc k f (c, s)).0 ≡ (run_at c).0)
          × ((get_cloned trie enc k (with_key trie enc k f (c, s)).1).0 ≡ ok (run_at c).1.val)
          × ((run_at c).1.dirty ≡ true → is_dirty k (with_key trie enc k f (c, s)).1.0 ≡ true)
    unfolding run_closure
    with_key-get_cloned c h =
        let (m, e) = with_key-run c h in
        let filled = record c { cache = m } in
        (
          ap (λ r. r.0) e,
          ap (λ r. (get_cloned trie enc k r.1).0) e ∙ run_closure-read filled,
          λ d. ap (λ r. is_dirty k r.1.0) e ∙ run_closure-dirty filled d,
        )

  -- A flush that does not panic leaves no key dirty and every entry of the cache as it was, also
  -- where it reports missing nodes.
  pub flush-clean :
      (c : TrieCache T V) (s : D)
      → (flush trie enc (c, s)).0 ≢ panic
      → ((flush trie enc (c, s)).1.0.dirty ≡ []) × ((flush trie enc (c, s)).1.0.cache ≡ c.cache)
  unfolding flush update_raw
  flush-clean c s h =
      elim (Result-cases (collect_updates trie enc c.cache (BtreeMap.keys c.dirty))) [
        | inr (inl (e, failed)) ↦ elim e [ ]
        | inr (inr failed) ↦ absurd (h (ground arith))
        | inl (updates, collected) ↦ elim (Result-cases (trie.update updates (c.raw, s)).0) [
          | inr (inl (e, failed)) ↦ elim e [ ]
          | inr (inr failed) ↦ absurd (h (ground arith))
          | inl (results, updated) ↦
              elim (Bool-cases (length results == length (BtreeMap.keys c.dirty))) [
                | inr differ ↦ absurd (h (ground arith))
                | inl agree ↦ (ground (arith, settle-keys c.dirty), ground arith)
              ]
        ]
      ]

-- ===== src/Linea/Cache.antt =====
-- `TrieCache` of src/common/linea/src/cache.rs, over any trie and any kind of value. Keys are bytes
-- in their lexicographic order, as they are for `SH160` and `SH256`.
pub mod Laws
use Prim.Native.String.{String}
use linea_sgx_prover.Prelude.{
  Option, none, some, List, [], ◌∷◌, Bool, true, false, ◌&&◌, ◌==◌, if◌then◌else◌, length,
}
use linea_sgx_prover.Prelude.Results
use linea_sgx_prover.Prelude.Results.{Result, ok, err, assert, unwrap}
use linea_sgx_prover.Prelude.Exec.{Exec, pure, lift, ◌>>=◌, ◌>>◌}
use linea_sgx_prover.Bytes.{Bytes, bytes_eq}
use linea_sgx_prover.BtreeMap
use linea_sgx_prover.BtreeMap.{Map, bytes_ord}
use linea_sgx_prover.EthTypes.{Sh256}
use linea_sgx_prover.Linea.Trie.{Trie, TrieUpdate, missing, success}

-- `CacheValueEnc` with `Default`. Encoding and the default may panic.
pub record CacheValueEnc (V : Type 0) : Type 1 where
  pub encode : V → Result ⊥ Bytes
  pub decode : Bytes → Result String V
  pub default_value : Result ⊥ V

pub record TrieCache (T V : Type 0) : Type 0 where
  pub raw : T
  pub cache : Map Bytes V
  pub dirty : Map Bytes (Unit {0})

-- `TrieCacheCtx`: what a closure may change.
pub record TrieCacheCtx (T V D : Type 0) : Type 0 where
  pub raw : T
  pub val : V
  pub dirty : Bool
  pub db : D

-- A closure returns a value or panics.
abbrev pub Closure : Type 0 → Type 0 → Type 0 → Type 0 → Type 0
Closure T V D O = Exec (TrieCacheCtx T V D) String O

-- `TrieCache::new`.
unfoldable pub new : {T V : Type 0} → T → TrieCache T V
new raw = record { raw = raw; cache = []; dirty = [] }

module _ {T V : Type 0} where
  unfoldable pub mark_dirty : Bytes → TrieCache T V → TrieCache T V
  mark_dirty k c = record c { dirty = BtreeMap.insert k tt c.dirty }

  unfoldable pub is_dirty : Bytes → TrieCache T V → Bool
  is_dirty k c = BtreeMap.contains_key k c.dirty

-- `self.dirty.remove`, for each of the keys.
unfoldable pub settle : List Bytes → Map Bytes (Unit {0}) → Map Bytes (Unit {0})
settle [] m = m
settle (k ∷ ks) m = settle ks (BtreeMap.remove k m)

-- The nodes that were missing, in the order of the results.
unfoldable pub missing_nodes : List TrieUpdate → List Sh256
missing_nodes [] = []
missing_nodes (missing node ∷ results) = node ∷ missing_nodes results
missing_nodes (success ∷ results) = missing_nodes results

module _ {T V D : Type 0} (trie : Trie T D) (enc : CacheValueEnc V) where
  -- `revert`.
  unfoldable pub revert : Sh256 → TrieCache T V → Bool × TrieCache T V
  revert root c =
      if bytes_eq (trie.root_hash c.raw) root && length c.dirty == 0
      then (false, c)
      else (true, record { raw = trie.new_root c.raw root; cache = []; dirty = [] })

  -- What `with_key` does with a value: the closure runs on the entry, and the key becomes dirty
  -- where the closure says so.
  unfoldable pub run_closure :
      {O : Type 0} → Bytes → Closure T V D O → V → Exec (TrieCache T V × D) String O
  run_closure k f v (c, s) =
      let after = f (record { raw = c.raw; val = v; dirty = false; db = s }) in
      (
        after.0,
        (
          record {
            raw = after.1.raw;
            cache = BtreeMap.insert k after.1.val c.cache;
            dirty = if after.1.dirty then BtreeMap.insert k tt c.dirty else c.dirty;
          },
          after.1.db,
        ),
      )

  -- The value of the trie's data.
  unfoldable pub decode_data : Bytes → Result String V
  decode_data [] = unwrap enc.default_value
  decode_data (b ∷ bs) = enc.decode (b ∷ bs)

  -- `self.cache.entry(k).or_insert(data)`, and the closure on it.
  unfoldable pub enter :
      {O : Type 0} → Bytes → Closure T V D O → V → Exec (TrieCache T V × D) String O
  enter k f v (c, s) =
      let entry = BtreeMap.or_insert k v c.cache in
      run_closure k f entry.1 (record c { cache = entry.0 }, s)

  -- `with_key`.
  unfoldable pub with_key :
      {O : Type 0} → Bytes → Closure T V D O → Exec (TrieCache T V × D) String O
  with_key k f (c, s) = elim (BtreeMap.get k c.cache) [
    | some v ↦ run_closure k f v (c, s)
    | none ↦
        (do data' ← lift (trie.get c.raw k s); v ← lift (decode_data data'); enter k f v) (c, s)
  ]

  -- `try_with_key`.
  unfoldable pub try_with_key :
      {O : Type 0} → Bytes → Closure T V D O → Exec (TrieCache T V × D) String (Option O)
  try_with_key k f (c, s) = elim (BtreeMap.get k c.cache) [
    | some v ↦ (do o ← run_closure k f v; pure (some o)) (c, s)
    | none ↦
        (do
          found ← lift (trie.try_get c.raw k s)
          elim found [
            | some data' ↦ do v ← lift (decode_data data'); o ← enter k f v; pure (some o)
            | none ↦ pure none
          ])
          (c, s)
  ]

  -- `get_cloned`.
  unfoldable pub get_cloned : Bytes → Exec (TrieCache T V × D) String V
  get_cloned k = with_key k (λ ctx. (ok ctx.val, ctx))

  -- The updates of `flush`: nothing for a key that is not in the cache.
  unfoldable pub collect_updates : Map Bytes V → List Bytes → Result ⊥ (List (Bytes × Bytes))
  collect_updates cache [] = ok []
  collect_updates cache (k ∷ ks) =
      Results.◌>>=◌ (elim (BtreeMap.get k cache) [ none ↦ ok [] | some v ↦ enc.encode v ])
        (λ data'. Results.◌>>=◌ (collect_updates cache ks) (λ rest. ok ((k, data') ∷ rest)))

  -- `self.raw.update(db, updates)`.
  unfoldable pub update_raw :
      {E : Type 0} → List (Bytes × Bytes) → Exec (TrieCache T V × D) E (List TrieUpdate)
  update_raw updates (c, s) =
      let after = trie.update updates (c.raw, s) in
      (unwrap after.0, (record c { raw = after.1.0 }, after.1.1))

  abbrev pub clean : {E : Type 0} → List Bytes → Exec (TrieCache T V × D) E (Unit {0})
  clean ks (c, s) = (ok tt, (record c { dirty = settle ks c.dirty }, s))

  -- `flush`.
  unfoldable pub flush : Exec (TrieCache T V × D) (List Sh256) (Unit {0})
  flush cs =
      (do
        updates ← lift (unwrap (collect_updates cs.0.cache (BtreeMap.keys cs.0.dirty)))
        results ← update_raw updates
        lift (assert (length results == length (BtreeMap.keys cs.0.dirty)))
        clean (BtreeMap.keys cs.0.dirty)
        lift (elim (missing_nodes results) [ [] ↦ ok tt | node ∷ nodes ↦ err (node ∷ nodes) ]))
        cs

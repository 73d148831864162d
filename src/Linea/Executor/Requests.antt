-- ===== src/Linea/Executor/Requests.antt =====
-- The slots, accounts and codes that `fetch_prestate` of src/common/linea/src/block_executor.rs
-- collects, and the requests it makes of them.
use linea_sgx_prover.Prelude.{
  ◌≡◌, refl, sym, ap, ◌∙◌, Option, none, some, List, [], ◌∷◌, Bool, true, false, ◌&&◌, ◌||◌, arith,
  inl, inr, Option-cases,
}
use linea_sgx_prover.Bytes.{Bytes}
use linea_sgx_prover.BtreeMap.{Map, bytes_ord, get, or_insert, contains_key, keys}
use linea_sgx_prover.BtreeMap.Groups.{
  BtreeSet, any, same, touch, add_to, contains_key-touch, contains_key-add_to, contains_key-insert,
  contains_key_at,
}
use linea_sgx_prover.BtreeMap.Entries.{contains_key-keys, holds, holds-touch, holds-add_to}
use linea_sgx_prover.EthTypes.{Sh160, Sh256}
use linea_sgx_prover.Linea.Executor.{
  PreAccount, AccessTuple, Evm, add_keys, Collected, collect_accounts, collect_txs, fetch_reqs,
}

-- Whether an account of a transaction touches a slot, and whether a transaction does.
abbrev pub touches : Sh160 → Sh256 → Sh160 × PreAccount → Bool
touches addr slot (a, acc) = same addr a && any (same slot) acc.storage

abbrev pub tx_touches : Sh160 → Sh256 → Option (List (Sh160 × PreAccount)) → Bool
tx_touches addr slot none = false
tx_touches addr slot (some result) = any (touches addr slot) result

-- Whether a transaction touches an account.
abbrev pub tx_mentions : Sh160 → Option (List (Sh160 × PreAccount)) → Bool
tx_mentions addr none = false
tx_mentions addr (some result) = any (λ a. same addr a.0) result

-- Whether a transaction touches an account whose code has this hash.
abbrev pub tx_runs : (Bytes → Sh256) → Sh256 → Option (List (Sh160 × PreAccount)) → Bool
tx_runs keccak h none = false
tx_runs keccak h (some result) = any (λ a. same h (keccak a.1.code)) result

-- Whether a request of the node asks for a slot, and whether it is about an account.
abbrev pub asks : Sh160 → Sh256 → AccessTuple → Bool
asks addr slot t = same addr t.address && any (same slot) t.storage_keys

abbrev pub is_about : Sh160 → AccessTuple → Bool
is_about addr t = same addr t.address

or_turn : (a b c : Bool) → (a || (b || c)) ≡ ((b || a) || c)
or_turn a true c = ground arith
or_turn a false c = refl

and_or : (a b c d : Bool) → ((a && b) || ((a && c) || d)) ≡ ((a && (c || b)) || d)
and_or true b c d = or_turn b c d
and_or false b c d = refl

or_absorb : (a b : Bool) → (a || (a || b)) ≡ (a || b)
or_absorb true b = refl
or_absorb false b = refl

holds-add_keys :
    (a : Sh160) (slots : List Sh256) (m : Map Sh160 (BtreeSet Sh256)) (addr : Sh160) (slot : Sh256)
    → any (holds addr slot) (add_keys a slots m)
      ≡ ((same addr a && any (same slot) slots) || any (holds addr slot) m)
unfolding add_keys contains_key
holds-add_keys a [] m addr slot = ground arith
holds-add_keys a (s ∷ slots) m addr slot =
    holds-add_keys a slots (add_to a s m) addr slot
    ∙ ap (λ b. (same addr a && any (same slot) slots) || b) (holds-add_to a s m addr slot)
    ∙ and_or (same addr a) (any (same slot) slots) (same slot s) (any (holds addr slot) m)

contains_key-touched :
    (a : Sh160) (slots : List Sh256) (n : Map Sh160 (BtreeSet Sh256)) (addr : Sh160) (before : Bool)
    → contains_key addr n ≡ (same addr a || before)
    → contains_key addr (add_keys a slots n) ≡ (same addr a || before)
unfolding add_keys
contains_key-touched a [] n addr before h = h
contains_key-touched a (s ∷ slots) n addr before h =
    contains_key-touched a slots (add_to a s n) addr before (
      contains_key-add_to a s n addr
      ∙ ap (λ b. same addr a || b) h
      ∙ or_absorb (same addr a) before)

contains_key-add_keys :
    (a : Sh160) (slots : List Sh256) (m : Map Sh160 (BtreeSet Sh256)) (addr : Sh160)
    → contains_key addr (add_keys a slots (touch a m)) ≡ (same addr a || contains_key addr m)
contains_key-add_keys a slots m addr =
    contains_key-touched a slots (touch a m) addr (contains_key addr m)
      (contains_key-touch a m addr)

module _ (e : Evm) where
  holds-collect_accounts :
      (result : List (Sh160 × PreAccount)) (c : Collected e) (addr : Sh160) (slot : Sh256)
      → any (holds addr slot) (collect_accounts e result c).0
        ≡ (any (touches addr slot) result || any (holds addr slot) c.0)
  unfolding collect_accounts contains_key
  holds-collect_accounts [] c addr slot = refl
  holds-collect_accounts ((a, acc) ∷ result) (unique, codes) addr slot =
      holds-collect_accounts result
        (add_keys a acc.storage (touch a unique), (or_insert (e.keccak acc.code) acc.code codes).0)
        addr slot
      ∙ ap (λ b. any (touches addr slot) result || b)
          (holds-add_keys a acc.storage (touch a unique) addr slot
            ∙ ap (λ b. touches addr slot (a, acc) || b) (holds-touch a unique addr slot))
      ∙ or_turn (any (touches addr slot) result) (touches addr slot (a, acc))
          (any (holds addr slot) unique)

  pub holds-collect_txs :
      (txs : List (Option (List (Sh160 × PreAccount)))) (c : Collected e) (addr : Sh160)
      (slot : Sh256)
      → any (holds addr slot) (collect_txs e txs c).0
        ≡ (any (tx_touches addr slot) txs || any (holds addr slot) c.0)
  unfolding collect_txs contains_key
  holds-collect_txs [] c addr slot = refl
  holds-collect_txs (none ∷ txs) c addr slot = holds-collect_txs txs c addr slot
  holds-collect_txs (some result ∷ txs) c addr slot =
      holds-collect_txs txs (collect_accounts e result c) addr slot
      ∙ ap (λ b. any (tx_touches addr slot) txs || b) (holds-collect_accounts result c addr slot)
      ∙ or_turn (any (tx_touches addr slot) txs) (any (touches addr slot) result)
          (any (holds addr slot) c.0)

  contains_key-collect_accounts :
      (result : List (Sh160 × PreAccount)) (c : Collected e) (addr : Sh160)
      → contains_key addr (collect_accounts e result c).0
        ≡ (any (λ a. same addr a.0) result || contains_key addr c.0)
  unfolding collect_accounts
  contains_key-collect_accounts [] c addr = refl
  contains_key-collect_accounts ((a, acc) ∷ result) (unique, codes) addr =
      contains_key-collect_accounts result
        (add_keys a acc.storage (touch a unique), (or_insert (e.keccak acc.code) acc.code codes).0)
        addr
      ∙ ap (λ b. any (λ a. same addr a.0) result || b)
          (contains_key-add_keys a acc.storage unique addr)
      ∙ or_turn (any (λ a. same addr a.0) result) (same addr a) (contains_key addr unique)

  pub contains_key-collect_txs :
      (txs : List (Option (List (Sh160 × PreAccount)))) (c : Collected e) (addr : Sh160)
      → contains_key addr (collect_txs e txs c).0
        ≡ (any (tx_mentions addr) txs || contains_key addr c.0)
  unfolding collect_txs
  contains_key-collect_txs [] c addr = refl
  contains_key-collect_txs (none ∷ txs) c addr = contains_key-collect_txs txs c addr
  contains_key-collect_txs (some result ∷ txs) c addr =
      contains_key-collect_txs txs (collect_accounts e result c) addr
      ∙ ap (λ b. any (tx_mentions addr) txs || b) (contains_key-collect_accounts result c addr)
      ∙ or_turn (any (tx_mentions addr) txs) (any (λ a. same addr a.0) result)
          (contains_key addr c.0)

  contains_key-or_insert :
      (k : Sh256) (code : Bytes) (codes : Map Sh256 Bytes) (h : Sh256)
      → contains_key h (or_insert k code codes).0 ≡ (same h k || contains_key h codes)
  unfolding or_insert
  contains_key-or_insert k code codes h = elim (Option-cases (get k codes)) [
    | inl missing ↦ rw (or_insert, missing) (contains_key-insert k code codes h)
    | inr (c, held) ↦ rw (or_insert, held) (contains_key_at k codes h held)
  ]

  codes-collect_accounts :
      (result : List (Sh160 × PreAccount)) (c : Collected e) (h : Sh256)
      → contains_key h (collect_accounts e result c).1
        ≡ (any (λ a. same h (e.keccak a.1.code)) result || contains_key h c.1)
  unfolding collect_accounts
  codes-collect_accounts [] c h = refl
  codes-collect_accounts ((a, acc) ∷ result) (unique, codes) h =
      codes-collect_accounts result
        (add_keys a acc.storage (touch a unique), (or_insert (e.keccak acc.code) acc.code codes).0)
        h
      ∙ ap (λ b. any (λ a. same h (e.keccak a.1.code)) result || b)
          (contains_key-or_insert (e.keccak acc.code) acc.code codes h)
      ∙ or_turn (any (λ a. same h (e.keccak a.1.code)) result) (same h (e.keccak acc.code))
          (contains_key h codes)

  pub codes-collect_txs :
      (txs : List (Option (List (Sh160 × PreAccount)))) (c : Collected e) (h : Sh256)
      → contains_key h (collect_txs e txs c).1
        ≡ (any (tx_runs e.keccak h) txs || contains_key h c.1)
  unfolding collect_txs
  codes-collect_txs [] c h = refl
  codes-collect_txs (none ∷ txs) c h = codes-collect_txs txs c h
  codes-collect_txs (some result ∷ txs) c h =
      codes-collect_txs txs (collect_accounts e result c) h
      ∙ ap (λ b. any (tx_runs e.keccak h) txs || b) (codes-collect_accounts result c h)
      ∙ or_turn (any (tx_runs e.keccak h) txs) (any (λ a. same h (e.keccak a.1.code)) result)
          (contains_key h c.1)

  -- The requests made of a map ask for what it holds.
  pub asks-fetch_reqs :
      (m : Map Sh160 (BtreeSet Sh256)) (addr : Sh160) (slot : Sh256)
      → any (asks addr slot) (fetch_reqs e m) ≡ any (holds addr slot) m
  unfolding fetch_reqs contains_key
  asks-fetch_reqs [] addr slot = refl
  asks-fetch_reqs ((a, s) ∷ m) addr slot =
      ap (λ b. (same addr a && b) || any (asks addr slot) (fetch_reqs e m))
        (sym (contains_key-keys slot s))
      ∙ ap (λ b. holds addr slot (a, s) || b) (asks-fetch_reqs m addr slot)

  pub is_about-fetch_reqs :
      (m : Map Sh160 (BtreeSet Sh256)) (addr : Sh160)
      → any (is_about addr) (fetch_reqs e m) ≡ any (same addr) (keys m)
  unfolding fetch_reqs
  is_about-fetch_reqs [] addr = refl
  is_about-fetch_reqs ((a, s) ∷ m) addr = ap (λ b. same addr a || b) (is_about-fetch_reqs m addr)

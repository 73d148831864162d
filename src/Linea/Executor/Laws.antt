-- ===== src/Linea/Executor/Laws.antt =====
-- What `fetch_prestate` of src/common/linea/src/block_executor.rs asks the node for.
use linea_sgx_prover.Prelude.{
  ℕ, ◌-◌, ◌<◌, ◌≡◌, refl, sym, ap, ◌∙◌, inl, inr, Option, none, some, List, [], ◌∷◌, Bool, true,
  false, ◌||◌, ltb, if◌then◌else◌, arith, Option-cases,
}
use linea_sgx_prover.Prelude.Results.{ok, >>=-inv, ok_inj}
use linea_sgx_prover.Bytes.{Bytes}
use linea_sgx_prover.BtreeMap.{
  Map, bytes_ord, get, insert, or_insert, contains_key, get-insert_self, get-insert_ne,
}
use linea_sgx_prover.BtreeMap.Groups.{any, same-cases, touch}
use linea_sgx_prover.BtreeMap.Entries.{contains_key-keys}
use linea_sgx_prover.EthTypes.{Sh160, Sh256}
use linea_sgx_prover.Zktrie.Types.{zero_hash}
use linea_sgx_prover.Linea.Blocks.{sub_u64}
use linea_sgx_prover.Linea.Executor.{
  PreAccount, AccessTuple, Evm, FullBlock, Pob, Client, add_keys, Collected, collect_accounts,
  collect_txs, fetch_reqs, fetch_prestate,
}
use linea_sgx_prover.Linea.Executor.Requests.{
  tx_runs, codes-collect_txs, tx_touches, tx_mentions, asks, is_about, holds-collect_txs,
  contains_key-collect_txs, asks-fetch_reqs, is_about-fetch_reqs,
}

module _ (e : Evm) where
  -- Every code stands under its hash.
  abbrev pub IsHashed : Map Sh256 Bytes → Type 0
  IsHashed codes = (h : Sh256) (code : Bytes) → get h codes ≡ some code → e.keccak code ≡ h

  or_insert-IsHashed :
      (code : Bytes) (codes : Map Sh256 Bytes)
      → IsHashed codes
      → IsHashed (or_insert (e.keccak code) code codes).0
  unfolding or_insert
  or_insert-IsHashed code codes known = elim (Option-cases (get (e.keccak code) codes)) [
    | inr (c, held) ↦ rw (or_insert, held) known
    | inl missing ↦
        rw (or_insert, missing)
          (λ h c found. elim (same-cases h (e.keccak code)) [
            | inl (at, yes') ↦
                let put = get-insert_self (e.keccak code) code codes in
                let same_code : some code ≡ some c =
                  sym put ∙ ap (λ i. get i (insert (e.keccak code) code codes)) (sym at) ∙ found in
                cc
            | inr (ne, no') ↦
                known h c (sym (get-insert_ne (e.keccak code) h code codes ne) ∙ found)
          ])
  ]

  collect_accounts-IsHashed :
      (result : List (Sh160 × PreAccount)) (c : Collected e)
      → IsHashed c.1
      → IsHashed (collect_accounts e result c).1
  unfolding collect_accounts
  collect_accounts-IsHashed [] c known = known
  collect_accounts-IsHashed ((a, acc) ∷ result) (unique, codes) known =
      collect_accounts-IsHashed result
        (add_keys a acc.storage (touch a unique), (or_insert (e.keccak acc.code) acc.code codes).0)
        (or_insert-IsHashed acc.code codes known)

  collect_txs-IsHashed :
      (txs : List (Option (List (Sh160 × PreAccount)))) (c : Collected e)
      → IsHashed c.1
      → IsHashed (collect_txs e txs c).1
  unfolding collect_txs
  collect_txs-IsHashed [] c known = known
  collect_txs-IsHashed (none ∷ txs) c known = collect_txs-IsHashed txs c known
  collect_txs-IsHashed (some result ∷ txs) c known =
      collect_txs-IsHashed txs (collect_accounts e result c)
        (collect_accounts-IsHashed result c known)

  -- What `fetch_prestate` has asked the node for, and what it has made of the answers.
  pub record Requested (chain_id : ℕ) (client : Client e) (block : ℕ) (pob : Pob e) : Type 0 where
    pub txs : List (Option (List (Sh160 × PreAccount)))
    pub blk : FullBlock e
    pub reqs : List AccessTuple
    pub codes : Map Sh256 Bytes
    pub states : List e.State
    pub root : Sh256
    pub traced : client.trace_prestate block ≡ ok txs
    pub got : client.get_block block ≡ ok blk
    pub not_genesis : 0 < e.number blk.header
    pub fetched : client.fetch_states reqs (e.number blk.header - 1) ≡ ok states
    pub rooted : client.header_state_root (e.number blk.header - 1) ≡ ok root
    pub is_pob : pob ≡ client.from_proof chain_id blk root [] codes states
    pub slots :
        (addr : Sh160) (slot : Sh256) → any (asks addr slot) reqs ≡ any (tx_touches addr slot) txs
    pub accounts : (addr : Sh160) → any (is_about addr) reqs ≡ any (tx_mentions addr) txs
    pub hashed : IsHashed codes
    pub coded : (h : Sh256) → contains_key h codes ≡ any (tx_runs e.keccak h) txs

  sub_u64-inv : {E : Type 0} (n : ℕ) {m : ℕ} → sub_u64 {E = E} n 1 ≡ ok m → (0 < n) × (m ≡ n - 1)
  sub_u64-inv n h = (ground arith, ground arith)

  if_positive : {A : Type 0} (n : ℕ) (a b : A) → 0 < n → (if ltb 0 n then a else b) ≡ a
  if_positive n a b h = ground arith

  empty-slots : (b : Bool) → (b || false) ≡ b
  empty-slots true = refl
  empty-slots false = refl

  -- A pob that `fetch_prestate` returns is of a block after the first. It is made of the node's
  -- answer, for the block before, to a list of requests, of the state root of that block, and of
  -- codes. The requests ask for exactly the slots that some transaction of the block touches by the
  -- node's tracer, each with its account, and they are about exactly the accounts that some
  -- transaction touches. Each code stands under its hash, and the hashes are exactly those of the
  -- codes of the accounts that some transaction touches.
  pub fetch_prestate-Requested :
      (chain_id : ℕ) (client : Client e) (block : ℕ) {pob : Pob e}
      → fetch_prestate e chain_id client block ≡ ok pob
      → Requested chain_id client block pob
  unfolding fetch_prestate contains_key get
  fetch_prestate-Requested chain_id client block h =
      let (txs, traced, h1) = >>=-inv (client.trace_prestate block) _ h in
      let (blk, got, h2) = >>=-inv (client.get_block block) _ h1 in
      let n = e.number blk.header in
      let (prev_block, before, h3) = >>=-inv (sub_u64 n 1) _ h2 in
      let (positive, is_prev) = sub_u64-inv {E = e.RpcError} n before in
      let c = collect_txs e txs ([], []) in
      let (states, fetched, h4) =
        >>=-inv (client.fetch_states (fetch_reqs e c.0) prev_block) _ h3 in
      let (root, rooted, h5) =
        >>=-inv (if ltb 0 n then client.header_state_root prev_block else ok zero_hash) _ h4 in
      record {
        txs = txs;
        blk = blk;
        reqs = fetch_reqs e c.0;
        codes = c.1;
        states = states;
        root = root;
        traced = traced;
        got = got;
        not_genesis = positive;
        fetched = ap (client.fetch_states (fetch_reqs e c.0)) (sym is_prev) ∙ fetched;
        rooted =
            ap client.header_state_root (sym is_prev)
            ∙ sym (if_positive n (client.header_state_root prev_block) (ok zero_hash) positive)
            ∙ rooted;
        is_pob = sym (ok_inj {E = e.RpcError} h5);
        slots = λ addr slot.
            asks-fetch_reqs e c.0 addr slot
            ∙ holds-collect_txs e txs ([], []) addr slot
            ∙ empty-slots (any (tx_touches addr slot) txs);
        accounts = λ addr.
            is_about-fetch_reqs e c.0 addr
            ∙ sym (contains_key-keys addr c.0)
            ∙ contains_key-collect_txs e txs ([], []) addr
            ∙ empty-slots (any (tx_mentions addr) txs);
        coded =
            λ h. codes-collect_txs e txs ([], []) h ∙ empty-slots (any (tx_runs e.keccak h) txs);
        hashed = collect_txs-IsHashed txs ([], []) (λ g code held. absurd (cc));
      }

-- ===== src/App/Tasks/Laws.antt =====
-- What a proof vouches for that `Api::prove` of src/apps/prover/src/apps.rs returns.
use Prim.Native.String.{String}
use linea_sgx_prover.Prelude.{
  ℕ, zero, suc, ◌+◌, ◌-◌, ◌≤◌, ◌<◌, ◌≡◌, refl, sym, ap, ◌∙◌, inl, inr, Option, List, [], ◌==◌, ltb,
  true, arith, Bool-cases, length,
}
use linea_sgx_prover.Prelude.Results.{Result, ok, err, map_err, >>=-inv, ok_inj, map_err-inv}
use linea_sgx_prover.EthTypes.{Sh256}
use linea_sgx_prover.Zktrie.Types.{zero_hash}
use linea_sgx_prover.Linea.Blocks.{BatchTask, count_from, inclusive}
use linea_sgx_prover.Linea.Executor.{Evm, Pob, Builders, Client, generate_pob, execute}
use linea_sgx_prover.Linea.Verifier.{Chain}
use linea_sgx_prover.Linea.Attestation.{Clock, Prover}
use linea_sgx_prover.App.{run_handlers}
use linea_sgx_prover.App.Laws.{generate_poe-Executed}
use linea_sgx_prover.App.Handlers.{member, run_handlers-no_panic, get-run_handlers, Executed-get}
use linea_sgx_prover.App.Tasks.{
  PoeCrate, TaskError, chain_id_failed, invalid_block_range, poe_failed, poes, handle, task_poe,
  prove,
}

member-count_from : (k s n : ℕ) → s ≤ n → n < s + k → member n (count_from k s) ≡ true
unfolding count_from
member-count_from zero s n low high = absurd (omega arith)
member-count_from (suc k) s n low high = elim (Bool-cases (n == s)) [
  | inl here ↦ rw (count_from, here) refl
  | inr there ↦
      let later : s + 1 ≤ n = ground arith in
      rw (count_from, there) (member-count_from k (s + 1) n later (omega arith))
]

member-inclusive : (start end n : ℕ) → start ≤ n → n ≤ end → member n (inclusive start end) ≡ true
unfolding inclusive
member-inclusive start end n low high =
    member-count_from ((end + 1) - start) start n low (omega arith)

module _ (e : Evm) (c : Chain) (pc : PoeCrate e c) {S : Type 0} (collector : ℕ → Sh256 → e.Db → S)
    (collecting : Builders e S (ℕ → Option Sh256))
    (executing : Builders e e.TrieState (ℕ → ℕ → Sh256)) (clients : ℕ → ℕ → Client e)
    (header_hashes : ℕ → ℕ → Option Sh256) where
  -- What was collected for a block was executed, to the state root in the header of the block.
  pub record Proved (chain_id n : ℕ) : Type 0 where
    pub pob : Pob e
    pub block : e.Block
    pub made : generate_pob e collector collecting chain_id (clients n) (header_hashes n) n ≡ ok pob
    pub executed : execute e executing chain_id e.new_db pob ≡ ok block
    pub same_root : pc.header_root pob.block.header ≡ pc.block_root block

  -- The order in which the handlers end has each block of the task once.
  pub record IsOrder (order blocks : List ℕ) : Type 0 where
    pub same_length : length order ≡ length blocks
    pub all_there : (n : ℕ) → member n blocks ≡ true → member n order ≡ true

  handle-Proved :
      ((a b r w : Sh256) → pc.new_state_root (pc.single_block a b r w) ≡ r)
      → (chain_id n : ℕ) {block : e.Block} {poe : pc.Poe}
      → handle e c pc collector collecting executing clients header_hashes chain_id n
        ≡ ok (block, poe)
      → pc.new_state_root poe ≡ pc.block_root block
      → Proved chain_id n
  unfolding handle
  handle-Proved roots chain_id n {block} {poe} h same_root =
      let (pob, made, rest) =
        >>=-inv
          (map_err pc.pob_message
            (generate_pob e collector collecting chain_id (clients n) (header_hashes n) n))
          _ h in
      let (block', executed, rest') =
        >>=-inv (map_err pc.execute_message (execute e executing chain_id e.new_db pob)) _ rest in
      let pair = ok_inj {E = String} rest' in
      let is_block : block' ≡ block = ap (λ r. r.0) pair in
      let is_poe = ap (λ r. r.1) pair in
      record {
        pob = pob;
        block = block;
        made =
            map_err-inv pc.pob_message
              (generate_pob e collector collecting chain_id (clients n) (header_hashes n) n) made;
        executed =
            map_err-inv pc.execute_message (execute e executing chain_id e.new_db pob) executed
            ∙ ap ok is_block;
        same_root =
            sym (
              roots (pc.state_hash pob) pob.prev_state_root (pc.header_root pob.block.header)
                zero_hash)
            ∙ ap pc.new_state_root is_poe
            ∙ same_root;
      }

  -- Every block of a task whose proof is generated was executed to the root in its header.
  task_poe-Proved :
      ((a b r w : Sh256) → pc.new_state_root (pc.single_block a b r w) ≡ r)
      → (chain_id : ℕ) (key : c.PrivateKey) (order : List ℕ) (task : BatchTask) {poe : pc.Poe}
      → IsOrder order task.blocks
      → task_poe e c pc collector collecting executing clients header_hashes chain_id key order task
        ≡ ok poe
      → (n : ℕ) → member n task.blocks ≡ true
      → Proved chain_id n
  unfolding task_poe
  task_poe-Proved roots chain_id key order task is_order h n listed =
      let p = poes e c pc chain_id key in
      let f = handle e c pc collector collecting executing clients header_hashes chain_id in
      let (made, (batch, executed, full, batched, signed)) =
        generate_poe-Executed p f order task h in
      let there = is_order.all_there n listed in
      let all : 0 + length order ≤ length (run_handlers p f order []) =
        let e = is_order.same_length in omega arith in
      let safe = run_handlers-no_panic p f order [] n all there in
      let (block, (poe, is_ok, same)) =
        Executed-get p f n executed (get-run_handlers p f order [] n safe (inl there)) in
      handle-Proved roots chain_id n is_ok same

  module _ (l2_chain_id : Result e.RpcError ℕ) {clock : Clock} (prover : Prover c clock) where
    -- If `single_block` keeps the root that it is given and the handlers end in some order of the
    -- blocks, then a proof that `prove` returns is for a range that is not empty, and each block of
    -- the range was fetched and executed, on the chain that the node names, to the state root in
    -- its header.
    pub prove-Proved :
        ((a b r w : Sh256) → pc.new_state_root (pc.single_block a b r w) ≡ r)
        → (order : List ℕ) (start end : ℕ) {poe : pc.Poe} → IsOrder order (inclusive start end)
        → prove e c pc collector collecting executing clients header_hashes l2_chain_id prover order
            start end
          ≡ ok poe
        → (start ≤ end)
          × ((chain_id : ℕ) × (l2_chain_id ≡ ok chain_id)
              × ((n : ℕ) → start ≤ n → n ≤ end → Proved chain_id n))
    unfolding prove
    prove-Proved roots order start end {poe} is_order h = elim (Bool-cases (ltb end start)) [
      | inl empty ↦
          let e : ◌≡◌ {A = Result (TaskError e c) pc.Poe} (err (invalid_block_range start end))
              (ok poe) =
            rw empty at h in
          absurd (cc)
      | inr fine ↦
          let (chain_id, asked, rest) =
            >>=-inv (map_err {F = TaskError e c} chain_id_failed l2_chain_id) _ (rw fine at h) in
          let task : BatchTask = record { data_hash = zero_hash; blocks = inclusive start end } in
          let made =
            map_err-inv poe_failed
              (task_poe e c pc collector collecting executing clients header_hashes chain_id
                prover.prvkey order task)
              rest in
          (
            ground arith,
            (
              chain_id,
              map_err-inv chain_id_failed l2_chain_id asked,
              λ n low high.
                  task_poe-Proved roots chain_id prover.prvkey order task is_order made n
                    (member-inclusive start end n low high),
            ),
          )
    ]

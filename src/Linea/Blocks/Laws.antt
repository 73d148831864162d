-- ===== src/Linea/Blocks/Laws.antt =====
-- What the block hashes, the retries and the batches of src/common/linea/src give their callers.
use mathlib.Core.Path.{subst}
use linea_sgx_prover.Prelude.{
  ℕ, zero, suc, ◌+◌, ◌<◌, ◌≤◌, ◌==◌, ◌≡◌, ◌≢◌, refl, sym, ap, ◌∙◌, ◌⊎◌, if◌then◌else◌, inl, inr,
  Option, none, some, List, [], ◌∷◌, ◌++◌, Bool, true, false, arith, Bool-cases, Option-cases,
  get_elem?,
}
use linea_sgx_prover.Prelude.Results.{Result, Result-cases, ok, err, >>=-inv, expect, expect-inv}
use linea_sgx_prover.Bytes.{bytes_eq}
use linea_sgx_prover.BtreeMap
use linea_sgx_prover.BtreeMap.{Map, nat_ord, get-insert_self, get-insert_ne}
use linea_sgx_prover.EthTypes.{EthTypes, Sh256}
use linea_sgx_prover.Linea.Blocks.{
  out_of_range, cached_hash, fetch_hash, retry, retry_from, BatchTask, Log, inclusive, topic_block,
  read_log, read_logs, batch_task,
}

-- Whatever the client answers, a `BlockHashCache` over the cache that `BuilderFetcher` has after a
-- call gives the hash that the call gave, and every other block has the entry that it had.
pub cached_hash-fetch_hash :
    (client : ℕ → Option Sh256) (current target : ℕ) (cache : Map ℕ Sh256)
    → let after = fetch_hash client current target cache in
      (cached_hash after.1 current target ≡ after.0)
      × ((other : ℕ) → other ≢ target → BtreeMap.get other after.1 ≡ BtreeMap.get other cache)
unfolding fetch_hash cached_hash
cached_hash-fetch_hash client current target cache =
    elim (Bool-cases (out_of_range current target)) [
      | inl out ↦ (ground arith, λ other h. ground arith)
      | inr range ↦ elim (Option-cases (BtreeMap.get target cache)) [
        | inr (hash, present) ↦ (ground arith, λ other h. ground arith)
        | inl absent ↦ elim (Option-cases (client target)) [
          | inl failed ↦ (ground arith, λ other h. ground arith)
          | inr (hash, answered) ↦ (
            ground (arith, get-insert_self target hash cache),
            λ other h. ground (arith, get-insert_ne target other hash cache h),
          )
        ]
      ]
    ]

module _ {E A : Type 0} (f : ℕ → Result E A) where
  -- The loop from the call `i`, where the calls before `m` fail and `m` does not.
  retry_from-stops :
      (n i m : ℕ) (before : Option E)
      → i ≤ m
      → m < i + n
      → ((j : ℕ) → i ≤ j → j < m → (e : E) × (f j ≡ err e))
      → ((e : E) → f m ≢ err e)
      → retry_from n f i before ≡ f m
  unfolding retry_from
  retry_from-stops zero i m before low below failed stops = absurd (omega arith)
  retry_from-stops (suc n) i m before low below failed stops = elim (Bool-cases (i == m)) [
    | inl same ↦
        let eq : i ≡ m = ground arith in
        elim (Result-cases (f i)) [
          | inl (a, first) ↦ rw (retry_from, first) (sym first ∙ ap f eq)
          | inr (inl (e, first)) ↦ absurd (stops e (ap f (sym eq) ∙ first))
          | inr (inr first) ↦ rw (retry_from, first) (sym first ∙ ap f eq)
        ]
    | inr differ ↦
        let later : i ≢ m = λ eq. ground arith in
        let (e, first) = failed i (omega arith) (omega arith) in
        rw (retry_from, first)
          (retry_from-stops n (suc i) m (some e) (omega arith) (omega arith)
            (λ j lo hi. failed j (omega arith) hi) stops)
  ]

  -- The loop where every call fails, the last with `e`.
  retry_from-err :
      (n i : ℕ) (e : E) (before : Option E)
      → ((j : ℕ) → i ≤ j → j < i + n → (e' : E) × (f j ≡ err e'))
      → f (i + n) ≡ err e
      → retry_from (suc n) f i before ≡ err e
  unfolding retry_from
  retry_from-err zero i e before failed last =
      let now : f i ≡ err e = let eq : i ≡ i + 0 = omega arith in rw (eq) last in ground arith
  retry_from-err (suc n) i e before failed last =
      let (e', now) = failed i (omega arith) (omega arith) in
      let at_end : f (suc i + n) ≡ err e =
        let eq : suc i + n ≡ i + suc n = omega arith in rw (eq) last in
      let rest =
        retry_from-err n (suc i) e (some e') (λ j lo hi. failed j (omega arith) (omega arith))
          at_end in
      ground arith

  -- Where the calls before the call `m` fail with errors, and the call `m` is the last that `retry`
  -- may make or does not fail with an error, `retry` gives what the call `m` gives.
  pub retry-decides :
      (n m : ℕ)
      → m < n
      → ((j : ℕ) → j < m → (e : E) × (f j ≡ err e))
      → ((e : E) → f m ≢ err e) ⊎ (suc m ≡ n)
      → retry n f ≡ f m
  unfolding retry
  retry-decides n m below failed (inl stops) =
      retry_from-stops n 0 m none (omega arith) (omega arith) (λ j lo hi. failed j hi) stops
  retry-decides n m below failed (inr last) = elim (Result-cases (f m)) [
    | inr (inl (e, at_last)) ↦
        ap (λ k. retry_from k f 0 none) (sym last)
        ∙ retry_from-err m 0 e none (λ j lo hi. failed j (omega arith))
            (let eq : 0 + m ≡ m = omega arith in rw (eq) at_last)
        ∙ sym at_last
    | inl (a, found) ↦
        retry_from-stops n 0 m none (omega arith) (omega arith) (λ j lo hi. failed j hi)
          (λ e h. absurd (cc))
    | inr (inr crashed) ↦
        retry_from-stops n 0 m none (omega arith) (omega arith) (λ j lo hi. failed j hi)
          (λ e h. absurd (cc))
  ]

branches :
    (E : Type 0) {A B : Type 0} (b : Bool) (x y next : A × B) (t : A)
    → x.0 ≡ t
    → y.0 ≡ t
    → ◌≡◌ {A = Result E (A × B)} (if b then ok x else ok y) (ok next)
    → next.0 ≡ t
branches E true x y next t hx hy h = let e : x ≡ next = cc in ap (λ r. r.0) (sym e) ∙ hx
branches E false x y next t hx hy h = let e : y ≡ next = cc in ap (λ r. r.0) (sym e) ∙ hy

module _ (eth : EthTypes) (E : Type 0) where
  -- A task that comes from a log: its hash is the log's, and its blocks are the range of the log.
  abbrev pub IsTaskOf : Log → BatchTask → Type 0
  IsTaskOf log task =
      (start : ℕ) × ((end : ℕ) × topic_block eth {E = E} log 2 ≡ ok start
        × topic_block eth {E = E} log 3 ≡ ok end
        × get_elem? log.topics 1 ≡ some task.data_hash
        × task.blocks ≡ inclusive start end)

  read_log-task :
      (log : Log) (acc next : BatchTask × Option Sh256)
      → read_log eth {E = E} log acc ≡ ok next
      → IsTaskOf log next.0
  unfolding read_log
  read_log-task log (before, tmp_tx) next h =
      let cur : Sh256 = elim tmp_tx [ some hash ↦ hash | none ↦ log.transaction_hash ] in
      let (start, first, h1) = >>=-inv (topic_block eth {E = E} log 2) _ h in
      let (end, second, h2) = >>=-inv (topic_block eth {E = E} log 3) _ h1 in
      let (hash, third, h3) = >>=-inv (expect {E = E} (get_elem? log.topics 1)) _ h2 in
      let set : next.0 ≡ record { data_hash = hash; blocks = inclusive start end } =
        branches E (bytes_eq log.transaction_hash cur) _ _ next _ refl refl h3 in
      (
        start,
        (
          end,
          first,
          second,
          expect-inv (get_elem? log.topics 1) third ∙ ap (λ t. some t.data_hash) (sym set),
          ap (λ t. t.blocks) set,
        ),
      )

  read_logs-task :
      (logs : List Log) (log : Log) (acc : BatchTask × Option Sh256) (task : BatchTask)
      → read_logs eth {E = E} (logs ++ log ∷ []) acc ≡ ok task
      → IsTaskOf log task
  unfolding read_logs
  read_logs-task [] log acc task h =
      let (next, read, done) = >>=-inv (read_log eth {E = E} log acc) _ h in
      let same : next.0 ≡ task =
        let e : ◌≡◌ {A = Result E BatchTask} (ok next.0) (ok task) = done in cc in
      subst (IsTaskOf log) same (read_log-task log acc next read)
  read_logs-task (first ∷ logs) log acc task h =
      let (next, _, rest) = >>=-inv (read_log eth {E = E} first acc) _ h in
      read_logs-task logs log next task rest

  -- The task that the handler of `subscribe` passes on is the task of the last log alone: its hash
  -- and its range of blocks are read from that log, whatever the logs before it say.
  pub batch_task-last :
      (logs : List Log) (log : Log) (task : BatchTask)
      → batch_task eth {E = E} (logs ++ log ∷ []) ≡ ok task
      → IsTaskOf log task
  unfolding batch_task
  batch_task-last logs log task h = read_logs-task logs log _ task h

-- ===== src/Linea/State/Laws.antt =====
-- Accounts as the state of src/common/linea/src/zktrie_state.rs shows them, and what its methods
-- make of them.
use Prim.Native.String.{String}
use linea_sgx_prover.Prelude.{
  ℕ, ◌≡◌, refl, ◌≢◌, Bool-cases, inl, inr, ap, ◌∙◌, Option, none, some, true, false, arith, ◌==◌,
}
use linea_sgx_prover.Prelude.Results.{Result, ok, panic, map_err}
use linea_sgx_prover.Bytes.{Bytes}
use linea_sgx_prover.Zktrie.Types.{Env, Error}
use linea_sgx_prover.Zktrie.Database.{Database}
use linea_sgx_prover.Zktrie.Sparse.{SpareMerkleTrie}
use linea_sgx_prover.Linea.Account.{ZkStateAccount, set_nonce}
use linea_sgx_prover.Linea.Cache.{TrieCacheCtx, Closure, is_dirty, get_cloned}
use linea_sgx_prover.Linea.Cache.Laws.{with_key-get_cloned}
use linea_sgx_prover.Linea.State.{
  with_key, Balances, ZkTrieState, account_enc, trie, with_acc, change_balance, add_balance,
  sub_balance, set_state_nonce,
}

module _ {D : Type 0} (db : Database D) (env : Env) (debug : Error → String) where
  -- The account of an address, as the cache reads it.
  abbrev pub account_of : Bytes → ZkTrieState D → Result String ZkStateAccount
  account_of address st =
      (get_cloned (trie db env debug) (account_enc env) address (st.acc_cache, st.db)).0

  -- A method on an account returns what its closure returns, and leaves the account that the
  -- closure left, dirty if the closure said so.
  with_acc-account :
      {O : Type 0} (address : Bytes) (f : Closure SpareMerkleTrie ZkStateAccount D O)
      (st : ZkTrieState D) (a : ZkStateAccount)
      → account_of address st ≡ ok a
      → let after = f (record { raw = st.acc_cache.raw; val = a; dirty = false; db = st.db }) in
        ((with_acc db env debug address f st).0 ≡ map_err with_key after.0)
        × (account_of address (with_acc db env debug address f st).1 ≡ ok after.1.val)
        × (after.1.dirty ≡ true
            → is_dirty address (with_acc db env debug address f st).1.acc_cache ≡ true)
  unfolding with_acc
  with_acc-account address f st a h =
      let (result, left, flagged) =
        with_key-get_cloned (trie db env debug) (account_enc env) address f st.db a st.acc_cache
          h in
      (ap (map_err with_key) result, left, flagged)

  change_balance-account :
      (g : ℕ → Option ℕ) (address : Bytes) (b : ℕ) (st : ZkTrieState D) (a : ZkStateAccount)
      → account_of address st ≡ ok a
      → g a.balance ≡ some b
      → let after = with_acc db env debug address (change_balance g) st in
        (after.0 ≡ ok tt)
        × (account_of address after.1 ≡ ok (record a { balance = b }))
        × (is_dirty address after.1.acc_cache ≡ true)
  change_balance-account g address b st a h result =
      let ctx : TrieCacheCtx SpareMerkleTrie ZkStateAccount D = record {
        raw = st.acc_cache.raw;
        val = a;
        dirty = false;
        db = st.db;
      } in
      let ran : change_balance g ctx
          ≡ (ok tt, record ctx { val = record a { balance = b }; dirty = true }) =
        rw (change_balance, result) refl in
      let (returned, left, flagged) = with_acc-account address (change_balance {D = D} g) st a h in
      (
        returned ∙ ap (λ r. map_err with_key r.0) ran,
        left ∙ ap (λ r. ok r.1.val) ran,
        flagged (ap (λ r. r.1.dirty) ran),
      )

  -- Where an account is read and the new nonce fits 64 bits, `set_nonce` succeeds, and the account
  -- has that nonce and its other fields as before; it becomes dirty unless it had the nonce already.
  pub set_state_nonce-account :
      (address : Bytes) (n : ℕ) (st : ZkTrieState D) (a : ZkStateAccount)
      → account_of address st ≡ ok a
      → env.eth.as_u64 n ≡ some n
      → let after = set_state_nonce db env debug address n st in
        (after.0 ≡ ok tt)
        × (account_of address after.1 ≡ ok (record a { nonce = n }))
        × (a.nonce ≢ n → is_dirty address after.1.acc_cache ≡ true)
  unfolding set_state_nonce set_nonce
  set_state_nonce-account address n st a h fits =
      let f : Closure SpareMerkleTrie ZkStateAccount D (Unit {0}) = λ ctx. elim (env.eth.as_u64 n) [
        | some m ↦
            let after = set_nonce ctx.val ctx.dirty m in
            (ok tt, record ctx { val = after.0; dirty = after.1 })
        | none ↦ (panic, ctx)
      ] in
      let ctx : TrieCacheCtx SpareMerkleTrie ZkStateAccount D = record {
        raw = st.acc_cache.raw;
        val = a;
        dirty = false;
        db = st.db;
      } in
      let (returned, left, flagged) = with_acc-account address f st a h in
      elim (Bool-cases (a.nonce == n)) [
        | inl same ↦
            let eq : a.nonce ≡ n = ground arith in
            let ran : f ctx ≡ (ok tt, ctx) = rw (fits, same) refl in
            (
              returned ∙ ap (λ r. map_err with_key r.0) ran,
              left ∙ (ap (λ r. ok r.1.val) ran ∙ (λ i. ok (record a { nonce = eq i }))),
              λ differ. absurd (differ eq),
            )
        | inr differ ↦
            let ran : f ctx ≡ (ok tt, record ctx { val = record a { nonce = n }; dirty = true }) =
              rw (fits, differ) refl in
            (
              returned ∙ ap (λ r. map_err with_key r.0) ran,
              left ∙ ap (λ r. ok r.1.val) ran,
              λ _. flagged (ap (λ r. r.1.dirty) ran),
            )
      ]

module _ {D : Type 0} (db : Database D) (env : Env) (debug : Error → String)
    (su256 : Balances) where
  -- Where an account is read and the sum of its balance and a value is b, `add_balance` succeeds,
  -- and the account is dirty and has the balance b and its other fields as before.
  pub add_balance-account :
      (address : Bytes) (val b : ℕ) (st : ZkTrieState D) (a : ZkStateAccount)
      → account_of db env debug address st ≡ ok a
      → su256.add a.balance val ≡ some b
      → let after = add_balance db env debug su256 address val st in
        (after.0 ≡ ok tt)
        × (account_of db env debug address after.1 ≡ ok (record a { balance = b }))
        × (is_dirty address after.1.acc_cache ≡ true)
  unfolding add_balance
  add_balance-account address val b st a h sum =
      change_balance-account db env debug (λ x. su256.add x val) address b st a h sum

  -- Where subtraction undoes addition on the balance of an account that is read, to add a value and
  -- to subtract it again succeeds and leaves the account as it was.
  pub sub_balance-add_balance :
      (address : Bytes) (val b : ℕ) (st : ZkTrieState D) (a : ZkStateAccount)
      → account_of db env debug address st ≡ ok a
      → su256.add a.balance val ≡ some b
      → su256.sub b val ≡ some a.balance
      → let added = add_balance db env debug su256 address val st in
        let after = sub_balance db env debug su256 address val added.1 in
        (added.0 ≡ ok tt) × (after.0 ≡ ok tt) × (account_of db env debug address after.1 ≡ ok a)
  unfolding add_balance sub_balance
  sub_balance-add_balance address val b st a h sum undone =
      let (added, left, _) =
        change_balance-account db env debug (λ x. su256.add x val) address b st a h sum in
      let (subtracted, back, _) =
        change_balance-account db env debug (λ x. su256.sub x val) address a.balance
          (add_balance db env debug su256 address val st).1 (record a { balance = b }) left
          undone in
      (added, subtracted, back)

-- ===== src/Shomei/Laws.antt =====
-- Which proofs src/common/shomei/src/client.rs asks for.
use mathlib.Core.Path.{subst}
use linea_sgx_prover.Prelude.{
  ◌≡◌, refl, ap, ◌∙◌, List, [], ◌∷◌, Bool, true, false, not, ◌&&◌, ◌||◌, ◌==◌, length,
  if◌then◌else◌, Bool-cases, inl, inr,
}
use linea_sgx_prover.Prelude.Results.{ok, >>=-inv, ok_inj}
use linea_sgx_prover.Bytes.{Bytes}
use linea_sgx_prover.BtreeMap
use linea_sgx_prover.BtreeMap.{Map, bytes_ord, contains_key, keys}
use linea_sgx_prover.BtreeMap.Groups.{
  BtreeSet, any, same, has, touch, add_to, has-touch, has-add_to, contains_key-touch,
  contains_key-add_to,
}
use linea_sgx_prover.Zktrie.Trace
use linea_sgx_prover.Zktrie.Trace.{Trace, location}
use linea_sgx_prover.Shomei.{
  MerkleAccountProof, Rpc, group_keys, fetch_groups, requests, fetch_proof_by_traces,
}

-- The account that a trace is about.
abbrev pub owner : Trace → Bytes
owner t = if length (location t) == 0 then Trace.key t else location t

-- Whether a trace is about a slot of an account.
abbrev pub is_slot : Bytes → Bytes → Trace → Bool
is_slot account slot t =
    not (length (location t) == 0) && (same account (location t) && same slot (Trace.key t))

or_false : (a : Bool) → (a || false) ≡ a
or_false true = refl
or_false false = refl

or_swap : (a b c : Bool) → (a || (b || c)) ≡ ((b || a) || c)
or_swap true true c = refl
or_swap true false c = refl
or_swap false true c = refl
or_swap false false c = refl

has-group_keys :
    (ts : List Trace) (m : Map Bytes (BtreeSet Bytes)) (account slot : Bytes)
    → has (group_keys ts m) account slot ≡ (any (is_slot account slot) ts || has m account slot)
unfolding group_keys
has-group_keys [] m account slot = refl
has-group_keys (t ∷ ts) m account slot = elim (Bool-cases (length (location t) == 0)) [
  | inl empty ↦ rw empty (
      has-group_keys ts (touch (Trace.key t) m) account slot
      ∙ ap (λ b. any (is_slot account slot) ts || b) (has-touch (Trace.key t) m account slot))
  | inr full ↦ rw full (
      has-group_keys ts (add_to (location t) (Trace.key t) m) account slot
      ∙ ap (λ b. any (is_slot account slot) ts || b)
          (has-add_to (location t) (Trace.key t) m account slot)
      ∙ or_swap (any (is_slot account slot) ts)
          (same account (location t) && same slot (Trace.key t)) (has m account slot))
]

contains_key-group_keys :
    (ts : List Trace) (m : Map Bytes (BtreeSet Bytes)) (account : Bytes)
    → contains_key account (group_keys ts m)
      ≡ (any (λ t. same account (owner t)) ts || contains_key account m)
unfolding group_keys
contains_key-group_keys [] m account = refl
contains_key-group_keys (t ∷ ts) m account = elim (Bool-cases (length (location t) == 0)) [
  | inl empty ↦ rw empty (
      contains_key-group_keys ts (touch (Trace.key t) m) account
      ∙ ap (λ b. any (λ t. same account (owner t)) ts || b)
          (contains_key-touch (Trace.key t) m account)
      ∙ or_swap (any (λ t. same account (owner t)) ts) (same account (Trace.key t))
          (contains_key account m))
  | inr full ↦ rw full (
      contains_key-group_keys ts (add_to (location t) (Trace.key t) m) account
      ∙ ap (λ b. any (λ t. same account (owner t)) ts || b)
          (contains_key-add_to (location t) (Trace.key t) m account)
      ∙ or_swap (any (λ t. same account (owner t)) ts) (same account (location t))
          (contains_key account m))
]

module _ (r : Rpc) (blk : r.Selector) where
  -- The server proved the slots of each account at the block.
  pub data Answered : Map Bytes (BtreeSet Bytes) → List MerkleAccountProof → Type 0 where
    no_group : Answered [] []
    one_group :
        {acc : Bytes} {slots : BtreeSet Bytes} {groups : Map Bytes (BtreeSet Bytes)}
        {result : MerkleAccountProof} {out : List MerkleAccountProof}
        → r.get_proof acc (keys slots) blk ≡ ok result
        → Answered groups out
        → Answered ((acc, slots) ∷ groups) (result ∷ out)

  fetch_groups-Answered :
      (groups : Map Bytes (BtreeSet Bytes)) {out : List MerkleAccountProof}
      → fetch_groups r (requests r groups blk) ≡ ok out
      → Answered groups out
  unfolding fetch_groups requests
  fetch_groups-Answered [] h = subst (Answered []) (ok_inj {E = r.RpcError} h) no_group
  fetch_groups-Answered ((acc, slots) ∷ groups) h =
      let (result, proved, rest) = >>=-inv (r.get_proof acc (keys slots) blk) _ h in
      let (out, fetched, e) = >>=-inv (fetch_groups r (requests r groups blk)) _ rest in
      subst (Answered ((acc, slots) ∷ groups)) (ok_inj {E = r.RpcError} e)
        (one_group proved (fetch_groups-Answered groups fetched))

  -- If `fetch_proof_by_traces` succeeds, its proofs are the server's answers for some groups, in
  -- their order; the groups are of the accounts that the traces are about, and the slots of a
  -- group are those that the traces with this location are about.
  pub fetch_proof_by_traces-Answered :
      (traces : List Trace) {out : List MerkleAccountProof}
      → fetch_proof_by_traces r traces blk ≡ ok out
      → (groups : Map Bytes (BtreeSet Bytes)) × Answered groups out
        × ((account : Bytes)
            → contains_key account groups ≡ any (λ t. same account (owner t)) traces)
        × ((account slot : Bytes) → has groups account slot ≡ any (is_slot account slot) traces)
  unfolding fetch_proof_by_traces has contains_key BtreeMap.get
  fetch_proof_by_traces-Answered traces h = (
    group_keys traces [],
    fetch_groups-Answered (group_keys traces []) h,
    λ account.
        contains_key-group_keys traces [] account
        ∙ or_false (any (λ t. same account (owner t)) traces),
    λ account slot.
        has-group_keys traces [] account slot ∙ or_false (any (is_slot account slot) traces),
  )

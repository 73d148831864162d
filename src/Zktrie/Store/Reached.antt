-- ===== src/Zktrie/Store/Reached.antt =====
-- The stores that `MemStore` of src/common/zktrie/src/storage.rs can become.
use mathlib.Core.Path.{subst}
use linea_sgx_prover.Prelude.{
  ℕ, zero, suc, ◌-◌, ◌≡◌, refl, sym, ap, ◌∙◌, inl, inr, Option, some, List, [], ◌∷◌, ◌++◌, ◌==◌,
  length, get_elem?, Option-cases,
}
use linea_sgx_prover.Prelude.Results.{Result, ok, expect, assert, >>=-inv, ok_inj}
use linea_sgx_prover.Bytes.{Bytes}
use linea_sgx_prover.BtreeMap
use linea_sgx_prover.BtreeMap.{Map, bytes_ord}
use linea_sgx_prover.EthTypes.{Sh256}
use linea_sgx_prover.Zktrie.Types.{Env, Node, Error, zero_hash, zk_trie_depth}
use linea_sgx_prover.Zktrie.Path.{get_leaf_path}
use linea_sgx_prover.Zktrie.Node.{
  new, value_hash, branch_node, grow_empty, init_world_state, empty_leaf_node, parse_leaf,
  parse_branch,
}
use linea_sgx_prover.Zktrie.Trace.{Trace}
use linea_sgx_prover.Zktrie.Sparse.{SpareMerkleTrie}
use linea_sgx_prover.Zktrie.Trie
use linea_sgx_prover.Zktrie.Trie.Writes.{
  AreWritesKept, empty-Keeps, put-Keeps_writes, remove-Keeps_writes,
}
use linea_sgx_prover.Zktrie.Store.Instance.{prefix_db}
use linea_sgx_prover.Zktrie.Store.{
  empty_store, MemStore, from_traces, add_codes, fold_proof, add_proof, get_node, update_node,
  update_index, remove_index,
}
use linea_sgx_prover.Zktrie.Store.Ranges.{accept-Accepted}
use linea_sgx_prover.Zktrie.Store.Authentic.{
  HoldsAuthentic, new-IsAuthentic, append-AllAuthentic, insert-HoldsAuthentic,
  branch_node-IsAuthentic, empty-IsAuthentic,
}
use linea_sgx_prover.Zktrie.Store.Contents.{
  from_traces-HoldsAuthentic, fold_proof-AllAuthentic, insert_nodes-HoldsAuthentic,
}

module _ (env : Env) where
  accepted-HoldsAuthentic :
      (prefix leaf_index : ℕ) (hkey : Sh256) (value : Option Bytes) (siblings : List Bytes)
      (s : MemStore) {root_hash : Sh256} {s' : MemStore}
      → HoldsAuthentic env s.nodes
      → add_proof env prefix leaf_index hkey value siblings s ≡ ok (root_hash, s')
      → HoldsAuthentic env s'.nodes
  unfolding add_proof
  accepted-HoldsAuthentic prefix leaf_index hkey value siblings s known h =
      let (path, located, h1) = >>=-inv (get_leaf_path {E = Error} leaf_index) _ h in
      let (same_size, _, h2) = >>=-inv (assert {E = Error} (length siblings == length path)) _ h1 in
      let (root_bytes, at_0, h3) = >>=-inv (expect {E = Error} (get_elem? siblings 0)) _ h2 in
      let (root_raw, parsed, h4) = >>=-inv (parse_branch env root_bytes) _ h3 in
      let (root, made, h5) = >>=-inv (new env {E = Error} root_raw) _ h4 in
      let (leaf_value, at_end, h6) =
        >>=-inv (expect {E = Error} (get_elem? siblings (length siblings - 1))) _ h5 in
      let (marker, marked, h7) =
        >>=-inv (expect {E = Error} (get_elem? path (length path - 1))) _ h6 in
      let (leaf', leaf_made, h8) =
        >>=-inv (new env {E = Error} (parse_leaf (marker ∷ []) leaf_value)) _ h7 in
      let (folded, climbed, accepted) =
        >>=-inv
          (fold_proof env (length siblings - 2) (length siblings - 2) marker path siblings
            leaf'.hash)
          _ h8 in
      let a = accept-Accepted env prefix leaf_index hkey value root folded s accepted in
      subst (HoldsAuthentic env) (sym a.noded) (
        insert_nodes-HoldsAuthentic env (folded.1 ++ root ∷ []) s.nodes
          (append-AllAuthentic env folded.1 (root ∷ [])
            (fold_proof-AllAuthentic env (length siblings - 2) (length siblings - 2) marker path
              siblings leaf'.hash climbed)
            (new-IsAuthentic env root_raw made, tt))
          known)

  add_codes-nodes : (codes : List Bytes) (s : MemStore) → (add_codes env codes s).nodes ≡ s.nodes
  unfolding add_codes
  add_codes-nodes [] s = refl
  add_codes-nodes (code ∷ codes) s = add_codes-nodes codes _

  grow_empty-HoldsAuthentic :
      (n : ℕ) (node : Node) (m : Map Sh256 Node) {r : Node × Map Sh256 Node}
      → HoldsAuthentic env m
      → grow_empty env {E = Error} n node m ≡ ok r
      → HoldsAuthentic env r.1
  unfolding grow_empty
  grow_empty-HoldsAuthentic zero node m known h =
      subst (λ r. HoldsAuthentic env r.1) (ok_inj {E = Error} h) known
  grow_empty-HoldsAuthentic (suc n) node m known h =
      let (up, made, rest) = >>=-inv (branch_node env {E = Error} node.hash node.hash) _ h in
      grow_empty-HoldsAuthentic n up (BtreeMap.insert up.hash up m)
        (insert-HoldsAuthentic env up m (branch_node-IsAuthentic env node.hash node.hash made)
          known)
        rest

  init_world_state-HoldsAuthentic :
      {r : Node × Map Sh256 Node} → init_world_state env {E = Error} ≡ ok r → HoldsAuthentic env r.1
  unfolding init_world_state
  init_world_state-HoldsAuthentic h =
      let first = BtreeMap.insert zero_hash empty_leaf_node [] in
      let start =
        insert-HoldsAuthentic env empty_leaf_node [] (empty-IsAuthentic env)
          (unfold BtreeMap.get in λ k n found. absurd (cc)) in
      let (grown, made, rest) =
        >>=-inv (grow_empty env {E = Error} zk_trie_depth empty_leaf_node first) _ h in
      let (root, top, e) = >>=-inv (branch_node env {E = Error} zero_hash grown.0.hash) _ rest in
      subst (λ r. HoldsAuthentic env r.1) (ok_inj {E = Error} e)
        (insert-HoldsAuthentic env root grown.1
          (branch_node-IsAuthentic env zero_hash grown.0.hash top)
          (grow_empty-HoldsAuthentic zk_trie_depth empty_leaf_node first start made))

  -- The writes of a trie keep the nodes authentic.
  authentic-AreWritesKept :
      (prefix : ℕ) → AreWritesKept (prefix_db env prefix) env (λ s. HoldsAuthentic env s.nodes)
  unfolding update_node update_index remove_index
  authentic-AreWritesKept prefix = record {
    added = λ s n known made.
        insert-HoldsAuthentic env n s.nodes (new-IsAuthentic env n.raw made) known;
    updated = λ s k v known. known;
    removed = λ s k known. known;
  }

  -- A store that comes from traces, or from none, by the empty trie, proofs, codes, and the calls
  -- of a trie, whether they succeed or fail.
  pub data Reached : MemStore → Type 0 where
    fresh : Reached empty_store
    traced : (ts : List Trace) {s : MemStore} → from_traces env ts ≡ ok s → Reached s
    coded : (codes : List Bytes) (s : MemStore) → Reached s → Reached (add_codes env codes s)
    proved :
        (prefix leaf_index : ℕ) (hkey : Sh256) (value : Option Bytes) (siblings : List Bytes)
        (s : MemStore) (root_hash : Sh256) {s' : MemStore}
        → Reached s
        → add_proof env prefix leaf_index hkey value siblings s ≡ ok (root_hash, s')
        → Reached s'
    emptied :
        (prefix : ℕ) (s : MemStore)
        → Reached s
        → Reached (Trie.empty (prefix_db env prefix) env s).1.1
    put_key :
        (prefix : ℕ) (t : SpareMerkleTrie) (key value : Bytes) (s : MemStore)
        → Reached s
        → Reached (Trie.put (prefix_db env prefix) env key value (t, s)).1.1
    removed_key :
        (prefix : ℕ) (t : SpareMerkleTrie) (key : Bytes) (s : MemStore)
        → Reached s
        → Reached (Trie.remove (prefix_db env prefix) env key (t, s)).1.1

  Reached-HoldsAuthentic : {s : MemStore} → Reached s → HoldsAuthentic env s.nodes
  unfolding BtreeMap.get
  Reached-HoldsAuthentic fresh = λ h n found. absurd (cc)
  Reached-HoldsAuthentic (traced ts made) = from_traces-HoldsAuthentic env ts made
  Reached-HoldsAuthentic (coded codes s r) =
      subst (HoldsAuthentic env) (sym (add_codes-nodes codes s)) (Reached-HoldsAuthentic r)
  Reached-HoldsAuthentic (proved prefix leaf_index hkey value siblings s root_hash r accepted) =
      accepted-HoldsAuthentic prefix leaf_index hkey value siblings s (Reached-HoldsAuthentic r)
        accepted
  Reached-HoldsAuthentic (emptied prefix s r) =
      empty-Keeps (prefix_db env prefix) env (λ s. HoldsAuthentic env s.nodes)
        (authentic-AreWritesKept prefix) s (Reached-HoldsAuthentic r)
  Reached-HoldsAuthentic (put_key prefix t key value s r) =
      put-Keeps_writes (prefix_db env prefix) env (λ s. HoldsAuthentic env s.nodes)
        (authentic-AreWritesKept prefix) key value (t, s) (Reached-HoldsAuthentic r)
  Reached-HoldsAuthentic (removed_key prefix t key s r) =
      remove-Keeps_writes (prefix_db env prefix) env (λ s. HoldsAuthentic env s.nodes)
        (authentic-AreWritesKept prefix) key (t, s) (Reached-HoldsAuthentic r)

  -- In every store that comes from traces, or from none, by proofs, codes, the empty trie and the
  -- `put` and `remove` of any trie, be they successful or not, a node that `get_node` finds has the
  -- hash that was asked for, and this is the hash of its bytes.
  pub get_node-Reached :
      {s : MemStore} (h : Sh256) {n : Node}
      → Reached s
      → get_node env s h ≡ ok (some n)
      → (n.hash ≡ h) × (value_hash env {E = Error} n.raw ≡ ok n.hash)
  unfolding get_node
  get_node-Reached {s} h {n} r found =
      let (world, made, rest) = >>=-inv (init_world_state env {E = Error}) _ found in
      elim (Option-cases (BtreeMap.get h world.1)) [
        | inr (m, held) ↦
            let e : ◌≡◌ {A = Result Error (Option Node)} (ok (some m)) (ok (some n)) =
              rw held at rest in
            let same : m ≡ n = cc in init_world_state-HoldsAuthentic made h n (held ∙ ap some same)
        | inl missing ↦
            let e : ◌≡◌ {A = Result Error (Option Node)} (ok (BtreeMap.get h s.nodes))
                (ok (some n)) =
              rw missing at rest in
            Reached-HoldsAuthentic r h n (ok_inj {E = Error} e)
      ]

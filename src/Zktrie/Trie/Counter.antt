-- ===== src/Zktrie/Trie/Counter.antt =====
-- The counter of free leaves of src/common/zktrie/src/trie.rs, in the top node of the trie.
use linea_sgx_prover.Prelude.{
  ℕ, ◌+◌, ◌^◌, ◌<◌, ◌≡◌, refl, ap, ◌∙◌, inl, inr, some, ltb, true, arith,
}
use linea_sgx_prover.Prelude.Results.{ok}
use linea_sgx_prover.Bytes.Endian.{to_be}
use linea_sgx_prover.EthTypes.{Sh256}
use linea_sgx_prover.Zktrie.Types.{Env, BranchNode, Node, branch, Error}
use linea_sgx_prover.Zktrie.Node.{as_branch, top_node, branch_node}
use linea_sgx_prover.Zktrie.Path.{parse_node_index}
use linea_sgx_prover.Zktrie.Database.{Database, IsLawful}
use linea_sgx_prover.Zktrie.Sparse
use linea_sgx_prover.Zktrie.Sparse.{SpareMerkleTrie, root_node, root_branch, set_next_free_node}
use linea_sgx_prover.Zktrie.Sparse.Tree.Reads.{new-raw}
use linea_sgx_prover.Zktrie.Sparse.Refine.Calls.{db_add-lem}
use linea_sgx_prover.Zktrie.Trie.{
  next_free_node, sub_root_hash, increment_next_free_leaf_node_index,
}

parse-to_be : (E : Type 0) (i : ℕ) → i < 2 ^ 64 → parse_node_index {E = E} (to_be 32 i) ≡ ok i
unfolding parse_node_index to_be
parse-to_be E i h = ap ok (omega arith)

module _ {D : Type 0} (db : Database D) (law : IsLawful db) (env : Env) where
  -- The trie has a top node with this counter and this root below.
  abbrev pub HasTop : SpareMerkleTrie × D → BranchNode → Type 0
  HasTop ts b = root_branch db ts.0 ts.1 ≡ ok b

  top_node-raw :
      (n : ℕ) (sub : Sh256) {root : Node}
      → top_node env {E = Error} n sub ≡ ok root
      → root.raw ≡ branch (record { left = env.eth.to_big_endian n; right = sub })
  unfolding top_node branch_node
  top_node-raw n sub h =
      new-raw env (branch (record { left = env.eth.to_big_endian n; right = sub })) h

  -- A top node that was written is read.
  written_top :
      (s : D) (root : Node) (b : BranchNode)
      → root.raw ≡ branch b
      → ((m : Node) → db.get_node s root.hash ≡ ok (some m) → m ≡ root)
      → HasTop (record { root_hash = root.hash }, (db.update_node root.hash root s).1) b
  unfolding root_branch root_node as_branch
  written_top s root b raw fresh =
      let held : db.get_node (db.update_node root.hash root s).1 root.hash ≡ ok (some root) =
        elim (law.get-update_self root.hash root s) [
          | inl e ↦ e
          | inr (m, before, after) ↦ after ∙ ap (λ n. ok (some n)) (fresh m before)
        ] in
      rw (root_branch, root_node, held, raw) refl

  set_next_free_node-ok :
      (free : ℕ) (ts : SpareMerkleTrie × D) (b : BranchNode) {root : Node}
      → HasTop ts b
      → top_node env {E = Error} free b.right ≡ ok root
      → set_next_free_node db env free ts
        ≡ (ok tt, (record { root_hash = root.hash }, (db.update_node root.hash root ts.1).1))
  unfolding set_next_free_node
  set_next_free_node-ok free ts b {root} top made =
      rw (set_next_free_node, top, made, db_add-lem db law env root ts.1) refl

  pub parse-counter :
      (n : ℕ) → n < 2 ^ 64 → parse_node_index {E = Error} (env.eth.to_big_endian n) ≡ ok n
  parse-counter n fits =
      let small : n < 2 ^ 256 = omega arith in
      rw (env.eth.to_big_endian_lem n small) (parse-to_be Error n fits)

  pub increment-ok :
      (ts : SpareMerkleTrie × D) (n : ℕ) (b : BranchNode) {root : Node}
      → HasTop ts b
      → next_free_node db env ts ≡ ok n
      → n + 1 < 2 ^ 64
      → top_node env {E = Error} (n + 1) b.right ≡ ok root
      → increment_next_free_leaf_node_index db env ts
        ≡ (ok (n + 1), (record { root_hash = root.hash }, (db.update_node root.hash root ts.1).1))
  unfolding increment_next_free_leaf_node_index
  increment-ok ts n b {root} top counter fits made =
      let less : ltb (n + 1) (2 ^ 64) ≡ true = ground arith in
      let set = set_next_free_node-ok (n + 1) ts b top made in
      rw (increment_next_free_leaf_node_index, counter, less, set) refl

  -- If the trie has a top node, its counter is `n` with `n + 1` below 2^64, the new top node is made
  -- and its hash is that of no other node in the database, then incrementing gives `n + 1`, the
  -- counter that is read afterwards is `n + 1`, and the root below it is as before.
  pub next_free_node-increment :
      (ts : SpareMerkleTrie × D) (n : ℕ) (b : BranchNode) {root : Node}
      → HasTop ts b
      → next_free_node db env ts ≡ ok n
      → n + 1 < 2 ^ 64
      → top_node env {E = Error} (n + 1) b.right ≡ ok root
      → ((m : Node) → db.get_node ts.1 root.hash ≡ ok (some m) → m ≡ root)
      → (after : SpareMerkleTrie × D) × (increment_next_free_leaf_node_index db env ts
          ≡ (ok (n + 1), after))
        × (next_free_node db env after ≡ ok (n + 1))
        × (sub_root_hash db env after ≡ sub_root_hash db env ts)
  unfolding next_free_node sub_root_hash Sparse.next_free_node Sparse.sub_root_hash
  next_free_node-increment ts n b {root} top counter fits made fresh =
      let after : SpareMerkleTrie × D =
        (record { root_hash = root.hash }, (db.update_node root.hash root ts.1).1) in
      let new_top =
        written_top ts.1 root (record { left = env.eth.to_big_endian (n + 1); right = b.right })
          (top_node-raw (n + 1) b.right made) fresh in
      (
        after,
        increment-ok ts n b top counter fits made,
        rw (next_free_node, new_top) (parse-counter (n + 1) fits),
        rw (sub_root_hash, new_top, top) refl,
      )

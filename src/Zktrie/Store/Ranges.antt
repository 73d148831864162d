-- ===== src/Zktrie/Store/Ranges.antt =====
-- What the store of src/common/zktrie/src/storage.rs knows after a proof was added.
use mathlib.Core.Path.{subst}
use linea_sgx_prover.Prelude.{
  ℕ, ◌-◌, ◌≡◌, refl, sym, ap, ◌∙◌, ◌⊎◌, inl, inr, Option-cases, Option, some, List, [], ◌∷◌, ◌++◌,
  Bool-cases, arith, get_elem?, length, ◌==◌,
}
use linea_sgx_prover.Prelude.Results.{
  Result, ok, err, panic, ok_inj, >>=-inv, expect, expect-inv, assert,
}
use linea_sgx_prover.Bytes.{Bytes, bytes_eq, eq_of_bytes_eq}
use linea_sgx_prover.BtreeMap
use linea_sgx_prover.BtreeMap.{Map, bytes_ord, slot_ord, get-insert_self, get-insert_ne}
use linea_sgx_prover.EthTypes.{Sh256}
use linea_sgx_prover.Zktrie.Types.{Env, Node, Error, KeyRange, BranchNode, invalid_proof}
use linea_sgx_prover.Zktrie.Path.{get_leaf_path}
use linea_sgx_prover.Zktrie.Node.{as_branch, parse_branch, parse_leaf, new}
use linea_sgx_prover.Zktrie.Store.{
  MemStore, level, or_range, insert_nodes, fold_proof, accept, add_proof, get_nearest_keys,
}

module _ (env : Env) where
  -- What a proof that was accepted leaves behind, from its root node and the nodes on its way.
  pub record Accepted (prefix leaf_index : ℕ) (hkey : Sh256) (value : Option Bytes) (s : MemStore)
      (root : Node) (folded : Sh256 × List Node) (root_hash : Sh256) (s' : MemStore) : Type 0 where
    pub b : BranchNode
    pub range : KeyRange
    pub named : root.hash ≡ root_hash
    pub is_branch : as_branch root.raw ≡ some b
    pub top : folded.0 ≡ b.right
    pub ranged :
        or_range (BtreeMap.get (prefix, hkey) (level root.hash s.index)) leaf_index value ≡ ok range
    pub indexed :
        s'.index
        ≡ BtreeMap.insert root.hash
            (BtreeMap.insert (prefix, hkey) range (level root.hash s.index))
            s.index
    pub noded : s'.nodes ≡ insert_nodes env (folded.1 ++ root ∷ []) s.nodes

  ends :
      (a b : Sh256 × MemStore)
      → ◌≡◌ {A = Result Error (Sh256 × MemStore)} (ok a) (ok b)
      → (a.0 ≡ b.0) × (a.1 ≡ b.1)
  ends (t, l) (u, m) e = (cc, cc)

  pub accept-Accepted :
      (prefix leaf_index : ℕ) (hkey : Sh256) (value : Option Bytes) (root : Node)
      (folded : Sh256 × List Node) (s : MemStore) {root_hash : Sh256} {s' : MemStore}
      → accept env prefix leaf_index hkey value root folded s ≡ ok (root_hash, s')
      → Accepted prefix leaf_index hkey value s root folded root_hash s'
  unfolding accept
  accept-Accepted prefix leaf_index hkey value root folded s {root_hash} {s'} h =
      let (b, branched, h1) = >>=-inv (expect (as_branch root.raw)) _ h in
      elim (Bool-cases (bytes_eq folded.0 b.right)) [
        | inr other ↦
            let e : ◌≡◌ {A = Result Error (Sh256 × MemStore)} (err invalid_proof)
                (ok (root_hash, s')) =
              rw other at h1 in
            absurd (cc)
        | inl same ↦
            let h2 = rw same at h1 in
            let (range, ranged, kept) =
              >>=-inv
                (or_range (BtreeMap.get (prefix, hkey) (level root.hash s.index)) leaf_index value)
                _ h2 in
            let pair = ends _ _ kept in
            record {
              b = b;
              range = range;
              named = pair.0;
              is_branch = expect-inv (as_branch root.raw) branched;
              top = eq_of_bytes_eq folded.0 b.right same;
              ranged = ranged;
              indexed = ap (λ t. t.index) (sym pair.1);
              noded = ap (λ t. t.nodes) (sym pair.1);
            }
      ]

  insert_nodes-append :
      (ns : List Node) (n : Node) (m : Map Sh256 Node)
      → insert_nodes env (ns ++ n ∷ []) m ≡ BtreeMap.insert n.hash n (insert_nodes env ns m)
  unfolding insert_nodes
  insert_nodes-append [] n m = refl
  insert_nodes-append (x ∷ ns) n m = insert_nodes-append ns n (BtreeMap.insert x.hash x m)

  -- The range that the store has for a key after a proof, by what it had before.
  abbrev pub Kept : ℕ → ℕ → Sh256 → Option Bytes → MemStore → Sh256 → KeyRange → Type 0
  Kept prefix leaf_index hkey value s root_hash range =
      (get_nearest_keys prefix s root_hash hkey ≡ ok range)
      ⊎ ((v : Bytes) × (get_nearest_keys prefix s root_hash hkey ≡ panic)
          × (value ≡ some v)
          × (range ≡ record {
            left_index = 0;
            center = some (record { leaf_index = leaf_index; leaf_value = v });
            right_index = 0;
          }))

  -- What `get_nearest_keys` gives, by the level of the root.
  nearest-level :
      (prefix : ℕ) (s : MemStore) (root_hash hkey : Sh256)
      → get_nearest_keys prefix s root_hash hkey
        ≡ expect (BtreeMap.get (prefix, hkey) (level root_hash s.index))
  unfolding get_nearest_keys level BtreeMap.get
  nearest-level prefix s root_hash hkey = elim (Option-cases (BtreeMap.get root_hash s.index)) [
    | inl gone ↦ rw (get_nearest_keys, level, gone) refl
    | inr (m, there) ↦ rw (get_nearest_keys, level, there) refl
  ]

  or_range-Kept :
      (prefix leaf_index : ℕ) (hkey : Sh256) (value : Option Bytes) (s : MemStore)
      (root_hash : Sh256) {range : KeyRange}
      → or_range (BtreeMap.get (prefix, hkey) (level root_hash s.index)) leaf_index value ≡ ok range
      → Kept prefix leaf_index hkey value s root_hash range
  unfolding or_range
  or_range-Kept prefix leaf_index hkey value s root_hash {range} h =
      let before = nearest-level prefix s root_hash hkey in
      elim (Option-cases (BtreeMap.get (prefix, hkey) (level root_hash s.index))) [
        | inr (r, there) ↦
            let same : ◌≡◌ {A = Result Error KeyRange} (ok r) (ok range) = rw there at h in
            inl (before ∙ ap expect there ∙ same)
        | inl gone ↦
            let made = rw gone at h in
            let (v, given, is_range) = >>=-inv (expect {E = Error} value) _ made in
            inr (
              v,
              before ∙ ap expect gone,
              expect-inv value given,
              sym (ok_inj {E = Error} is_range),
            )
      ]

  accepted :
      (prefix leaf_index : ℕ) (hkey : Sh256) (value : Option Bytes) (s : MemStore) (root : Node)
      (folded : Sh256 × List Node) {root_hash : Sh256} {s' : MemStore}
      → Accepted prefix leaf_index hkey value s root folded root_hash s'
      → (root : Node) × ((b : BranchNode) × ((range : KeyRange) × BtreeMap.get root_hash s'.nodes
              ≡ some root
            × as_branch root.raw ≡ some b
            × get_nearest_keys prefix s' root_hash hkey ≡ ok range
            × Kept prefix leaf_index hkey value s root_hash range))
  unfolding get_nearest_keys
  accepted prefix leaf_index hkey value s root folded {root_hash} {s'} a =
      let ranges = BtreeMap.insert (prefix, hkey) a.range (level root.hash s.index) in
      let stored : BtreeMap.get root.hash s'.nodes ≡ some root =
        ap (BtreeMap.get root.hash) (a.noded ∙ insert_nodes-append folded.1 root s.nodes)
        ∙ get-insert_self root.hash root (insert_nodes env folded.1 s.nodes) in
      let outer : BtreeMap.get root.hash s'.index ≡ some ranges =
        ap (BtreeMap.get root.hash) a.indexed ∙ get-insert_self root.hash ranges s.index in
      let inner : BtreeMap.get (prefix, hkey) ranges ≡ some a.range =
        get-insert_self (prefix, hkey) a.range (level root.hash s.index) in
      let found : get_nearest_keys prefix s' root.hash hkey ≡ ok a.range = ground arith in
      (
        root,
        (
          a.b,
          (
            a.range,
            (subst (λ r. BtreeMap.get r s'.nodes ≡ some root) a.named stored),
            a.is_branch,
            (subst (λ r. get_nearest_keys prefix s' r hkey ≡ ok a.range) a.named found),
            (subst (λ r. Kept prefix leaf_index hkey value s r a.range) a.named
                (or_range-Kept prefix leaf_index hkey value s root.hash a.ranged)),
          ),
        ),
      )

  -- Where `add_proof` accepts a proof, it returns the hash of a root node that the store has
  -- afterwards under that hash and that is a branch, and `get_nearest_keys` finds a range for the
  -- key under that root. Either `get_nearest_keys` found this same range before, or it found none,
  -- the proof has a value, and the range has the leaf of the proof with this value in its middle and
  -- the index 0 on both sides.
  pub get_nearest_keys-add_proof :
      (prefix leaf_index : ℕ) (hkey : Sh256) (value : Option Bytes) (siblings : List Bytes)
      (s : MemStore) {root_hash : Sh256} {s' : MemStore}
      → add_proof env prefix leaf_index hkey value siblings s ≡ ok (root_hash, s')
      → (root : Node) × ((b : BranchNode) × ((range : KeyRange) × BtreeMap.get root_hash s'.nodes
              ≡ some root
            × as_branch root.raw ≡ some b
            × get_nearest_keys prefix s' root_hash hkey ≡ ok range
            × ((get_nearest_keys prefix s root_hash hkey ≡ ok range)
                ⊎ ((v : Bytes) × (get_nearest_keys prefix s root_hash hkey ≡ panic)
                    × (value ≡ some v)
                    × (range ≡ record {
                      left_index = 0;
                      center = some (record { leaf_index = leaf_index; leaf_value = v });
                      right_index = 0;
                    })))))
  unfolding add_proof get_nearest_keys
  get_nearest_keys-add_proof prefix leaf_index hkey value siblings s {root_hash} {s'} h =
      let (trie_path, _, h1) = >>=-inv (get_leaf_path leaf_index) _ h in
      let (_, _, h2) = >>=-inv (assert (length siblings == length trie_path)) _ h1 in
      let (root_bytes, _, h3) = >>=-inv (expect (get_elem? siblings 0)) _ h2 in
      let (root_raw, _, h4) = >>=-inv (parse_branch env root_bytes) _ h3 in
      let (root, _, h5) = >>=-inv (new env root_raw) _ h4 in
      let (leaf_value, _, h6) = >>=-inv (expect (get_elem? siblings (length siblings - 1))) _ h5 in
      let (marker, _, h7) = >>=-inv (expect (get_elem? trie_path (length trie_path - 1))) _ h6 in
      let (leaf, _, h8) = >>=-inv (new env (parse_leaf (marker ∷ []) leaf_value)) _ h7 in
      let (folded, _, h9) =
        >>=-inv
          (fold_proof env (length siblings - 2) (length siblings - 2) marker trie_path siblings
            leaf.hash)
          _ h8 in
      accepted prefix leaf_index hkey value s root folded
        (accept-Accepted prefix leaf_index hkey value root folded s h9)

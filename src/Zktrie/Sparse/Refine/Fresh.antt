-- ===== src/Zktrie/Sparse/Refine/Fresh.antt =====
-- Writes that replace no other node in the database.
use linea_sgx_prover.Prelude.{
  ℕ, some, List, [], ◌∷◌, ◌++◌, ◌≡◌, ◌≢◌, ◌⊎◌, inl, inr, ap, sym, ◌∙◌, true, Bool-cases,
}
use linea_sgx_prover.Prelude.Results.{ok}
use linea_sgx_prover.Bytes.{Bytes, bytes_eq, eq_of_bytes_eq, bytes_eq_refl}
use linea_sgx_prover.EthTypes.{Sh256}
use linea_sgx_prover.Zktrie.Types.{NodeValue, branch, leaf, empty_leaf, next_free, Node}
use linea_sgx_prover.Zktrie.Node.{value}
use linea_sgx_prover.Zktrie.Database.{Database, IsLawful}
use linea_sgx_prover.Zktrie.Sparse.Tree.{Tree, fork, node_of, IsTip, path_nodes}
use linea_sgx_prover.Zktrie.Sparse.Refine.Calls.{write_all}

pub value-IsTip : (raw : NodeValue) {v : Bytes} → value raw ≡ some v → IsTip raw
unfolding value
value-IsTip (branch b) h = absurd (cc)
value-IsTip (leaf l) h = tt
value-IsTip empty_leaf h = tt
value-IsTip (next_free l) h = tt

pub hash-cases : (a b : Sh256) → (a ≡ b) ⊎ (a ≢ b)
hash-cases a b = elim (Bool-cases (bytes_eq a b)) [
  | inl same ↦ inl (eq_of_bytes_eq a b same)
  | inr other ↦ inr (λ e. let o : bytes_eq a b ≡ true = rw (← e) (bytes_eq_refl a) in cc)
]

module _ {D : Type 0} (db : Database D) where
  -- At the time of each write, the database holds nothing or the same node under the hash: the
  -- writes show no collision of the hash.
  abbrev pub IsFresh : List Node → D → Type 0
  IsFresh [] s = Unit
  IsFresh (n ∷ ns) s =
      ((m : Node) → db.get_node s n.hash ≡ ok (some m) → m ≡ n)
      × IsFresh ns (db.update_node n.hash n s).1

  -- Whatever can be read before can be read afterwards.
  abbrev pub Extends : D → D → Type 0
  Extends s s' =
      (h : Sh256) (m : Node) → db.get_node s h ≡ ok (some m) → db.get_node s' h ≡ ok (some m)

  module _ (law : IsLawful db) where
    pub write-holds :
        (n : Node) (s : D)
        → ((m : Node) → db.get_node s n.hash ≡ ok (some m) → m ≡ n)
        → db.get_node (db.update_node n.hash n s).1 n.hash ≡ ok (some n)
    write-holds n s fresh = elim (law.get-update_self n.hash n s) [
      | inl held ↦ held
      | inr (m, before, after) ↦ after ∙ ap (λ t. ok (some t)) (fresh m before)
    ]

    pub write-Extends :
        (n : Node) (s : D)
        → ((m : Node) → db.get_node s n.hash ≡ ok (some m) → m ≡ n)
        → Extends s (db.update_node n.hash n s).1
    write-Extends n s fresh h m held = elim (hash-cases h n.hash) [
      | inl same ↦
          let there : db.get_node s n.hash ≡ ok (some m) = rw (← same) held in
          rw same (write-holds n s fresh ∙ ap (λ t. ok (some t)) (sym (fresh m there)))
      | inr other ↦ rw (law.get-update_ne n.hash h n s other) held
    ]

    pub write_all-Extends : (ns : List Node) (s : D) → IsFresh ns s → Extends s (write_all db ns s)
    unfolding write_all
    write_all-Extends [] s fresh h m held = held
    write_all-Extends (n ∷ ns) s fresh h m held =
        write_all-Extends ns (db.update_node n.hash n s).1 fresh.1 h m
          (write-Extends n s fresh.0 h m held)

    pub IsFresh-append :
        (ns ms : List Node) (s : D)
        → IsFresh (ns ++ ms) s
        → IsFresh ns s × IsFresh ms (write_all db ns s)
    unfolding write_all
    IsFresh-append [] ms s fresh = (tt, fresh)
    IsFresh-append (n ∷ ns) ms s fresh =
        let (front, back) = IsFresh-append ns ms (db.update_node n.hash n s).1 fresh.1 in
        ((fresh.0, front), back)

    pub nodes_left :
        (b : ℕ) (rest : Bytes) (h : Sh256) (l r : Tree)
        → b ≡ 0
        → path_nodes (b ∷ rest) (fork h l r) ≡ path_nodes rest l ++ node_of (fork h l r) ∷ []
    unfolding path_nodes
    nodes_left b rest h l r e = rw e

    pub nodes_right :
        (b : ℕ) (rest : Bytes) (h : Sh256) (l r : Tree)
        → b ≡ 1
        → path_nodes (b ∷ rest) (fork h l r) ≡ path_nodes rest r ++ node_of (fork h l r) ∷ []
    unfolding path_nodes
    nodes_right b rest h l r e = rw e

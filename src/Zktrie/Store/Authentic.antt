-- ===== src/Zktrie/Store/Authentic.antt =====
-- The nodes that `MemStore` of src/common/zktrie/src/storage.rs holds, and the nodes of a trace.
use mathlib.Core.Path.{subst}
use linea_sgx_prover.Prelude.{
  ℕ, ◌≡◌, refl, sym, ap, ◌∙◌, inl, inr, Option, none, some, List, [], ◌∷◌, ◌++◌, ◌==◌, length,
  if◌then◌else◌, get_elem?, ◌-◌, Bool-cases,
}
use linea_sgx_prover.Prelude.Results.{ok, expect, >>=-inv, ok_inj}
use linea_sgx_prover.Bytes.{Bytes, bytes_eq, slice_from}
use linea_sgx_prover.BtreeMap
use linea_sgx_prover.BtreeMap.{Map, bytes_ord, get-insert_self, get-insert_ne}
use linea_sgx_prover.BtreeMap.Groups.{same-cases}
use linea_sgx_prover.EthTypes.{Sh256}
use linea_sgx_prover.Zktrie.Types.{
  Env, Node, NodeValue, branch, leaf, next_free, Error, leaf_type_next_free_node,
}
use linea_sgx_prover.Zktrie.Node.{new, value_hash, branch_node, leaf_node, empty_leaf_node}
use linea_sgx_prover.Zktrie.Opening.{LeafOpening}
use linea_sgx_prover.Zktrie.Opening
use linea_sgx_prover.Zktrie.Trace.{climb, bottom}

module _ (env : Env) where
  -- The hash of a node is that of its bytes.
  abbrev pub IsAuthentic : Node → Type 0
  IsAuthentic n = value_hash env {E = Error} n.raw ≡ ok n.hash

  abbrev pub AllAuthentic : List Node → Type 0
  AllAuthentic [] = Unit
  AllAuthentic (n ∷ ns) = IsAuthentic n × AllAuthentic ns

  -- Every node stands under its hash, which is that of its bytes.
  abbrev pub HoldsAuthentic : Map Sh256 Node → Type 0
  HoldsAuthentic m =
      (h : Sh256) (n : Node) → BtreeMap.get h m ≡ some n → (n.hash ≡ h) × IsAuthentic n

  pub new-IsAuthentic : (v : NodeValue) {n : Node} → new env {E = Error} v ≡ ok n → IsAuthentic n
  unfolding new
  new-IsAuthentic v {n} h =
      let (b, hashed, made) =
        >>=-inv (value_hash env {E = Error} v) (λ t. ok (record { raw = v; hash = t })) h in
      subst IsAuthentic (ok_inj {E = Error} made) hashed

  pub append-AllAuthentic :
      (ns ms : List Node) → AllAuthentic ns → AllAuthentic ms → AllAuthentic (ns ++ ms)
  append-AllAuthentic [] ms a b = b
  append-AllAuthentic (n ∷ ns) ms a b = (a.0, append-AllAuthentic ns ms a.1 b)

  pub insert-HoldsAuthentic :
      (n : Node) (m : Map Sh256 Node)
      → IsAuthentic n
      → HoldsAuthentic m
      → HoldsAuthentic (BtreeMap.insert n.hash n m)
  insert-HoldsAuthentic n m real known h k found = elim (same-cases h n.hash) [
    | inl (at, yes') ↦
        let e : some n ≡ some k =
          sym (get-insert_self n.hash n m)
          ∙ ap (λ i. BtreeMap.get i (BtreeMap.insert n.hash n m)) (sym at)
          ∙ found in
        let same_node : n ≡ k = cc in
        subst (λ x. (x.hash ≡ h) × IsAuthentic x) same_node (sym at, real)
    | inr (ne, no') ↦ known h k (sym (get-insert_ne n.hash h n m ne) ∙ found)
  ]

  leaf_node-IsAuthentic :
      (path v : Bytes) {n : Node} → leaf_node env {E = Error} path v ≡ ok n → IsAuthentic n
  unfolding leaf_node
  leaf_node-IsAuthentic path v h =
      new-IsAuthentic
        (if bytes_eq path (leaf_type_next_free_node ∷ [])
          then next_free (record { path = path; value = v })
          else leaf (record { path = path; value = v }))
        h

  pub branch_node-IsAuthentic :
      (l r : Sh256) {n : Node} → branch_node env {E = Error} l r ≡ ok n → IsAuthentic n
  unfolding branch_node
  branch_node-IsAuthentic l r h = new-IsAuthentic (branch (record { left = l; right = r })) h

  pub empty-IsAuthentic : IsAuthentic empty_leaf_node
  unfolding value_hash
  empty-IsAuthentic = refl

  pub climb-AllAuthentic :
      (path : Bytes) (siblings : List Sh256) (root : Node) {ns : List Node}
      → IsAuthentic root
      → climb env {E = Error} path siblings root ≡ ok ns
      → AllAuthentic ns
  unfolding climb
  climb-AllAuthentic path [] root real h = subst AllAuthentic (ok_inj {E = Error} h) (real, tt)
  climb-AllAuthentic path (sibling ∷ siblings) root real h =
      let (bit, at, h1) =
        >>=-inv (expect {E = Error} (get_elem? path (length (sibling ∷ siblings)))) _ h in
      let (up, made, h2) =
        >>=-inv
          (if bit == 0
            then branch_node env {E = Error} root.hash sibling
            else branch_node env sibling root.hash)
          _ h1 in
      let (rest, above, e) = >>=-inv (climb env {E = Error} path siblings up) _ h2 in
      subst AllAuthentic (ok_inj {E = Error} e)
        (real, climb-AllAuthentic path siblings up (either bit made) above)
    where
      either :
          (bit : ℕ) {up : Node}
          → (if bit == 0
              then branch_node env {E = Error} root.hash sibling
              else branch_node env sibling root.hash)
            ≡ ok up
          → IsAuthentic up
      either bit h = elim (Bool-cases (bit == 0)) [
        | inl left ↦ branch_node-IsAuthentic root.hash sibling (rw left at h)
        | inr right ↦ branch_node-IsAuthentic sibling root.hash (rw right at h)
      ]

  pub bottom-IsAuthentic :
      (path : Bytes) (o : Option LeafOpening) {n : Node}
      → bottom env {E = Error} path o ≡ ok n
      → IsAuthentic n
  unfolding bottom
  bottom-IsAuthentic path none h = subst IsAuthentic (ok_inj {E = Error} h) empty-IsAuthentic
  bottom-IsAuthentic path (some o) h =
      let (marker, cut, made) = >>=-inv (slice_from {E = Error} path (length path - 1)) _ h in
      leaf_node-IsAuthentic marker (Opening.to_bytes env.eth o) made

-- ===== src/Zktrie/Sparse/Refine/Calls.antt =====
-- How the recursive methods of src/common/zktrie/src/sparse_merkle_trie.rs end, one level at a time.
use linea_sgx_prover.Prelude.{ℕ, List, [], ◌∷◌, ◌++◌, ◌≡◌, ◌≢◌, refl, ap, ◌∙◌, arith}
use linea_sgx_prover.Prelude.Results
use linea_sgx_prover.Prelude.Results.{Result, Result-cases, ok, err, panic, >>=-inv}
use linea_sgx_prover.Prelude.Exec.{Exec, lift, continue, ◌>>=◌}
use linea_sgx_prover.EthTypes.{Sh256}
use linea_sgx_prover.Zktrie.Types.{
  Env, BranchNode, NodeValue, branch, leaf, empty_leaf, next_free, Node, Error,
}
use linea_sgx_prover.Zktrie.Node.{branch_node, new, new_replace}
use linea_sgx_prover.Zktrie.Database.{Database, IsLawful}
use linea_sgx_prover.Zktrie.Sparse.{db_add}
use linea_sgx_prover.Zktrie.Sparse.Tree.{Tree, tip, fork, tree_hash, node_of, new_fork}
use linea_sgx_prover.Zktrie.Sparse.Tree.Reads.{new-raw}

pub hash-node_of : (t : Tree) → (node_of t).hash ≡ tree_hash t
hash-node_of (tip n) = refl
hash-node_of (fork h l r) = refl

-- Making a node panics or succeeds.
new-ne-err : (env : Env) (v : NodeValue) (e : Error) → new env {E = Error} v ≢ err e
unfolding new
new-ne-err env empty_leaf e h = cc
new-ne-err env (branch b) e h = ground arith
new-ne-err env (leaf l) e h = ground arith
new-ne-err env (next_free l) e h = ground arith

module _ {D : Type 0} (db : Database D) where
  unfoldable pub write_all : List Node → D → D
  write_all [] s = s
  write_all (n ∷ ns) s = write_all ns (db.update_node n.hash n s).1

  pub write_all-append :
      (ns ms : List Node) (s : D) → write_all (ns ++ ms) s ≡ write_all ms (write_all ns s)
  unfolding write_all
  write_all-append [] ms s = refl
  write_all-append (n ∷ ns) ms s = write_all-append ns ms (db.update_node n.hash n s).1

  -- A call that ends as an update of the tree says: the written nodes are those that the update
  -- made, and an error has written nothing.
  abbrev pub Agrees : D → (Tree → List Node) → Result Error Tree → Result Error Node × D → Type 0
  Agrees s made (ok t) out = out ≡ (ok (node_of t), write_all (made t) s)
  Agrees s made (err e) out = out ≡ (err e, s)
  Agrees s made panic out = out.0 ≡ panic

  module _ (law : IsLawful db) (env : Env) where
    pub db_add-lem : (n : Node) (s : D) → db_add db n s ≡ (ok n, (db.update_node n.hash n s).1)
    unfolding db_add
    db_add-lem n s = λ i. (law.update_ok n.hash n s i, (db.update_node n.hash n s).1)

    -- The node above two subtrees, made and written.
    join_end :
        (m : Result Error Node) (l r : Tree) (made : Tree → List Node) (ns : List Node) (s : D)
        → ((n : Node)
            → m ≡ ok n
            → n.raw ≡ branch (record { left = tree_hash l; right = tree_hash r }))
        → ((e : Error) → m ≢ err e)
        → ((h : Sh256) → made (fork h l r) ≡ ns ++ node_of (fork h l r) ∷ [])
        → Agrees s made
            (Results.◌>>=◌ m (λ n. ok (fork n.hash l r)))
            (continue m (db_add db) (write_all ns s))
    unfolding write_all
    join_end (ok n) l r made ns s raw no_err nodes =
        let same : n ≡ node_of (fork n.hash l r) =
          λ i. record { raw = raw n refl i; hash = n.hash } in
        let written : write_all (made (fork n.hash l r)) s
            ≡ (db.update_node n.hash (node_of (fork n.hash l r)) (write_all ns s)).1 =
          ap (λ t. write_all t s) (nodes n.hash)
          ∙ write_all-append ns (node_of (fork n.hash l r) ∷ []) s in
        db_add-lem n (write_all ns s)
        ∙ rw written (λ i. (ok (same i), (db.update_node n.hash (same i) (write_all ns s)).1))
    join_end (err e) l r made ns s raw no_err nodes = absurd (no_err e refl)
    join_end panic l r made ns s raw no_err nodes = refl

    -- One level, after the recursive call on the child `b`.
    unfoldable pub level_end : BranchNode → ℕ → Exec D Error Node → D → Result Error Node × D
    level_end bn b below = do
      updated ← below
      up ← lift (new env (branch (new_replace bn b updated.hash)))
      db_add db up

    pub left_end :
        (below : Result Error Tree) (call : Exec D Error Node) (l r : Tree)
        (made above : Tree → List Node) (s : D)
        → ((h : Sh256) (l' : Tree) → above (fork h l' r) ≡ made l' ++ node_of (fork h l' r) ∷ [])
        → Agrees s made below (call s)
        → Agrees s above
            (Results.◌>>=◌ below (λ l'. new_fork env l' r))
            (level_end (record { left = tree_hash l; right = tree_hash r }) 0 call s)
    unfolding level_end new_fork new_replace branch_node
    left_end (ok l') call l r made above s nodes agrees =
        let b = branch (record { left = tree_hash l'; right = tree_hash r }) in
        rw (agrees, hash-node_of l')
          (join_end (new env b) l' r above (made l') s (λ n. new-raw env b) (new-ne-err env b)
            (λ h. nodes h l'))
    left_end (err e) call l r made above s nodes agrees = rw (agrees, level_end)
    left_end panic call l r made above s nodes agrees = rw (agrees, level_end)

    pub right_end :
        (below : Result Error Tree) (call : Exec D Error Node) (l r : Tree)
        (made above : Tree → List Node) (s : D)
        → ((h : Sh256) (r' : Tree) → above (fork h l r') ≡ made r' ++ node_of (fork h l r') ∷ [])
        → Agrees s made below (call s)
        → Agrees s above
            (Results.◌>>=◌ below (λ r'. new_fork env l r'))
            (level_end (record { left = tree_hash l; right = tree_hash r }) 1 call s)
    unfolding level_end new_fork new_replace branch_node
    right_end (ok r') call l r made above s nodes agrees =
        let b = branch (record { left = tree_hash l; right = tree_hash r' }) in
        rw (agrees, hash-node_of r')
          (join_end (new env b) l r' above (made r') s (λ n. new-raw env b) (new-ne-err env b)
            (λ h. nodes h r'))
    right_end (err e) call l r made above s nodes agrees = rw (agrees, level_end)
    right_end panic call l r made above s nodes agrees = rw (agrees, level_end)

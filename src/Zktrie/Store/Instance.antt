-- ===== src/Zktrie/Store/Instance.antt =====
-- `impl Database for PrefixDB` of src/common/zktrie/src/storage.rs, and its laws.
use linea_sgx_prover.Prelude.{ℕ, none, some, ◌≡◌, ◌≢◌, ◌⊎◌, inl, inr, refl, arith, Option-cases}
use linea_sgx_prover.Prelude.Results.{ok}
use linea_sgx_prover.BtreeMap
use linea_sgx_prover.BtreeMap.{Map, bytes_ord, get-insert_self, get-insert_ne}
use linea_sgx_prover.EthTypes.{Sh256}
use linea_sgx_prover.Zktrie.Types.{Env, Node, Error}
use linea_sgx_prover.Zktrie.Node.{init_world_state}
use linea_sgx_prover.Zktrie.Database.{Database, IsLawful}
use linea_sgx_prover.Zktrie.Trie.Present.{KeepsNodes}
use linea_sgx_prover.Zktrie.Trie.Unlink.{ForgetsNothing}
use linea_sgx_prover.Zktrie.Store.{
  MemStore, get_node, update_node, get_nearest_keys, update_index, remove_index, get_code,
}

-- A `PrefixDB` delegates to its store, with its prefix for the ranges of keys.
abbrev pub prefix_db : Env → ℕ → Database MemStore
prefix_db env prefix = record {
  get_node = get_node env;
  update_node = update_node;
  get_nearest_keys = get_nearest_keys prefix;
  update_index = update_index;
  remove_index = remove_index;
  get_code = get_code;
}

module _ (env : Env) (root : Node) (empty_nodes : Map Sh256 Node)
    (defined : init_world_state env {E = Error} ≡ ok (root, empty_nodes)) where
  -- Where the nodes of the empty trie can be hashed, the store behind a `PrefixDB` accepts every
  -- write of a node. Afterwards its hash reads as this node, whatever was there, if the empty trie
  -- has no node of that hash, and as the node of the empty trie if it has one. Any other hash reads
  -- as before.
  pub prefix_db-get_update :
      (prefix : ℕ) (h j : Sh256) (n : Node) (s : MemStore)
      → j ≢ h
      → ((prefix_db env prefix).update_node h n s).0 ≡ ok n
        × (((BtreeMap.get h empty_nodes ≡ none)
              × ((prefix_db env prefix).get_node ((prefix_db env prefix).update_node h n s).1 h
                  ≡ ok (some n)))
            ⊎ ((m : Node) × (BtreeMap.get h empty_nodes ≡ some m)
                × ((prefix_db env prefix).get_node ((prefix_db env prefix).update_node h n s).1 h
                    ≡ ok (some m))))
        × ((prefix_db env prefix).get_node ((prefix_db env prefix).update_node h n s).1 j
            ≡ (prefix_db env prefix).get_node s j)
  unfolding get_node update_node
  prefix_db-get_update prefix h j n s other = (
    refl,
    elim (Option-cases (BtreeMap.get h empty_nodes)) [
      | inl free ↦ inl (free, ground (arith, defined, get-insert_self h n s.nodes))
      | inr (m, fixed) ↦ inr (m, fixed, ground (arith, defined))
    ],
    ground (arith, defined, get-insert_ne h j n s.nodes other),
  )

  read_fixed :
      (h : Sh256) (s : MemStore) {m : Node}
      → BtreeMap.get h empty_nodes ≡ some m
      → get_node env s h ≡ ok (some m)
  unfolding get_node
  read_fixed h s fixed = ground (arith, defined)

  read_self :
      (h : Sh256) (n : Node) (s : MemStore)
      → (get_node env (update_node h n s).1 h ≡ ok (some n))
        ⊎ ((m : Node) × (get_node env s h ≡ ok (some m))
            × (get_node env (update_node h n s).1 h ≡ ok (some m)))
  unfolding get_node update_node
  read_self h n s = elim (Option-cases (BtreeMap.get h empty_nodes)) [
    | inl free ↦ inl (ground (arith, defined, get-insert_self h n s.nodes))
    | inr (m, fixed) ↦ inr (m, read_fixed h s fixed, read_fixed h (update_node h n s).1 fixed)
  ]

  read_other :
      (h j : Sh256) (n : Node) (s : MemStore)
      → j ≢ h
      → get_node env (update_node h n s).1 j ≡ get_node env s j
  unfolding get_node update_node
  read_other h j n s other = ground (arith, defined, get-insert_ne h j n s.nodes other)

  -- So it keeps the laws of `Database` that the tries rely on.
  pub prefix_db-IsLawful : (prefix : ℕ) → IsLawful (prefix_db env prefix)
  unfolding update_node
  prefix_db-IsLawful prefix = record {
    update_ok = λ h n s. refl;
    get-update_self = read_self;
    get-update_ne = read_other;
  }

-- Its index of keys is kept apart from the nodes.
pub prefix_db-KeepsNodes : (env : Env) (prefix : ℕ) → KeepsNodes (prefix_db env prefix)
unfolding get_node update_index
prefix_db-KeepsNodes env prefix k v s h = refl

pub prefix_db-ForgetsNothing : (env : Env) (prefix : ℕ) → ForgetsNothing (prefix_db env prefix) env
unfolding get_node remove_index
prefix_db-ForgetsNothing env prefix k s h = refl

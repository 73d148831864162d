-- ===== src/Tests/Present.antt =====
-- The theorem on the update of a present key at a concrete input: a trie whose only leaf has the
-- index 2.
use linea_sgx_prover.Prelude.{ℕ, some, [], ◌∷◌, ◌++◌, ◌≡◌, refl, replicate}
use linea_sgx_prover.Prelude.Results.{ok}
use linea_sgx_prover.Bytes.{Bytes}
use linea_sgx_prover.Bytes.Endian.{to_be, from_be}
use linea_sgx_prover.BtreeMap
use linea_sgx_prover.BtreeMap.{bytes_ord}
use linea_sgx_prover.EthTypes.{Sh256, big_endian_types, narrow, exactly_32}
use linea_sgx_prover.Zktrie.Types.{Node, Error, KeyRange, leaf, zero_hash}
use linea_sgx_prover.Zktrie.Node.{
  trie_hash, value, empty_leaf_node, branch_node, leaf_node, new, value_hash, to_bytes,
}
use linea_sgx_prover.Zktrie.Path.{get_leaf_path, write_bits, prefix_len}
use linea_sgx_prover.Zktrie.Opening.{LeafOpening, parse}
use linea_sgx_prover.Zktrie.Opening.Codec.{layout}
use linea_sgx_prover.Zktrie.Database.{Database, IsLawful}
use linea_sgx_prover.Zktrie.Sparse
use linea_sgx_prover.Zktrie.Sparse.{levels, get_from}
use linea_sgx_prover.Zktrie.Sparse.Tree.{
  Tree, tip, fork, node_of, tree_put, put_tip, new_tip, new_fork, path_nodes,
}
use linea_sgx_prover.Zktrie.Sparse.Refine.{Held}
use linea_sgx_prover.Zktrie.Sparse.Refine.Fresh.{IsFresh}
use linea_sgx_prover.Zktrie.Sparse.Laws.{rooted}
use linea_sgx_prover.Zktrie.Trie.{parse_node, put}
use linea_sgx_prover.Zktrie.Trie.Present.{KeepsNodes, entry, put-present}
use linea_sgx_prover.Tests.Toys.{digest, env, NodeMap, node_map, node_map-IsLawful}

abbrev key : Bytes
key = 5 ∷ []

abbrev nearest : KeyRange
nearest = record {
  left_index = 0;
  center = some (record { leaf_index = 2; leaf_value = 6 ∷ [] });
  right_index = 1;
}

-- The toy database, with this range around every key.
abbrev indexed : Database NodeMap
indexed = record node_map { get_nearest_keys = λ s root k. ok nearest }

indexed-IsLawful : IsLawful indexed
indexed-IsLawful = record {
  update_ok = node_map-IsLawful.update_ok;
  get-update_self = node_map-IsLawful.get-update_self;
  get-update_ne = node_map-IsLawful.get-update_ne;
}

keeps : KeepsNodes indexed
keeps = λ k v s h. refl

abbrev opening : Sh256 → LeafOpening
opening hval = record { hkey = digest key; hval = hval; prev_leaf = 3; next_leaf = 3 }

abbrev below : Bytes
below = replicate 38 0 ++ 1 ∷ 0 ∷ 0x16 ∷ []

-- The bytes of the leaf with the index of its next leaf and the hash of its value; that of its
-- previous leaf is 3.
abbrev opening_bytes : ℕ → Sh256 → Bytes
opening_bytes next hval = replicate 31 0 ++ 3 ∷ (replicate 31 0 ++ next ∷ (digest key ++ hval))

abbrev leaf_at : ℕ → Sh256 → Node
leaf_at next hval = record {
  raw = leaf (record { path = below; value = opening_bytes next hval });
  hash = digest (opening_bytes next hval);
}

abbrev top : ℕ → Sh256 → Sh256
top next hval = digest (zero_hash ++ digest (opening_bytes next hval))

abbrev tree : ℕ → Sh256 → Tree
tree next hval = fork (top next hval) (tip empty_leaf_node) (tip (leaf_at next hval))

abbrev nodes : NodeMap
nodes =
    (zero_hash, empty_leaf_node)
    ∷ (digest (opening_bytes 4 (digest (6 ∷ []))), leaf_at 4 (digest (6 ∷ [])))
    ∷ (top 4 (digest (6 ∷ [])), node_of (tree 4 (digest (6 ∷ []))))
    ∷ []

leaf-Held : Held indexed nodes (1 ∷ below) (tree 4 (digest (6 ∷ [])))
unfolding Held BtreeMap.get
leaf-Held = (refl, (refl, tt))

located : get_leaf_path {E = Error} 2 ≡ ok (1 ∷ below)
unfolding get_leaf_path write_bits
located = refl

keyed : trie_hash env key ≡ ok (digest key)
unfolding trie_hash
keyed = refl

hashed : trie_hash env (7 ∷ []) ≡ ok (digest (7 ∷ []))
unfolding trie_hash
hashed = refl

parsed :
    parse_node indexed env (1 ∷ below) (rooted (tree 4 (digest (6 ∷ []))), nodes)
    ≡ ok (opening (digest (6 ∷ [])))
unfolding parse_node Sparse.get_node get_from BtreeMap.get value parse big_endian_types from_be
    narrow exactly_32
parsed = refl

made :
    tree_put env levels
      (1 ∷ below)
      (layout env.eth 3 3 (digest key) (digest (7 ∷ [])))
      (tree 4 (digest (6 ∷ [])))
    ≡ ok (tree 3 (digest (7 ∷ [])))
unfolding tree_put put_tip new_tip new_fork branch_node leaf_node new value_hash to_bytes
    big_endian_types to_be prefix_len
made = refl

unused : IsFresh indexed (path_nodes (1 ∷ below) (tree 3 (digest (7 ∷ [])))) (
    indexed.update_index
      (digest key)
      (entry indexed indexed-IsLawful keeps env
        (record { leaf_index = 2; leaf_value = 6 ∷ [] })
        (7 ∷ []))
      nodes)
unfolding path_nodes BtreeMap.get BtreeMap.insert
unused = (λ m h. absurd (cc), (λ m h. absurd (cc), tt))

put-present_example :
    (after : NodeMap) × (m : Node) × (put indexed env key
        (7 ∷ [])
        (rooted (tree 4 (digest (6 ∷ []))), nodes)
      ≡ (ok tt, (rooted (tree 3 (digest (7 ∷ []))), after)))
    × Held indexed after (1 ∷ below) (tree 3 (digest (7 ∷ [])))
    × (Sparse.get_node indexed (rooted (tree 3 (digest (7 ∷ [])))) (1 ∷ below) after ≡ ok (some m))
    × ((opening (digest (6 ∷ []))).next_leaf ≡ (opening (digest (6 ∷ []))).prev_leaf)
    × (value m.raw ≡ some (layout env.eth 3 3 (digest key) (digest (7 ∷ []))))
put-present_example =
    put-present indexed indexed-IsLawful keeps env key (7 ∷ []) (top 4 (digest (6 ∷ [])))
      (tip empty_leaf_node) (tip (leaf_at 4 (digest (6 ∷ [])))) nodes keyed hashed refl refl located
      leaf-Held parsed made unused

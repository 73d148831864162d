-- ===== src/Zktrie/Sparse/Tree.antt =====
-- The abstract trie: a binary tree of nodes with their hashes, without a database. A path is
-- consumed from its front.
pub mod Reads
pub mod Removal
use linea_sgx_prover.Prelude.{
  ℕ, zero, suc, Option, none, some, List, [], ◌∷◌, ◌++◌, ◌==◌, if◌then◌else◌, length,
}
use linea_sgx_prover.Prelude.Results.{Result, ok, err, panic, ◌>>=◌}
use linea_sgx_prover.Bytes.{Bytes, bytes_eq}
use linea_sgx_prover.EthTypes.{Sh256}
use linea_sgx_prover.Zktrie.Types.{
  Env, NodeValue, branch, leaf, empty_leaf, next_free, Node, Error, reached_max_level,
  path_not_allow,
}
use linea_sgx_prover.Zktrie.Path.{prefix_len}
use linea_sgx_prover.Zktrie.Node.{branch_node, leaf_node}

-- A tip is a leaf, an empty leaf or a next-free leaf. A fork has the hash of its node.
pub data Tree : Type 0 where
  tip : Node → Tree
  fork : Sh256 → Tree → Tree → Tree

abbrev pub tree_hash : Tree → Sh256
tree_hash (tip n) = n.hash
tree_hash (fork h l r) = h

abbrev pub node_of : Tree → Node
node_of (tip n) = n
node_of (fork h l r) = record {
  raw = branch (record { left = tree_hash l; right = tree_hash r });
  hash = h;
}

abbrev pub IsTip : NodeValue → Type 0
IsTip (branch _) = ⊥
IsTip _ = Unit

-- What a lookup finds at a tip.
unfoldable pub read_tip : NodeValue → Node → Bytes → Result Error (Option Node)
read_tip (branch _) n rest = panic
read_tip empty_leaf n rest = ok none
read_tip (leaf l) n rest = ok (if bytes_eq l.path rest then some n else none)
read_tip (next_free l) n rest = if bytes_eq l.path rest then ok (some n) else panic

-- A lookup.
unfoldable pub tree_get : ℕ → Bytes → Tree → Result Error (Option Node)
tree_get zero rest t = err reached_max_level
tree_get (suc k) rest (tip n) = read_tip n.raw n rest
tree_get (suc k) [] (fork h l r) = panic
tree_get (suc k) (b ∷ rest) (fork h l r) = tree_get k rest (if b == 0 then l else r)

module _ (env : Env) where
  unfoldable pub new_tip : Bytes → Bytes → Result Error Tree
  new_tip rest v = do n ← leaf_node env rest v; ok (tip n)

  unfoldable pub put_tip : NodeValue → Bytes → Bytes → Result Error Tree
  put_tip (branch _) rest v = panic
  put_tip empty_leaf rest v = new_tip rest v
  put_tip (leaf l) rest v =
      if prefix_len l.path rest == length l.path then new_tip rest v else err path_not_allow
  put_tip (next_free l) rest v =
      if prefix_len l.path rest == length l.path then new_tip rest v else panic

  unfoldable pub new_fork : Tree → Tree → Result Error Tree
  new_fork l r = do n ← branch_node env (tree_hash l) (tree_hash r); ok (fork n.hash l r)

  -- An update of one path.
  unfoldable pub tree_put : ℕ → Bytes → Bytes → Tree → Result Error Tree
  tree_put zero rest v t = err reached_max_level
  tree_put (suc k) rest v (tip n) = put_tip n.raw rest v
  tree_put (suc k) [] v (fork h l r) = panic
  tree_put (suc k) (b ∷ rest) v (fork h l r) =
      let below_left = tree_put k rest v l in
      let below_right = tree_put k rest v r in
      if b == 0
      then (do l' ← below_left; new_fork l' r)
      else if b == 1
      then (do r' ← below_right; new_fork l r')
      else panic

-- The nodes on a path, in the order in which an update writes them: the tip first.
unfoldable pub path_nodes : Bytes → Tree → List Node
path_nodes rest (tip n) = n ∷ []
path_nodes [] (fork h l r) = []
path_nodes (b ∷ rest) (fork h l r) =
    path_nodes rest (if b == 0 then l else r) ++ node_of (fork h l r) ∷ []

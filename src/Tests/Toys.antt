-- ===== src/Tests/Toys.antt =====
-- Small concrete instances of what the program takes from outside: a field, a hash, a database, a
-- trie and the arithmetic of balances.
use mathlib.Core.List.{foldl}
use native.Mathlib.Nat.{mul_assoc}
use linea_sgx_prover.Prelude.{
  ℕ, ◌+◌, ◌-◌, ◌*◌, ◌%◌, none, some, [], ◌∷◌, ◌++◌, refl, inl, leb, if◌then◌else◌, map, replicate,
}
use linea_sgx_prover.Prelude.Results.{ok, err}
use linea_sgx_prover.Bytes.{Bytes}
use linea_sgx_prover.Bytes.Endian.{to_be, from_be, length-to_be}
use linea_sgx_prover.BtreeMap
use linea_sgx_prover.BtreeMap.{Map, bytes_ord, get-insert_self, get-insert_ne}
use linea_sgx_prover.EthTypes.{Sh256, big_endian_types}
use linea_sgx_prover.Mimc.Field.{PrimeField, IsLawful}
use linea_sgx_prover.Zktrie.Types.{Env, Node, invalid_proof}
use linea_sgx_prover.Zktrie.Database
use linea_sgx_prover.Zktrie.Database.{Database}
use linea_sgx_prover.Linea.Trie.{Trie, success}
use linea_sgx_prover.Linea.Cache.{CacheValueEnc}
use linea_sgx_prover.Linea.State.{Balances}

-- The natural numbers in place of the field.
abbrev pub numbers : PrimeField
numbers = record {
  F = ℕ;
  Repr = ℕ;
  zero = 0;
  add = λ a b. a + b;
  mul = λ a b. a * b;
  square = λ a. a * a;
  limbs = λ a b c d. 1;
  read_be = λ b. some (from_be b);
  write_be = to_be 32;
  raw = λ r. r;
  from_raw_repr = λ r. some r;
  into_raw_repr = λ a. a;
  into_repr = λ a. a;
}

pub numbers-IsLawful : IsLawful numbers
numbers-IsLawful = record {
  mul_assoc = λ a b c. mul_assoc a b c;
  square_lem = λ a. refl;
  read_be_lem = λ b h. (from_be b, refl);
  length-write_be = length-to_be 32;
  from_into_raw = λ a b. refl;
  r_square_lem = (1, refl);
}

abbrev pub digest : Bytes → Sh256
digest b = replicate 31 0 ++ (foldl (λ a x. (a * 31 + x + 1) % 1000003) 7 b) ∷ []

abbrev pub env : Env
env = record { eth = big_endian_types; sum = λ b. ok (digest b); keccak = digest }

-- A database that is a map of nodes.
abbrev pub NodeMap : Type 0
NodeMap = Map Sh256 Node

abbrev pub node_map : Database NodeMap
node_map = record {
  get_node = λ s h. ok (BtreeMap.get h s);
  update_node = λ h n s. (ok n, BtreeMap.insert h n s);
  get_nearest_keys = λ s root k. err invalid_proof;
  update_index = λ k v s. s;
  remove_index = λ k s. s;
  get_code = λ s h. none;
}

pub node_map-IsLawful : Database.IsLawful node_map
node_map-IsLawful = record {
  update_ok = λ h n s. refl;
  get-update_self = λ h n s. inl (rw (get-insert_self h n s) refl);
  get-update_ne = λ h j n s other. rw (get-insert_ne h j n s other) refl;
}

-- A trie whose data stand in the database, which is a map of bytes.
abbrev pub flat_trie : Trie Sh256 (Map Bytes Bytes)
flat_trie = record {
  root_hash = λ t. t;
  try_get = λ t k s. ok (BtreeMap.get k s);
  get = λ t k s. ok (elim (BtreeMap.get k s) [ some v ↦ v | none ↦ [] ]);
  update = λ updates ts. (ok (map (λ _. success) updates), ts);
  new_root = λ t root. root;
}

abbrev pub plain_bytes : CacheValueEnc Bytes
plain_bytes = record { encode = λ v. ok v; decode = λ b. ok b; default_value = ok [] }

abbrev pub balances : Balances
balances = record { add = λ a b. some (a + b); sub = λ a b. if leb b a then some (a - b) else none }

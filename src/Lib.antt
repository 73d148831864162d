-- ===== src/Lib.antt =====
-- The state tries of the Linea prover and what executes blocks on them.
--
-- A batch of blocks is proved by replaying it on the state that Shomei describes. Shomei gives
-- traces of reads and writes of its state tries. From these traces a store of trie nodes is built
-- (src/common/zktrie/src/storage.rs, trace.rs), the blocks are executed on a state that reads
-- accounts and slots through caches over the tries (src/common/linea/src), and the root that comes
-- out is compared with the one that the traces announce.
--
-- A state trie is a sparse Merkle trie of 40 levels whose leaves are linked into a list in the
-- order of the hashed keys (src/common/zktrie/src/trie.rs, sparse_merkle_trie.rs). Its top node has
-- the index of the next free leaf on the left and the trie on the right. Nodes are hashed by MiMC
-- (src/common/mimc/src).
--
-- The files:
--   * Prelude: results with errors and panics (Results), calls that change a state (Exec), lists
--     and tests over native numbers.
--   * Bytes, BtreeMap: the byte strings, endian conversions and maps of Rust's standard library.
--   * EthTypes: what the program uses of the crate eth_types, as a record with the laws it relies on.
--   * Mimc: src/common/mimc/src. The field of the crate ff is the record PrimeField (Mimc/Field).
--   * Zktrie/Types, Node, Opening, Path: node.rs, hash.rs, utils.rs and lib.rs of
--     src/common/zktrie/src.
--   * Zktrie/Database, Sparse: sparse_merkle_trie.rs. Sparse/Tree is the abstract trie, without a
--     database, which Sparse/Tree/Removal removes leaves from; Sparse/Refine relates the two, path
--     by path, since the store of a block has the nodes of some paths only.
--   * Zktrie/Trie, Trace, Store: trie.rs, trace.rs and storage.rs. Trie/Paths, Leaves, Lookups and
--     Insert carry the proofs on new and removed keys, which state the leaves by the layout of their
--     bytes (Opening/Codec); Trie/Writes and Store/Authentic, Contents and Reached those on the
--     stores that the program can reach; Store/Climbs, Traced and Readable follow the nodes of a
--     trace into the store.
--   * Linea/Account, Trie, Cache, State: engine.rs, trie.rs, cache.rs and zktrie_state.rs of
--     src/common/linea/src.
--   * Linea/Blocks: batch_task.rs, and the hashes, retries and transactions of block_executor.rs;
--     Linea/Executor: the BlockExecutor of that file, with what it asks of the node in
--     Executor/Requests.
--   * Linea/Engine: the author and the receipts of engine.rs.
--   * Linea/Verifier: verifier.rs. Linea/Attestation: prover.rs, with the rounds of its loop as a
--     step relation in Attestation/Steps.
--   * Shomei: src/common/shomei/src/client.rs.
--   * App/Args: the arguments and defaults of src/apps/prover/src/types.rs.
--   * App: src/apps/prover/src/apps.rs: the checks before a proof of execution is signed, the tasks
--     and the methods of the server (Tasks), and the proof from traces (Traces).
--   * Tests: concrete inputs.
--
-- How code becomes definitions: a method with &mut self or &mut db takes the state and returns it
-- beside its result, so that what was written before an error stays written. unwrap, expect, an
-- index or a slice out of range, unreachable! and an overflow that overflow checks catch are the
-- result panic. Numbers are natural numbers; where Rust's width matters the bound is written out.
-- Bytes are natural numbers too: a theorem that needs them to fit says so.
--
-- Recursion: the methods of the sparse trie recurse on the levels that are left, 42 of them, which
-- is the bound ZK_TRIE_DEPTH + 2 that the source tests; none left is the source's error. The loop
-- of get_leaf_path recurses on its index, which the source decrements. All other loops run over
-- lists, or a number of rounds that the source fixes before the loop.
--
-- The wait for the attestation polls without a bound: it has fuel, and a theorem that a turn at
-- which the flag is set or the program shuts down is fuel enough.
-- So does the loop over the arguments of the program, which any fuel above the number of options
-- ends (App/Args/Laws).
--
-- Not modelled: logs, the decoding of JSON, contracts, the enclave's entry points, the
-- construction of clients from the configuration, and the crates that execute transactions. The
-- hash of the tries, keccak, the field, the types of eth_types, the crate rlp, the arithmetic of
-- balances, the transactions and the builder of a block, the clients of the nodes and of Shomei, the
-- encoder of calls, the keys and the clocks are parameters.
pub mod Prelude
pub mod Bytes
pub mod BtreeMap
pub mod EthTypes
pub mod Mimc
pub mod Zktrie
pub mod Linea
pub mod Shomei
pub mod App
mod Tests

-- ===== src/Linea.antt =====
-- src/common/linea/src: accounts, the caches over the tries, the state of a block, block hashes, the
-- subscription to batches and the attestation of the prover.
pub mod Account
pub mod Trie
pub mod Cache
pub mod State
pub mod Blocks
pub mod Verifier
pub mod Attestation
pub mod Executor
pub mod Engine

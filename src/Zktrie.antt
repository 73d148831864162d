-- ===== src/Zktrie.antt =====
-- The sparse Merkle trie of src/common/zktrie/src.
pub mod Types
pub mod Path
pub mod Node
pub mod Opening
pub mod Database
pub mod Sparse
pub mod Trace
pub mod Trie
pub mod Store

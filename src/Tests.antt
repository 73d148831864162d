-- ===== src/Tests.antt =====
-- Concrete inputs, and the theorems applied to them.
mod Toys
mod Hashing
mod Zktrie
mod Linea
mod App
mod Proofs
mod Removals
mod Attestation
mod Proving
mod Counter
mod Present
mod Stores
mod Traces
mod Absent
mod Unlink

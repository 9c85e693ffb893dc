-- ===== src/Merkle.antt =====
-- pkg/merkle: the sparse Merkle tree that holds the accounts and each contract's storage.
pub mod Node
pub mod Tree
pub mod Place
pub mod Update
pub mod Canonical
pub mod Map
pub mod Stored
pub mod Reload
pub mod Proof
pub mod Proved
mod Tests

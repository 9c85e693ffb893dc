-- ===== src/Merkle/Update.antt =====
-- What `Set` and `Delete` do to a sound node: they succeed, the result is sound, and the values
-- below it are the old ones but at the key.
mod Branch
mod Set
mod Delete
pub use Branch.{Updated}
pub use Set.*
pub use Delete.*

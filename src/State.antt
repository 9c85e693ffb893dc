-- ===== src/State.antt =====
-- internal/state: the state that transactions act on.
pub mod Ops
pub mod Ledger
pub mod Journal
pub mod Db
pub mod Maps
pub mod Undo
pub mod Log
pub mod Revert
mod Tests

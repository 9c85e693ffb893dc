-- ===== src/Executor.antt =====
-- internal/executor: transactions against the state.
pub mod Slots
pub mod Htlc
pub mod Settle
pub mod Execute
pub mod Block
pub mod Refusals
pub mod Mint
pub mod Keeps
pub mod Rollback
pub mod Claims
pub mod Locks
pub mod Apart
pub mod Claimed
pub mod Once
pub mod Payments
pub mod Transfers
mod Tests

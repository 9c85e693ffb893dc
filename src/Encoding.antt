-- ===== src/Encoding.antt =====
-- pkg/encoding: the binary forms of transactions, accounts, checkpoints and L1 envelopes.
pub mod Fields
pub mod Tx
pub mod Account
pub mod Checkpoint
pub mod Envelope
mod Tests

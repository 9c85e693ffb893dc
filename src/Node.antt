-- ===== src/Node.antt =====
-- internal/node/node.go: the full node. Its state and what it calls (Base), checkpoints and finality
-- (Finality), reorganisations of the Bitcoin chain (Reorg), and the blocks it takes (Sync).
pub mod Base
pub mod Finality
pub mod Finalized
pub mod Memory
pub mod Reorg
pub mod Restart
pub mod Rollback
pub mod Restarted
pub mod Sync
mod MemoryTests
mod RestartTests
mod Tests
pub mod Bounded
pub mod Resync
pub mod Forks

-- ===== src/Scanner.antt =====
-- internal/scanner/extractor.go: the transactions and checkpoints in the payloads of a Bitcoin
-- transaction.
pub mod Block
pub mod Extractor

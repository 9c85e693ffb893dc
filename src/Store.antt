-- ===== src/Store.antt =====
-- internal/store/store.go: the records of the node in one LevelDB, by keys with a prefix, and the
-- keys of pkg/merkle/leveldb.go. LevelDB is a parameter.
pub mod Distinct
pub mod Keys
pub mod Ops
mod Tests

-- ===== src/Contracts/Script.antt =====
-- contracts/script/compiler.go: the compiler for the text assembly.
pub mod Source
pub mod Emit
pub mod Placed
pub mod Tests

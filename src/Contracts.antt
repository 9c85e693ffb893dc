-- ===== src/Contracts.antt =====
-- contracts: the assembler for the machine's code, and the packing of call data.
pub mod Asm
pub mod Push
pub mod Script
mod Tests

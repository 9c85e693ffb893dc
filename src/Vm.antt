-- ===== src/Vm.antt =====
-- The stack machine of internal/vm. Bytecode is a list of bytes, each a number below 256.
pub mod Opcode
pub mod Stack
pub mod Context
pub mod Exec
pub mod Gas
pub mod Rounds
pub mod Metering
pub mod Bounds
pub mod Faults
mod Tests

-- ===== src/Evm.antt =====
-- The virtual machine: src/evm and include/evm.
pub mod Uint256
pub mod Stack
pub mod Memory
pub mod Address
pub mod Storage
pub mod Opcodes
pub mod Executor

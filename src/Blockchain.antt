-- ===== src/Blockchain.antt =====
-- The records of the chain: src/blockchain.
pub mod Transaction
pub mod Block
pub mod Chain
pub mod AddressManager

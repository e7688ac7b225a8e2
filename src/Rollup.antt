-- ===== src/Rollup.antt =====
-- The rollup: src/rollup.
pub mod TransitionProof
pub mod StateManager
pub mod Transition
pub mod EmergencyExit
pub mod MevProtection
pub mod ProofAggregator
pub mod Relocking
pub mod BatchProcessor
pub mod TransactionApi
pub mod L1Bridge
pub mod CrossRollupBridge
pub mod OptimisticAdapter
pub mod ParallelProcessor
pub mod FraudProof

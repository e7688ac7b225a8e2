-- ===== src/Rollup/Relocking.antt =====
-- What becomes of the rollup's parts that apply transactions to a StateManager: of
-- src/rollup/RollupStateTransition.cpp, OptimisticAdapter.cpp, FraudProof.cpp and BatchProcessor.cpp.
mod Tests
use quids_evm_cpp.Base.{
  ℕ, suc, ◌≡◌, refl, ap, ◌∙◌, true, false, List, [], ◌∷◌, Outcome, undefined, nat_eq, ltb, arith,
}
use quids_evm_cpp.Blockchain.Transaction.{Transaction}
use quids_evm_cpp.Rollup.StateManager.{State, unlocked, may_lock, get_account, apply_transaction}
use quids_evm_cpp.Rollup.BatchProcessor as Batch
use quids_evm_cpp.Rollup.BatchProcessor.{
  BatchProcessor, process_batches, process_batch, apply_batch,
}
use quids_evm_cpp.Rollup.OptimisticAdapter as Optimistic
use quids_evm_cpp.Rollup.FraudProof as Fraud

-- A worker of a BatchProcessor that runs and has room and a transaction for a batch comes to
-- undefined behaviour in its first round.
pub worker_undefined :
    (rounds m : ℕ) (tx : Transaction) (txs : List Transaction) (p : BatchProcessor) (s : State)
    → p.should_stop ≡ false
    → p.config.max_batch_size ≡ suc m
    → p.pending_transactions ≡ tx ∷ txs
    → process_batches (apply_transaction unlocked) (suc rounds) p s ≡ undefined
unfolding process_batches process_batch Batch.create_batch Batch.fill_batch apply_batch
    apply_transaction may_lock get_account
worker_undefined rounds m tx txs p s runs room waits =
    let positive : ltb 0 (suc m) ≡ true = ground arith in rw (runs, waits, room, positive) refl

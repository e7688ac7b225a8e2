-- ===== src/Rollup/BatchProcessor/Tests.antt =====
-- Three transactions in batches of two.
use quids_evm_cpp.Base.{
  ℕ, ◌+◌, ◌%◌, ◌==◌, Bool, ◌≡◌, refl, true, false, [], ◌∷◌, ◌++◌, Outcome, returned, arith,
}
use quids_evm_cpp.Blockchain.Transaction.{Transaction, new_transaction}
use quids_evm_cpp.Rollup.StateManager.{◌>>=◌}
use quids_evm_cpp.Rollup.BatchProcessor.{
  BatchConfig, BatchProcessor, new_processor, submit_transaction, create_batch, apply_batch,
  process_batches, ready, submits, takes, Run, here, next,
}
use quids_evm_cpp.Rollup.BatchProcessor.Batches.{Run-fifo}
use quids_evm_cpp.Rollup.BatchProcessor.Delivery.{emptied, process_batches_drains}

abbrev tx : ℕ → Transaction
tx n = record (new_transaction 0 []) { nonce = n }

abbrev config : BatchConfig
config = record { max_batch_size = 2; min_batch_size = 1 }

abbrev waiting : BatchProcessor
waiting = record {
  config = config;
  pending_transactions = tx 1 ∷ tx 2 ∷ tx 3 ∷ [];
  should_stop = false;
}

-- A state manager that counts and refuses an even nonce
abbrev counting : Transaction → ℕ → Outcome ⊥ (Bool × ℕ)
counting tx n = returned (tx.nonce % 2 == 1, n + tx.nonce)

two_taken : (create_batch waiting).0 ≡ tx 1 ∷ tx 2 ∷ []
unfolding create_batch
two_taken = refl

wait_over : ready waiting ≡ true
unfolding ready
wait_over = refl

abbrev left : BatchProcessor
left = record waiting { pending_transactions = tx 3 ∷ [] }

-- Three are submitted, and a worker takes a batch.
schedule : Run (new_processor config) (tx 1 ∷ tx 2 ∷ tx 3 ∷ []) (tx 1 ∷ tx 2 ∷ []) left
unfolding submit_transaction create_batch
schedule =
    let one = next here (submits (new_processor config) (tx 1)) in
    let two = next one (submits (submit_transaction (tx 1) (new_processor config)) (tx 2)) in
    let three = next two (
      submits (submit_transaction (tx 2) (submit_transaction (tx 1) (new_processor config)))
        (tx 3)) in
    next three (takes {p = waiting} {p' = left} {batch = tx 1 ∷ tx 2 ∷ []} refl)

Run-fifo_example : tx 1 ∷ tx 2 ∷ tx 3 ∷ [] ≡ (tx 1 ∷ tx 2 ∷ []) ++ left.pending_transactions
Run-fifo_example = Run-fifo schedule

process_batches_drains_example : process_batches counting 2 waiting 10 ≡ (
    apply_batch counting waiting.pending_transactions 10 >>= λ s'. returned (emptied waiting, s'))
process_batches_drains_example = process_batches_drains counting 2 waiting 10 refl (omega arith)

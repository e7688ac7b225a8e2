-- ===== src/Rollup/ParallelProcessor/Tests.antt =====
-- Three transactions, two of them of one sender.
use mathlib.Core.List.{Perm}
use quids_evm_cpp.Base.{ℕ, ◌≡◌, refl, true, false, List, [], ◌∷◌, arith}
use quids_evm_cpp.Blockchain.Transaction.{Transaction, new_transaction}
use quids_evm_cpp.Rollup.ParallelProcessor.{
  new_processor, submit_transaction, worker_round, process_transaction, process_batch,
  has_dependency, depends, fill_batch, split_batches, create_independent_batches,
}
use quids_evm_cpp.Rollup.ParallelProcessor.Batches.{
  IsIndependent, AreIndependent, joined, create_independent_batches-AreIndependent,
}
use quids_evm_cpp.Rollup.ParallelProcessor.Nonces.{no_replay}

abbrev pay : ℕ → ℕ → ℕ → Transaction
pay from to nonce = record (new_transaction 0 []) { from = from ∷ []; to = to ∷ []; nonce = nonce }

abbrev three : List Transaction
three = pay 1 9 0 ∷ pay 1 9 1 ∷ pay 2 9 0 ∷ []

-- The first and the third go to one account, and are still independent.
split : create_independent_batches three ≡ (pay 1 9 0 ∷ pay 2 9 0 ∷ []) ∷ (pay 1 9 1 ∷ []) ∷ []
unfolding create_independent_batches split_batches fill_batch depends has_dependency
split = refl

-- The second waits for the first, and is not processed when that has come.
left_waiting : (process_batch (pay 1 9 1 ∷ pay 1 9 0 ∷ []) (new_processor 5)).0 ≡ false
unfolding process_batch process_transaction
left_waiting = refl

taken : (worker_round (submit_transaction (pay 1 9 0) (new_processor 5)).1).0 ≡ true
unfolding worker_round submit_transaction process_transaction
taken = refl

create_independent_batches-AreIndependent_example :
    AreIndependent (create_independent_batches three)
    × Perm (joined (create_independent_batches three)) three
create_independent_batches-AreIndependent_example = create_independent_batches-AreIndependent three

apart : IsIndependent (pay 1 9 0 ∷ pay 2 9 0 ∷ [])
unfolding has_dependency
apart = ((refl, tt), (tt, tt))

succeeded : (process_transaction (pay 1 9 0) (new_processor 5)).0 ≡ true
unfolding process_transaction
succeeded = refl

no_replay_example :
    (process_transaction
      (pay 1 9 0)
      (process_batch (pay 1 9 1 ∷ []) (process_transaction (pay 1 9 0) (new_processor 5)).1).1).0
    ≡ false
no_replay_example = no_replay (pay 1 9 0) (pay 1 9 1 ∷ []) (new_processor 5) (omega arith) succeeded

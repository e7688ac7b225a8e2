-- ===== src/Rollup/TransactionApi/Tests.antt =====
-- A well-formed transaction, and two threads.
use quids_evm_cpp.Base.{
  ◌+◌, ◌≤◌, ◌≡◌, ◌↔◌, refl, true, false, List, [], ◌∷◌, if◌then◌else◌, length, replicate,
}
use quids_evm_cpp.Blockchain.Transaction.{Transaction, new_transaction}
use quids_evm_cpp.Rollup.TransactionApi.{
  TransactionBatch, new_api, new_batch, push, submit_transaction, submit_batch, process_batch,
  start_processing, stop_processing, validate_transaction, validate_transaction_with_message,
  is_overloaded, zero_value, Phase, idle, System, begins, checks, pushes, Reach, here, next,
  calculate_transaction_hash,
}
use quids_evm_cpp.Rollup.TransactionApi.Submissions.{AreFormed, HasRoom, submit_batch_iff}
use quids_evm_cpp.Rollup.TransactionApi.Threads.{filled, Reach-bounded}

abbrev tx : Transaction
tx = record (new_transaction 0 []) { from = 1 ∷ []; to = 2 ∷ []; value = 5; signature = 9 ∷ [] }

abbrev batch : TransactionBatch
batch = new_batch 3 (tx ∷ [])

formed : AreFormed (tx ∷ [])
formed = ((refl, refl, λ e. absurd cc, refl), tt)

no_value : validate_transaction_with_message (record tx { value = 0 }) new_api ≡ zero_value
unfolding validate_transaction_with_message
no_value = refl

queued : (submit_transaction 3 tx new_api).1.batch_queue ≡ batch ∷ []
unfolding submit_transaction validate_transaction validate_transaction_with_message is_overloaded
queued = refl

-- Two transactions with one text
same_text :
    calculate_transaction_hash (λ n. n ∷ []) tx
    ≡ calculate_transaction_hash (λ n. n ∷ []) (record tx { from = 1 ∷ 2 ∷ []; to = [] })
unfolding calculate_transaction_hash
same_text = refl

restarted : start_processing (stop_processing new_api) ≡ new_api
unfolding start_processing stop_processing
restarted = refl

submit_batch_iff_example :
    let (accepted, api) = submit_batch 3 (tx ∷ []) new_api in
    ((accepted ≡ true) ↔ (AreFormed (tx ∷ []) × HasRoom (tx ∷ []) new_api))
    × (api ≡ (if accepted then push batch new_api else new_api))
    × ((process_batch batch new_api ≡ true) ↔ (AreFormed (tx ∷ []) × HasRoom (tx ∷ []) new_api))
submit_batch_iff_example = submit_batch_iff 3 (tx ∷ []) new_api

abbrev long_queue : List TransactionBatch
long_queue = replicate 999 batch

abbrev threads : List Phase
threads = idle ∷ idle ∷ []

abbrev one_pushed : System
one_pushed = record {
  api = record { batch_queue = batch ∷ []; should_stop = false };
  threads = threads;
}

schedule : Reach (record { api = new_api; threads = threads }) one_pushed
unfolding validate_transaction validate_transaction_with_message is_overloaded
schedule =
    next (next (next here (begins 1 (tx ∷ []) refl refl)) (checks 1 tx [] (tx ∷ []) refl refl refl))
      (pushes 1 3 (tx ∷ []) refl refl)

Reach-bounded_example : filled one_pushed.api.batch_queue ≤ 999 + length threads
Reach-bounded_example = Reach-bounded threads one_pushed refl schedule

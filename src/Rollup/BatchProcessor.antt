-- ===== src/Rollup/BatchProcessor.antt =====
-- src/rollup/BatchProcessor.cpp: the queue of transactions, the batches taken from it and the
-- workers. A wait ends because its predicate holds or because its time is over; which of the two,
-- and when a worker runs, is the environment's choice. The state manager is an interface, its member
-- apply_transaction on a state `S`.
pub mod Delivery
pub mod Batches
mod Tests
use quids_evm_cpp.Base.{
  ℕ, zero, suc, ◌≤◌, ◌≡◌, Bool, true, false, ◌||◌, List, [], ◌∷◌, ◌++◌, Outcome, returned, empty,
  leb, ltb, if◌then◌else◌, length,
}
use quids_evm_cpp.Blockchain.Transaction.{Transaction}
use quids_evm_cpp.Rollup.StateManager.{◌>>=◌}

-- `BatchConfig`, without the time of a wait
pub record BatchConfig : Type 0 where
  pub max_batch_size : ℕ
  pub min_batch_size : ℕ

-- `BatchProcessor`, without its state manager, whose state is passed beside it
pub record BatchProcessor : Type 0 where
  pub config : BatchConfig
  pub pending_transactions : List Transaction
  pub should_stop : Bool

abbrev pub new_processor : BatchConfig → BatchProcessor
new_processor config = record { config = config; pending_transactions = []; should_stop = false }

unfoldable pub submit_transaction : Transaction → BatchProcessor → BatchProcessor
submit_transaction tx p = record p { pending_transactions = p.pending_transactions ++ (tx ∷ []) }

unfoldable pub stop : BatchProcessor → BatchProcessor
stop p = record p { should_stop = true }

-- The predicate of the wait: a worker that it lets pass does not wait until the time is over.
unfoldable pub ready : BatchProcessor → Bool
ready p = leb p.config.min_batch_size (length p.pending_transactions) || p.should_stop

-- The loop that fills a batch: the batch, and what is left in the queue. `size` is the batch's.
unfoldable pub fill_batch :
    (max_batch_size size : ℕ) → List Transaction → List Transaction × List Transaction
fill_batch max_batch_size size [] = ([], [])
fill_batch max_batch_size size (tx ∷ pending) =
    let (batch, left) = fill_batch max_batch_size (suc size) pending in
    if ltb size max_batch_size then (tx ∷ batch, left) else ([], tx ∷ pending)

-- `create_batch` from where its wait ends
unfoldable pub create_batch : BatchProcessor → List Transaction × BatchProcessor
unfolding fill_batch
create_batch p =
    if p.should_stop || empty p.pending_transactions
    then ([], p)
    else let (batch, left) = fill_batch p.config.max_batch_size 0 p.pending_transactions in
      (batch, record p { pending_transactions = left })

-- `apply_transaction` is the state manager's.
module _ {S : Type 0} (apply_transaction : Transaction → S → Outcome ⊥ (Bool × S)) where
  -- The loop over a batch, which passes over a transaction that is refused
  unfoldable pub apply_batch : List Transaction → S → Outcome ⊥ S
  apply_batch [] s = returned s
  apply_batch (tx ∷ batch) s = do (success, s') ← apply_transaction tx s; apply_batch batch s'

  unfoldable pub process_batch : BatchProcessor → S → Outcome ⊥ (BatchProcessor × S)
  unfolding create_batch apply_batch
  process_batch p s =
      let (batch, p') = create_batch p in
      if empty batch then returned (p', s) else do s' ← apply_batch batch s; returned (p', s')

  -- A worker's `process_batches`, for `rounds` rounds at most
  unfoldable pub process_batches :
      (rounds : ℕ) → BatchProcessor → S → Outcome ⊥ (BatchProcessor × S)
  unfolding process_batch
  process_batches zero p s = returned (p, s)
  process_batches (suc rounds) p s =
      if p.should_stop
      then returned (p, s)
      else do (p', s') ← process_batch p s; process_batches rounds p' s'

-- What the threads do to the processor, one locked section after another. `takes` is a worker's
-- create_batch, with the batch that it then has.
pub data Step : BatchProcessor → List Transaction → List Transaction → BatchProcessor → Type 0 where
  submits : (p : BatchProcessor) (tx : Transaction) → Step p (tx ∷ []) [] (submit_transaction tx p)
  takes :
      {p p' : BatchProcessor} {batch : List Transaction}
      → create_batch p ≡ (batch, p')
      → Step p [] batch p'
  stops : (p : BatchProcessor) → Step p [] [] (stop p)

-- A run of steps, with the transactions that were submitted and those that stand in batches, both
-- in order.
pub data Run (p : BatchProcessor)
    : List Transaction → List Transaction → BatchProcessor → Type 0 where
  here : Run p [] [] p
  next :
      {submitted batched txs batch : List Transaction} {p' p'' : BatchProcessor}
      → Run p submitted batched p'
      → Step p' txs batch p''
      → Run p (submitted ++ txs) (batched ++ batch) p''

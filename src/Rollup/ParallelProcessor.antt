-- ===== src/Rollup/ParallelProcessor.antt =====
-- src/rollup/ParallelProcessor.cpp: the queue, the independent batches, and the nonces that decide
-- which transactions are processed. A transaction is processed under the mutex of its sender's
-- account, so threads process them one after another in an order that the environment chooses.
-- Contract calls, their executors and the latencies are not modelled.
pub mod Batches
pub mod Nonces
mod Tests
use quids_evm_cpp.Base.{
  ℕ, ◌+◌, ◌%◌, Bool, true, false, not, ◌&&◌, ◌||◌, Option, none, some, List, [], ◌∷◌, ◌++◌, Bytes,
  u64_mod, list_eq, nat_eq, list_beq, ltb, leb, ◌==◌, if◌then◌else◌, length, replicate,
}
use quids_evm_cpp.Base.Dict.{Dict, find, insert}
use quids_evm_cpp.Blockchain.Transaction.{Transaction}

-- `AccountState`, without its mutex
pub record AccountState : Type 0 where
  pub balance : ℕ
  pub nonce : ℕ
  pub pending_transactions : List Transaction

-- `Impl` and the queue, without the contracts
pub record Processor : Type 0 where
  pub max_queue_size : ℕ
  pub should_stop : Bool
  pub transaction_queue : List Transaction
  pub account_states : Dict Bytes AccountState
  pub failed_transactions : ℕ

abbrev pub new_account_state : AccountState
new_account_state = record { balance = 0; nonce = 0; pending_transactions = [] }

abbrev pub new_processor : ℕ → Processor
new_processor batch_size = record {
  max_queue_size = batch_size;
  should_stop = false;
  transaction_queue = [];
  account_states = [];
  failed_transactions = 0;
}

unfoldable pub submit_transaction : Transaction → Processor → Bool × Processor
submit_transaction tx p =
    if p.should_stop
    then (false, p)
    else if leb p.max_queue_size (length p.transaction_queue)
    then (false, p)
    else (true, record p { transaction_queue = p.transaction_queue ++ (tx ∷ []) })

-- `account_states_[address]`, which makes an account that is not there
abbrev pub account_state : Bytes → Processor → AccountState
account_state address p = elim (find address p.account_states) [
  | none ↦ new_account_state
  | some state ↦ state
]

abbrev pub with_account : Bytes → AccountState → Processor → Processor
with_account address state p = record p { account_states = insert address state p.account_states }

-- `update_transaction`
abbrev pub update_transaction : Bool → Processor → Processor
update_transaction success p =
    if success then p else record p { failed_transactions = (p.failed_transactions + 1) % u64_mod }

-- The nonce is the account's: the transaction is processed. It is higher: the transaction waits.
unfoldable pub process_transaction : Transaction → Processor → Bool × Processor
process_transaction tx p =
    let state = account_state tx.from p in
    if tx.nonce == state.nonce
    then (
      true,
      update_transaction true
          (with_account tx.from (record state { nonce = (state.nonce + 1) % u64_mod }) p),
    )
    else if ltb state.nonce tx.nonce
    then (
      false,
      update_transaction false (
          with_account tx.from
            (record state { pending_transactions = state.pending_transactions ++ (tx ∷ []) }) p),
    )
    else (false, update_transaction false (with_account tx.from state p))

-- `processBatch`, in the order in which its threads get to their accounts
unfoldable pub process_batch : List Transaction → Processor → Bool × Processor
unfolding process_transaction
process_batch [] p = (true, p)
process_batch (tx ∷ batch) p =
    let (success, p') = process_transaction tx p in
    let (all_success, p'') = process_batch batch p' in (success && all_success, p'')

-- A worker's round, where the queue has a transaction
unfoldable pub worker_round : Processor → Bool × Processor
unfolding process_transaction
worker_round p = elim p.transaction_queue [
  | [] ↦ (false, p)
  | tx ∷ queue ↦ process_transaction tx (record p { transaction_queue = queue })
]

unfoldable pub has_dependency : Transaction → Transaction → Bool
has_dependency tx1 tx2 =
    list_beq tx1.from tx2.from || (list_beq tx1.from tx2.to || list_beq tx1.to tx2.from)

-- The loop over a batch for a dependency
unfoldable pub depends : List Transaction → Transaction → Bool
unfolding has_dependency
depends [] tx = false
depends (tx' ∷ batch) tx = has_dependency tx' tx || depends batch tx

-- The loop over j: the transactions behind the first of a batch, with their flags of `assigned`.
-- The batch, and the flags after it.
unfoldable pub fill_batch :
    (batch transactions : List Transaction) → List Bool → List Transaction × List Bool
unfolding depends
fill_batch batch [] assigned = (batch, assigned)
fill_batch batch (tx ∷ transactions) [] = (batch, [])
fill_batch batch (tx ∷ transactions) (true ∷ assigned) =
    let (filled, after) = fill_batch batch transactions assigned in (filled, true ∷ after)
fill_batch batch (tx ∷ transactions) (false ∷ assigned) =
    let (without, after) = fill_batch batch transactions assigned in
    let (with_tx, after') = fill_batch (batch ++ (tx ∷ [])) transactions assigned in
    if depends batch tx then (without, false ∷ after) else (with_tx, true ∷ after')

-- The loop over i
unfoldable pub split_batches : List Transaction → List Bool → List (List Transaction)
unfolding fill_batch
split_batches [] assigned = []
split_batches (tx ∷ transactions) [] = []
split_batches (tx ∷ transactions) (true ∷ assigned) = split_batches transactions assigned
split_batches (tx ∷ transactions) (false ∷ assigned) =
    let (batch, after) = fill_batch (tx ∷ []) transactions assigned in
    batch ∷ split_batches transactions after

unfoldable pub create_independent_batches : List Transaction → List (List Transaction)
unfolding split_batches
create_independent_batches transactions =
    split_batches transactions (replicate (length transactions) false)

-- `submitBatch`: all batches are processed at once, in the order that `schedule` gives them.
unfoldable pub submit_batch :
    (List (List Transaction) → List Transaction) → List Transaction → Processor → Bool × Processor
unfolding create_independent_batches process_batch
submit_batch schedule batch p =
    if p.should_stop
    then (false, p)
    else process_batch (schedule (create_independent_batches batch)) p

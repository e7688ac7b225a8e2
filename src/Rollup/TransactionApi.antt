-- ===== src/Rollup/TransactionApi.antt =====
-- src/rollup/RollupTransactionAPI.cpp: the queue of batches, its checks and its workers. The
-- metrics, which are floating-point numbers of the clock, and the learning model are not modelled.
pub mod Submissions
pub mod Threads
mod Tests
use quids_evm_cpp.Base.{
  ℕ, zero, suc, ◌+◌, ◌≡◌, Bool, true, false, ◌&&◌, Option, none, some, List, [], ◌∷◌, ◌++◌, Bytes,
  empty, leb, ◌==◌, if◌then◌else◌, length, get_elem?, set,
}
use quids_evm_cpp.Blockchain.Transaction.{Transaction}

-- `TransactionBatch`; the fields that the interface never sets are left out.
pub record TransactionBatch : Type 0 where
  pub transactions : List Transaction
  pub batch_id : ℕ
  pub timestamp : ℕ

pub record RollupTransactionApi : Type 0 where
  pub batch_queue : List TransactionBatch
  pub should_stop : Bool

abbrev pub max_queue_size : ℕ
max_queue_size = 1000

abbrev pub new_api : RollupTransactionApi
new_api = record { batch_queue = []; should_stop = false }

-- The messages of validate_transaction_with_message; `valid` is the empty string.
pub data Message : Type 0 where
  valid invalid_sender invalid_recipient zero_value missing_signature overloaded : Message

unfoldable pub is_overloaded : RollupTransactionApi → Bool
is_overloaded api = leb max_queue_size (length api.batch_queue)

unfoldable pub validate_transaction_with_message : Transaction → RollupTransactionApi → Message
unfolding is_overloaded
validate_transaction_with_message tx api =
    if empty tx.from
    then invalid_sender
    else if empty tx.to
    then invalid_recipient
    else if tx.value == 0
    then zero_value
    else if empty tx.signature
    then missing_signature
    else if is_overloaded api
    then overloaded
    else valid

unfoldable pub validate_transaction : Transaction → RollupTransactionApi → Bool
unfolding validate_transaction_with_message
validate_transaction tx api = elim (validate_transaction_with_message tx api) [
  | valid ↦ true
  | _ ↦ false
]

-- The loop over a batch that submit_batch and process_batch share
unfoldable pub validate_all : List Transaction → RollupTransactionApi → Bool
unfolding validate_transaction
validate_all [] api = true
validate_all (tx ∷ txs) api =
    let rest = validate_all txs api in if validate_transaction tx api then rest else false

abbrev pub new_batch : ℕ → List Transaction → TransactionBatch
new_batch now transactions = record { transactions = transactions; batch_id = 0; timestamp = now }

abbrev pub push : TransactionBatch → RollupTransactionApi → RollupTransactionApi
push batch api = record api { batch_queue = api.batch_queue ++ (batch ∷ []) }

-- The calls take what the clock shows.
unfoldable pub submit_transaction :
    ℕ → Transaction → RollupTransactionApi → Bool × RollupTransactionApi
unfolding validate_transaction
submit_transaction now tx api =
    if validate_transaction tx api then (true, push (new_batch now (tx ∷ [])) api) else (false, api)

unfoldable pub submit_batch :
    ℕ → List Transaction → RollupTransactionApi → Bool × RollupTransactionApi
unfolding validate_all
submit_batch now transactions api =
    if validate_all transactions api
    then (true, push (new_batch now transactions) api)
    else (false, api)

unfoldable pub start_processing : RollupTransactionApi → RollupTransactionApi
start_processing api = record api { should_stop = false }

unfoldable pub stop_processing : RollupTransactionApi → RollupTransactionApi
stop_processing api = record api { should_stop = true }

unfoldable pub process_batch : TransactionBatch → RollupTransactionApi → Bool
unfolding validate_all
process_batch batch api = validate_all batch.transactions api

-- `worker_thread` alone, for `rounds` rounds at most and until it would wait: the answers of
-- process_batch, which it does not look at, and what is left.
unfoldable pub worker_thread :
    (rounds : ℕ) → List TransactionBatch → List (TransactionBatch × Bool) × List TransactionBatch
unfolding process_batch
worker_thread zero queue = ([], queue)
worker_thread (suc rounds) [] = ([], [])
worker_thread (suc rounds) (batch ∷ queue) =
    let (done, left) = worker_thread rounds queue in
    let success = process_batch batch (record { batch_queue = queue; should_stop = false }) in
    ((batch, success) ∷ done, left)

-- `to_string` is std::to_string.
unfoldable pub calculate_transaction_hash : (ℕ → Bytes) → Transaction → Bytes
calculate_transaction_hash to_string tx = tx.from ++ (tx.to ++ to_string tx.value)

-- What a thread that submits is about: it has checked the transactions that are not in `rest`.
pub data Phase : Type 0 where
  idle : Phase
  checking : (rest batch : List Transaction) → Phase

-- The interface with its threads. The mutex is held for one check of the queue's size and for one
-- push, and not between them.
pub record System : Type 0 where
  pub api : RollupTransactionApi
  pub threads : List Phase

pub data Step (s s' : System) : Type 0 where
  begins :
      (i : ℕ) (txs : List Transaction)
      → get_elem? s.threads i ≡ some idle
      → s' ≡ record s { threads = set s.threads i (checking txs txs) }
      → Step s s'
  checks :
      (i : ℕ) (tx : Transaction) (rest batch : List Transaction)
      → get_elem? s.threads i ≡ some (checking (tx ∷ rest) batch)
      → validate_transaction tx s.api ≡ true
      → s' ≡ record s { threads = set s.threads i (checking rest batch) }
      → Step s s'
  refuses :
      (i : ℕ) (tx : Transaction) (rest batch : List Transaction)
      → get_elem? s.threads i ≡ some (checking (tx ∷ rest) batch)
      → validate_transaction tx s.api ≡ false
      → s' ≡ record s { threads = set s.threads i idle }
      → Step s s'
  pushes :
      (i now : ℕ) (batch : List Transaction)
      → get_elem? s.threads i ≡ some (checking [] batch)
      → s' ≡ record { api = push (new_batch now batch) s.api; threads = set s.threads i idle }
      → Step s s'
  pops :
      (batch : TransactionBatch) (queue : List TransactionBatch)
      → s.api.batch_queue ≡ batch ∷ queue
      → s' ≡ record s { api = record (s.api) { batch_queue = queue } }
      → Step s s'
  switches :
      (should_stop : Bool)
      → s' ≡ record s { api = record (s.api) { should_stop = should_stop } }
      → Step s s'

pub data Reach (s : System) : System → Type 0 where
  here : Reach s s
  next : {t u : System} → Reach s t → Step t u → Reach s u

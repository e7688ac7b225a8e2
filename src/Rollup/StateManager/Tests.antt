-- ===== src/Rollup/StateManager/Tests.antt =====
-- Two accounts, and calls on them. The hash function is the identity.
use quids_evm_cpp.Base.{
  List, undefined, ◌≡◌, refl, true, [], ◌∷◌, Bytes, returned, list_eq, nat_eq, arith,
}
use quids_evm_cpp.Blockchain.Transaction.{Transaction, new_transaction}
use quids_evm_cpp.Evm.Address.{lexicographical_compare}
use quids_evm_cpp.Rollup.StateManager.Accounts.{
  Account, serialize_storage, serialize_account, serialize_accounts, insert_sorted, sort_accounts,
  calculate_state_root,
}
use quids_evm_cpp.Rollup.StateManager.{
  State, new_state, unlocked, verify_transaction, apply_transaction, revert_transaction,
  apply_transactions,
}
use quids_evm_cpp.Rollup.StateManager.Access.{get_account_history}
use quids_evm_cpp.Rollup.StateManager.History.{
  Records, record_all, newest, of_account, get_account_history-record_all,
}
use quids_evm_cpp.Rollup.StateManager.Locks.{relocking_undefined}
use quids_evm_cpp.Rollup.StateManager.Table.{
  Call, sets_balance, rolls_back, asks_balance, asks_nonce, Answer, done, number, run, spec_run,
}
use quids_evm_cpp.Rollup.StateManager.Simulation.{view, run_answers}
use quids_evm_cpp.Rollup.StateManager.Root.{exchange, calculate_state_root-SameTable}

abbrev alice : Account
alice = record { address = 1 ∷ []; balance = 30000; nonce = 4; code = []; storage = [] }

abbrev bob : Account
bob = record { address = 2 ∷ []; balance = 7; nonce = 0; code = []; storage = [] }

abbrev state : State
state = record {
  accounts = (1 ∷ [], alice) ∷ (2 ∷ [], bob) ∷ [];
  current_state_root = [];
  previous_state_root = [];
  history = [];
}

abbrev payment : Transaction
payment = record (new_transaction 0 []) { from = 1 ∷ []; to = 2 ∷ []; value = 100; nonce = 5 }

abbrev to_self : Transaction
to_self = record payment { to = 1 ∷ [] }

root :
    calculate_state_root (λ b. b) ((2 ∷ [], bob) ∷ [])
    ≡ 1 ∷ 0 ∷ 0 ∷ 0 ∷ 0 ∷ 0 ∷ 0 ∷ 0 ∷ 2 ∷ 7 ∷ 0 ∷ 0 ∷ 0 ∷ 0 ∷ 0 ∷ 0 ∷ 0 ∷ 0 ∷ 0 ∷ 0 ∷ 0 ∷ 0 ∷ 0 ∷ 0
      ∷ 0 ∷ 0 ∷ 0 ∷ 0 ∷ 0 ∷ 0 ∷ 0 ∷ 0 ∷ 0 ∷ 0 ∷ 0 ∷ 0 ∷ 0 ∷ 0 ∷ 0 ∷ 0 ∷ 0 ∷ []
unfolding calculate_state_root sort_accounts insert_sorted serialize_accounts serialize_account
    serialize_storage
root = refl

sorted : sort_accounts ((2 ∷ [], bob) ∷ (1 ∷ [], alice) ∷ []) ≡ state.accounts
unfolding sort_accounts insert_sorted lexicographical_compare
sorted = refl

calculate_state_root-SameTable_example :
    calculate_state_root (λ b. b) state.accounts
    ≡ calculate_state_root (λ b. b) ((2 ∷ [], bob) ∷ (1 ∷ [], alice) ∷ [])
calculate_state_root-SameTable_example =
    calculate_state_root-SameTable (λ b. b) state.accounts ((2 ∷ [], bob) ∷ (1 ∷ [], alice) ∷ [])
      (exchange (1 ∷ [], alice) (2 ∷ [], bob) [] (λ same. ground (arith, same)))

abbrev fresh : State
fresh = new_state (λ b. b)

abbrev records : Records
records = (1 ∷ [], payment) ∷ (2 ∷ [], payment) ∷ (1 ∷ [], to_self) ∷ []

get_account_history-record_all_example :
    (s' : State) × (record_all records fresh ≡ returned s')
    × ((a : Bytes) → get_account_history unlocked a s' ≡ returned (newest (of_account a records)))
get_account_history-record_all_example = get_account_history-record_all (λ b. b) records

relocking_undefined_example :
    (verify_transaction unlocked payment state ≡ undefined)
    × (apply_transaction unlocked payment state ≡ undefined)
    × (revert_transaction unlocked payment state ≡ undefined)
    × (apply_transactions unlocked (payment ∷ []) state ≡ undefined)
relocking_undefined_example = relocking_undefined unlocked payment [] state

-- A balance that is set is seen, and a rollback leaves it.
abbrev asked : List Call
asked = sets_balance (1 ∷ []) 9 ∷ rolls_back ∷ asks_balance (1 ∷ []) ∷ asks_nonce (3 ∷ []) ∷ []

run_answers_example :
    (answers : List Answer) × (s' : State) × (run (λ b. b) asked state ≡ returned (answers, s'))
    × ((answers, view s') ≡ spec_run asked (view state))
run_answers_example = run_answers (λ b. b) asked state

abbrev answers : List Answer
answers = done true ∷ done true ∷ number 9 ∷ number 0 ∷ []

answered : (spec_run asked (view state)).0 ≡ answers
answered = refl

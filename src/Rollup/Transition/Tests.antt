-- ===== src/Rollup/Transition/Tests.antt =====
-- Transitions and sequences on small states.
use quids_evm_cpp.Base.{◌≡◌, ◌↔◌, refl, true, [], ◌∷◌, returned}
use quids_evm_cpp.Blockchain.Transaction.{Transaction, new_transaction}
use quids_evm_cpp.Rollup.StateManager.{State, may_lock}
use quids_evm_cpp.Rollup.StateManager.Access.{get_state_root, get_previous_root, clone}
use quids_evm_cpp.Rollup.Transition.{apply_each, verify_transition, verify_transaction_sequence}
use quids_evm_cpp.Rollup.Transition.Checks.{IsAscending, verify_transaction_sequence_iff}

abbrev before : State
before = record {
  accounts = [];
  current_state_root = 1 ∷ [];
  previous_state_root = 0 ∷ [];
  history = [];
}

abbrev after : State
after = record before { previous_state_root = 1 ∷ [] }

abbrev first : Transaction
first = record (new_transaction 0 []) { nonce = 3 }

abbrev second : Transaction
second = record first { nonce = 8 }

-- With no transactions, an unchanged root is accepted.
accepts_same : verify_transition before after [] ≡ returned true
unfolding verify_transition apply_each get_state_root get_previous_root clone may_lock
accepts_same = refl

-- A gap between nonces is accepted.
gap_accepted : verify_transaction_sequence (first ∷ second ∷ []) ≡ true
unfolding verify_transaction_sequence
gap_accepted = refl

verify_transaction_sequence_iff_example :
    (verify_transaction_sequence (first ∷ second ∷ []) ≡ true) ↔ IsAscending (first ∷ second ∷ [])
verify_transaction_sequence_iff_example = verify_transaction_sequence_iff (first ∷ second ∷ [])

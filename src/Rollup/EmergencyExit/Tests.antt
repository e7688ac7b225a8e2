-- ===== src/Rollup/EmergencyExit/Tests.antt =====
-- An account that asks to leave, and one that is not there
use quids_evm_cpp.Base.{◌≡◌, refl, false, [], ◌∷◌, returned, list_eq, nat_eq}
use quids_evm_cpp.Rollup.StateManager.Accounts.{Account}
use quids_evm_cpp.Rollup.StateManager.{State, may_lock, get_account}
use quids_evm_cpp.Rollup.EmergencyExit.{EmergencyProof, process_exit, verify_proof, matches}

abbrev alice : Account
alice = record { address = 1 ∷ []; balance = 50; nonce = 4; code = []; storage = [] }

abbrev state : State
state = record {
  accounts = (1 ∷ [], alice) ∷ [];
  current_state_root = [];
  previous_state_root = [];
  history = [];
}

abbrev proof : EmergencyProof
proof = record {
  account_address = 1 ∷ [];
  state_root = 50 ∷ 4 ∷ [];
  signature = [];
  timestamp = 10;
}

missing_refused :
    process_exit 12 (record proof { account_address = 2 ∷ [] }) state ≡ returned (false, state)
unfolding process_exit verify_proof get_account may_lock matches
missing_refused = refl

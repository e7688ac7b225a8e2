-- ===== src/Rollup/FraudProof/Tests.antt =====
-- An account that pays another, and a claimed state that only changes a code. The hash is the
-- identity, and a vector differs where it has a number above 0.
use quids_evm_cpp.Base.{
  ℕ, ◌≡◌, ◌↔◌, ◌||◌, refl, Bool, true, false, not, List, [], ◌∷◌, Bytes, returned, thrown, list_eq,
  nat_eq, ◌==◌, replicate, arith,
}
use quids_evm_cpp.Base.Dict.{Dict, find}
use quids_evm_cpp.Rollup.StateManager.{State, may_lock}
use quids_evm_cpp.Rollup.StateManager.Accounts.{Account, sort_accounts, insert_sorted}
use quids_evm_cpp.Rollup.StateManager.Access.{get_state_root, get_accounts_snapshot, clone}
use quids_evm_cpp.Rollup.FraudProof.{
  InvalidTransitionProof, verified, apply_all, verify_fraud_proof, verify_state_roots,
  verify_state_transition, verify_zkp_proof, encode_state_diff, state_vector, old_differences,
  new_differences, quantum_state, is_power, not_a_power,
}
use quids_evm_cpp.Rollup.FraudProof.Sizes.{IsPowerOf2, addresses, encode_state_diff_iff}
use quids_evm_cpp.Rollup.FraudProof.Differences.{AreZero, AreAlike, state_vector_zero_iff}

differs : List ℕ → Bool
differs [] = false
differs (x ∷ xs) = not (x == 0) || differs xs

abbrev alice : ℕ → Bytes → Account
alice balance code = record {
  address = 1 ∷ [];
  balance = balance;
  nonce = 4;
  code = code;
  storage = [];
}

abbrev state : ℕ → Bytes → State
state balance code = record {
  accounts = (1 ∷ [], alice balance code) ∷ [];
  current_state_root = replicate 32 balance;
  previous_state_root = [];
  history = [];
}

abbrev proof : InvalidTransitionProof
proof = record {
  pre_state_root = replicate 32 50;
  post_state_root = replicate 32 50;
  transactions = [];
  pre_state = state 50 [];
  post_state = state 50 (7 ∷ []);
  validity_proof = [];
}

-- Money from nowhere
stolen : InvalidTransitionProof
stolen = record proof { post_state = state 90 []; post_state_root = replicate 32 90 }

stolen_found : verify_fraud_proof differs (λ b v. true) stolen ≡ returned (true, verified)
unfolding differs stolen verify_fraud_proof verify_state_roots verify_state_transition
    verify_zkp_proof encode_state_diff state_vector old_differences new_differences quantum_state
    is_power apply_all get_state_root get_accounts_snapshot clone may_lock sort_accounts
    insert_sorted
stolen_found = refl

abbrev before : Dict Bytes Account
before = (1 ∷ [], alice 50 []) ∷ []

abbrev recoded : Dict Bytes Account
recoded = (1 ∷ [], alice 50 (7 ∷ [])) ∷ []

state_vector_zero_iff_example :
    AreZero (state_vector before recoded)
    ↔ ((a : Bytes) → AreAlike (find a before) (find a recoded))
state_vector_zero_iff_example =
    state_vector_zero_iff before recoded (refl, tt) (refl, tt) (omega arith, omega arith, tt)
      (omega arith, omega arith, tt)

-- Three accounts make a vector of six numbers.
three_refused : quantum_state (0 ∷ 0 ∷ 0 ∷ 0 ∷ 0 ∷ 5 ∷ []) ≡ thrown not_a_power
unfolding quantum_state is_power
three_refused = refl

-- One account, which changes its code
encode_state_diff_iff_example :
    (encode_state_diff (state 50 []) (state 50 (7 ∷ []))
      ≡ returned (
          state_vector
            (sort_accounts (state 50 []).accounts)
            (sort_accounts (state 50 (7 ∷ [])).accounts)))
    ↔ IsPowerOf2 (
        addresses
          (sort_accounts (state 50 []).accounts)
          (sort_accounts (state 50 (7 ∷ [])).accounts))
encode_state_diff_iff_example = encode_state_diff_iff (state 50 []) (state 50 (7 ∷ []))

one_address :
    addresses (sort_accounts (state 50 []).accounts) (sort_accounts (state 50 (7 ∷ [])).accounts)
    ≡ 1
unfolding sort_accounts insert_sorted
one_address = refl

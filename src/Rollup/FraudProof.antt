-- ===== src/Rollup/FraudProof.antt =====
-- src/rollup/FraudProof.cpp: proofs that a transition of the rollup's state was wrong. The quantum
-- state made from a vector, its norm and the proofs about it compute in floating point and are
-- parameters, `differs` and `verify_proof`; the vector itself holds exact uint64_t, and its size is
-- checked as the constructor of QuantumState does.
pub mod Differences
pub mod Sizes
mod Tests
use quids_evm_cpp.Base.{
  ℕ, zero, suc, ◌+◌, ◌-◌, ◌%◌, ◌/◌, ◌==◌, Bool, true, false, not, Option, none, some, List, [], ◌∷◌,
  ◌++◌, Bytes, u64_mod, Outcome, returned, thrown, undefined, list_eq, nat_eq, list_beq, ltb,
  if◌then◌else◌, length, take,
}
use quids_evm_cpp.Base.Dict.{Dict, find, contains}
use quids_evm_cpp.Blockchain.Transaction.{Transaction}
use quids_evm_cpp.Rollup.StateManager.{State, unlocked, apply_transaction}
use quids_evm_cpp.Rollup.StateManager.Accounts.{Account}
use quids_evm_cpp.Rollup.StateManager.Access.{get_state_root, get_accounts_snapshot, clone}

-- `InvalidTransitionProof` with its `StateProof`: the roots have 32 bytes.
pub record InvalidTransitionProof : Type 0 where
  pub pre_state_root : Bytes
  pub post_state_root : Bytes
  pub transactions : List Transaction
  pub pre_state : State
  pub post_state : State
  pub validity_proof : Bytes

-- `message` of a `FraudVerificationResult`
pub data Message : Type 0 where
  roots_failed transition_failed zkp_failed verified : Message

-- The std::runtime_error of the two roots, and the std::invalid_argument of QuantumState
pub data Error : Type 0 where
  invalid_pre_root invalid_post_root not_a_power : Error

infixl 5 ◌>>=◌
abbrev pub ◌>>=◌ : {A B : Type 0} → Outcome Error A → (A → Outcome Error B) → Outcome Error B
returned a >>= f = f a
thrown e >>= f = thrown e
undefined >>= f = undefined

-- A call of the state manager, which does not throw
abbrev pub called : {A : Type 0} → Outcome ⊥ A → Outcome Error A
called (returned a) = returned a
called (thrown e) = elim e [ ]
called undefined = undefined

-- An account of the first state beside that of the second, in front of the other differences
abbrev pub old_difference : Account → Option Account → List ℕ → List ℕ
old_difference pre_account (some post_account) rest =
    (post_account.balance + (u64_mod - pre_account.balance)) % u64_mod
    ∷ (post_account.nonce + (u64_mod - pre_account.nonce)) % u64_mod
    ∷ rest
old_difference pre_account none rest =
    (u64_mod - pre_account.balance) % u64_mod ∷ (u64_mod - pre_account.nonce) % u64_mod ∷ rest

-- The accounts of the first state
unfoldable pub old_differences : Dict Bytes Account → Dict Bytes Account → List ℕ
old_differences [] post_accounts = []
old_differences ((address, pre_account) ∷ pre_accounts) post_accounts =
    old_difference pre_account (find address post_accounts)
      (old_differences pre_accounts post_accounts)

-- The accounts that only the second state has
unfoldable pub new_differences : Dict Bytes Account → Dict Bytes Account → List ℕ
new_differences [] pre_accounts = []
new_differences ((address, post_account) ∷ post_accounts) pre_accounts =
    let rest = new_differences post_accounts pre_accounts in
    if contains address pre_accounts then rest else post_account.balance ∷ post_account.nonce ∷ rest

-- `state_vector` of encode_state_diff
unfoldable pub state_vector : Dict Bytes Account → Dict Bytes Account → List ℕ
unfolding old_differences new_differences
state_vector pre_accounts post_accounts =
    old_differences pre_accounts post_accounts ++ new_differences post_accounts pre_accounts

-- Whether a size is a power of 2, by halving it `fuel` times at most
unfoldable pub is_power : (fuel size : ℕ) → Bool
is_power zero size = false
is_power (suc fuel) size =
    let half = is_power fuel (size / 2) in
    if size == 1 then true else if size % 2 == 0 then half else false

-- The constructor of QuantumState: std::log2(0) is -inf, whose cast to size_t is undefined.
unfoldable pub quantum_state : List ℕ → Outcome Error (List ℕ)
unfolding is_power
quantum_state [] = undefined
quantum_state (x ∷ vector) =
    if is_power (length (x ∷ vector)) (length (x ∷ vector))
    then returned (x ∷ vector)
    else thrown not_a_power

unfoldable pub encode_state_diff : State → State → Outcome Error (List ℕ)
unfolding get_accounts_snapshot state_vector quantum_state
encode_state_diff pre_state post_state = do
  pre_accounts ← called (get_accounts_snapshot unlocked pre_state)
  post_accounts ← called (get_accounts_snapshot unlocked post_state)
  quantum_state (state_vector pre_accounts post_accounts)

-- A state's root against a proof's
abbrev pub root_matches : Error → State → Bytes → Outcome Error Bool
root_matches error state expected = do
  root ← called (get_state_root unlocked state)
  if ltb (length root) 32 then thrown error else returned (list_beq (take 32 root) expected)

unfoldable pub verify_state_roots : InvalidTransitionProof → Outcome Error Bool
unfolding get_state_root
verify_state_roots proof = do
  pre_matches ← root_matches invalid_pre_root proof.pre_state proof.pre_state_root
  if not pre_matches
      then returned false
      else root_matches invalid_post_root proof.post_state proof.post_state_root

-- The loop over the transactions
unfoldable pub apply_all : List Transaction → State → Outcome Error (Bool × State)
unfolding apply_transaction
apply_all [] temp_state = returned (true, temp_state)
apply_all (tx ∷ transactions) temp_state = do
  (applied, after) ← called (apply_transaction unlocked tx temp_state)
  elim applied [ false ↦ returned (false, after) | true ↦ apply_all transactions after ]

unfoldable pub verify_state_transition :
    (List ℕ → Bool) → InvalidTransitionProof → Outcome Error Bool
unfolding clone apply_all encode_state_diff
verify_state_transition differs proof = do
  temp_state ← called (clone unlocked proof.pre_state)
  (applied, after) ← apply_all proof.transactions temp_state
  if not applied
      then returned false
      else (do vector ← encode_state_diff after proof.post_state; returned (differs vector))

unfoldable pub verify_zkp_proof :
    (Bytes → List ℕ → Bool) → InvalidTransitionProof → Outcome Error Bool
unfolding encode_state_diff
verify_zkp_proof verify_proof proof = do
  vector ← encode_state_diff proof.pre_state proof.post_state
  returned (verify_proof proof.validity_proof vector)

unfoldable pub verify_fraud_proof :
    (List ℕ → Bool)
    → (Bytes → List ℕ → Bool)
    → InvalidTransitionProof
    → Outcome Error (Bool × Message)
unfolding verify_state_roots verify_state_transition verify_zkp_proof
verify_fraud_proof differs verify_proof proof = do
  roots ← verify_state_roots proof
  if not roots then returned (false, roots_failed) else (do
    transition ← verify_state_transition differs proof
    if not transition then returned (false, transition_failed) else (do
      zkp ← verify_zkp_proof verify_proof proof
      if not zkp then returned (false, zkp_failed) else returned (true, verified)))

-- `generate_fraud_proof`, where `generate_proof` is the generator's
unfoldable pub generate_fraud_proof :
    (List ℕ → Bytes) → State → State → List Transaction → Outcome Error InvalidTransitionProof
unfolding clone encode_state_diff get_state_root
generate_fraud_proof generate_proof pre_state post_state transactions = do
  pre_copy ← called (clone unlocked pre_state)
  post_copy ← called (clone unlocked post_state)
  vector ← encode_state_diff pre_state post_state
  pre_root ← called (get_state_root unlocked pre_state)
  if ltb (length pre_root) 32 then thrown invalid_pre_root else (do
    post_root ← called (get_state_root unlocked post_state)
    if ltb (length post_root) 32
        then thrown invalid_post_root
        else returned (record {
          pre_state_root = take 32 pre_root;
          post_state_root = take 32 post_root;
          transactions = transactions;
          pre_state = pre_copy;
          post_state = post_copy;
          validity_proof = generate_proof vector;
        }))

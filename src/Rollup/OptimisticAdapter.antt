-- ===== src/Rollup/OptimisticAdapter.antt =====
-- src/rollup/OptimisticAdapter.cpp: proofs that stand until they are challenged. The clock is
-- a parameter.
mod Tests
use quids_evm_cpp.Base.{
  ℕ, ◌+◌, ◌*◌, Bool, true, false, not, List, [], ◌∷◌, Bytes, Outcome, returned, list_eq, nat_eq,
  list_beq, ltb, if◌then◌else◌, length, take,
}
use quids_evm_cpp.Blockchain.Transaction.{Transaction}
use quids_evm_cpp.Rollup.StateManager.{State, Mode, unlocked, new_state, apply_transaction, ◌>>=◌}
use quids_evm_cpp.Rollup.StateManager.Access.{get_state_root}

-- `StateTransitionProof` of RollupStateTransition.hpp: the roots and the batch hash have 32 bytes.
pub record StateTransitionProof : Type 0 where
  pub pre_state_root : Bytes
  pub post_state_root : Bytes
  pub transactions : List Transaction
  pub proof_data : Bytes
  pub timestamp : ℕ
  pub batch_number : ℕ
  pub batch_hash : Bytes

-- `OptimisticProof`
pub record OptimisticProof : Type 0 where
  pub zk_proof : StateTransitionProof
  pub challenge_period_end : ℕ
  pub has_fraud_proof : Bool

-- The clock counts seconds.
abbrev pub week : ℕ
week = 24 * 7 * 3600

unfoldable pub convert_to_optimistic : ℕ → StateTransitionProof → OptimisticProof
convert_to_optimistic now zk_proof = record {
  zk_proof = zk_proof;
  challenge_period_end = now + week;
  has_fraud_proof = false;
}

-- `verify_state_transition` after its transactions are applied
abbrev pub compare_roots : StateTransitionProof → Bytes → Bool
compare_roots proof state_root =
    if ltb (length state_root) 32
    then false
    else list_beq proof.post_state_root (take 32 state_root)

-- The loop that both functions have, over `temp_state`
unfoldable pub apply_all : List Transaction → State → Outcome ⊥ (Bool × State)
unfolding apply_transaction
apply_all [] temp_state = returned (true, temp_state)
apply_all (tx ∷ transactions) temp_state = do
  (applied, after) ← apply_transaction unlocked tx temp_state
  elim applied [ false ↦ returned (false, after) | true ↦ apply_all transactions after ]

unfoldable pub verify_optimistic_proof : (Bytes → Bytes) → OptimisticProof → State → Outcome ⊥ Bool
unfolding apply_all
verify_optimistic_proof blake3 proof state_manager = do
  (applied, after) ← apply_all proof.zk_proof.transactions (new_state blake3)
  returned applied

unfoldable pub verify_state_transition :
    (Bytes → Bytes) → StateTransitionProof → State → Outcome ⊥ Bool
unfolding apply_all get_state_root
verify_state_transition blake3 proof state_manager = do
  current_state_root ← get_state_root unlocked state_manager
  if ltb (length current_state_root) 32
      then returned false
      else if not (list_beq proof.pre_state_root (take 32 current_state_root))
      then returned false
      else (do
        (applied, after) ← apply_all proof.transactions (new_state blake3)
        if not applied then returned false else (do
          state_root ← get_state_root unlocked after
          returned (compare_roots proof state_root)))

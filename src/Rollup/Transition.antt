-- ===== src/Rollup/Transition.antt =====
-- src/rollup/RollupStateTransition.cpp: the check of a transition between two states of the rollup,
-- the check of a transaction sequence, and the two hashes.
pub mod Checks
mod Tests
use quids_evm_cpp.Base.{
  ℕ, Bool, true, false, not, List, [], ◌∷◌, ◌++◌, Bytes, Outcome, returned, nat_eq, list_beq, leb,
  if◌then◌else◌, take,
}
use quids_evm_cpp.Blockchain.Transaction.{Transaction, serialize}
use quids_evm_cpp.Rollup.StateManager.{State, unlocked, apply_transaction, ◌>>=◌}
use quids_evm_cpp.Rollup.StateManager.Access.{get_state_root, get_previous_root, clone}

-- The loop of `verify_transition`
unfoldable pub apply_each : List Transaction → State → Outcome ⊥ (Bool × State)
apply_each [] s = returned (true, s)
apply_each (tx ∷ txs) s = do
  (applied, s') ← apply_transaction unlocked tx s
  elim applied [ true ↦ apply_each txs s' | false ↦ returned (false, s') ]

unfoldable pub verify_transition : State → State → List Transaction → Outcome ⊥ Bool
unfolding apply_each
verify_transition pre_state post_state txs = do
  pre_root ← get_state_root unlocked pre_state
  previous_root ← get_previous_root unlocked post_state
  if not (list_beq pre_root previous_root) then returned false else do
    copy ← clone unlocked pre_state
    (applied, temp_state) ← apply_each txs copy
    if not applied then returned false else do
      temp_root ← get_state_root unlocked temp_state
      post_root ← get_state_root unlocked post_state
      returned (list_beq temp_root post_root)

-- `compute_post_state_root`: the first 32 bytes of the root; a root from BLAKE3 has 32.
unfoldable pub compute_post_state_root : List Transaction → State → Outcome ⊥ Bytes
compute_post_state_root batch state = do
  root ← get_state_root unlocked state
  returned (take 32 root)

-- The loop of `verify_transaction_sequence`, with the transaction before
abbrev pub follows : ℕ → List Transaction → Bool
follows nonce [] = true
follows nonce (tx ∷ txs) =
    let rest = follows tx.nonce txs in if leb tx.nonce nonce then false else rest

unfoldable pub verify_transaction_sequence : List Transaction → Bool
verify_transaction_sequence [] = true
verify_transaction_sequence (tx ∷ txs) = follows tx.nonce txs

-- The updates of the hasher in `compute_batch_hash`
unfoldable pub batch_bytes : List Transaction → Bytes
batch_bytes [] = []
batch_bytes (tx ∷ batch) = serialize tx ++ batch_bytes batch

unfoldable pub compute_batch_hash : (Bytes → Bytes) → List Transaction → Bytes
unfolding batch_bytes
compute_batch_hash blake3 batch = blake3 (batch_bytes batch)

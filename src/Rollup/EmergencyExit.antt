-- ===== src/Rollup/EmergencyExit.antt =====
-- src/rollup/EmergencyExit.cpp and include/rollup/EmergencyExit.hpp: leaving the rollup with a proof
-- of one's account. `now` is what the clock shows.
pub mod Exits
mod Tests
use quids_evm_cpp.Base.{
  ℕ, ◌+◌, ◌%◌, Bool, true, false, not, Option, none, some, List, [], ◌∷◌, ◌++◌, Bytes, u64_mod,
  Outcome, returned, undefined, nat_eq, list_beq, ltb, if◌then◌else◌,
}
use quids_evm_cpp.Base.Encoding.{le_bytes}
use quids_evm_cpp.Rollup.StateManager.Accounts.{Account}
use quids_evm_cpp.Rollup.StateManager.{State, unlocked, get_account, ◌>>=◌}
use quids_evm_cpp.Rollup.StateManager.Access.{set_balance, set_nonce}

pub record EmergencyProof : Type 0 where
  pub account_address : Bytes
  pub state_root : Bytes
  pub signature : Bytes
  pub timestamp : ℕ

-- The bytes that stand in for a signature
unfoldable pub message : Bytes → ℕ → Bytes → Bytes
message account_address timestamp state_root =
    account_address ++ (le_bytes 8 timestamp ++ state_root)

-- `encode_state`: it makes a QuantumState of 128 qubits, whose constructor computes 1 << 128 in an
-- int, which is undefined. What would follow, the gates and the bytes of the amplitudes, is never
-- reached.
unfoldable pub encode_state : ℕ → ℕ → Outcome ⊥ Bytes
encode_state balance nonce = undefined

-- `verify_proof` after it has looked for the account
unfoldable pub matches : EmergencyProof → Option Account → Outcome ⊥ Bool
unfolding encode_state message
matches proof none = returned false
matches proof (some account) = do
  state_root ← encode_state account.balance account.nonce
  returned (
      if not (list_beq state_root proof.state_root)
      then false
      else list_beq (message proof.account_address proof.timestamp proof.state_root)
          proof.signature)

unfoldable pub verify_proof : ℕ → EmergencyProof → State → Outcome ⊥ Bool
unfolding matches get_account
verify_proof now proof s =
    if ltb now proof.timestamp
    then returned false
    else get_account unlocked proof.account_address s >>= λ account. matches proof account

-- `process_exit` behind the check of the proof
abbrev pub exit_to : EmergencyProof → Option Account → State → Outcome ⊥ (Bool × State)
exit_to proof none s = returned (false, s)
exit_to proof (some account) s = do
  (emptied, s1) ← set_balance unlocked proof.account_address 0 s
  if not emptied
      then returned (false, s1)
      else set_nonce unlocked proof.account_address ((account.nonce + 1) % u64_mod) s1

unfoldable pub process_exit : ℕ → EmergencyProof → State → Outcome ⊥ (Bool × State)
unfolding verify_proof
process_exit now proof s = do
  verified ← verify_proof now proof s
  if not verified
      then returned (false, s)
      else (get_account unlocked proof.account_address s >>= λ account. exit_to proof account s)

-- The proof for an account; for none the function throws, which is `none`.
unfoldable pub proof_for : ℕ → Bytes → Option Account → Outcome ⊥ (Option EmergencyProof)
unfolding encode_state message
proof_for now account_address none = returned none
proof_for now account_address (some account) = do
  state_root ← encode_state account.balance account.nonce
  returned (
      some (record {
        account_address = account_address;
        state_root = state_root;
        signature = message account_address now state_root;
        timestamp = now;
      }))

unfoldable pub generate_proof : ℕ → Bytes → State → Outcome ⊥ (Option EmergencyProof)
unfolding proof_for get_account
generate_proof now account_address s =
    get_account unlocked account_address s >>= λ account. proof_for now account_address account

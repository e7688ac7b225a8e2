-- ===== src/Rollup/L1Bridge.antt =====
-- src/rollup/L1Bridge.cpp: commitments of batches, and the messages to the rollup. BLAKE3 is a
-- parameter; the clock, the proof aggregator and the network take no part.
pub mod Commitments
mod Tests
use quids_evm_cpp.Base.{
  ℕ, ◌*◌, ◌%◌, Bool, true, false, not, ◌||◌, List, [], ◌∷◌, ◌++◌, Bytes, u64_mod, Outcome, returned,
  undefined, list_eq, nat_eq, list_beq, ltb, ◌==◌, if◌then◌else◌, length, take,
}

-- `L1Commitment`: the two arrays have 32 bytes.
pub record L1Commitment : Type 0 where
  pub state_root : Bytes
  pub batch_hash : Bytes
  pub batch_size : ℕ
  pub aggregated_proof : Bytes

-- The loop over the two arrays, which have the same length: whether either has a byte that is not 0
unfoldable pub has_valid_roots : Bytes → Bytes → Bool
has_valid_roots [] batch_hash = false
has_valid_roots (s ∷ state_root) [] = false
has_valid_roots (s ∷ state_root) (b ∷ batch_hash) =
    not (s == 0) || (not (b == 0) || has_valid_roots state_root batch_hash)

-- memcmp of 32 bytes, which reads a vector that may be shorter
abbrev pub memcmp_32 : Bytes → Bytes → Outcome ⊥ Bool
memcmp_32 expected bytes =
    if ltb (length bytes) 32 then undefined else returned (list_beq expected (take 32 bytes))

module _ (blake3 : Bytes → Bytes) where
  unfoldable pub verify_commitment : L1Commitment → Outcome ⊥ Bool
  unfolding has_valid_roots
  verify_commitment c =
      if not (length c.aggregated_proof == (c.batch_size * 32) % u64_mod)
      then returned false
      else if not (has_valid_roots c.state_root c.batch_hash)
      then returned false
      else memcmp_32 (blake3 (c.state_root ++ c.batch_hash)) c.aggregated_proof

-- `pending_messages_`
unfoldable pub send_message_to_l2 : Bytes → List Bytes → List Bytes
send_message_to_l2 message pending_messages = pending_messages ++ (message ∷ [])

-- The loop that takes every message and drops it
unfoldable pub process_l2_messages : List Bytes → List Bytes
process_l2_messages [] = []
process_l2_messages (message ∷ pending_messages) = process_l2_messages pending_messages

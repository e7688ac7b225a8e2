-- ===== src/Rollup/CrossRollupBridge.antt =====
-- src/rollup/CrossRollupBridge.cpp: the messages between rollups, known by their hashes. SHA-256 is
-- OpenSSL's and a parameter; the exceptions for contexts that OpenSSL cannot make are left out.
pub mod Messages
mod Tests
use quids_evm_cpp.Base.{
  ℕ, Bool, true, false, ◌||◌, List, [], ◌∷◌, ◌++◌, Bytes, list_eq, nat_eq, list_beq,
}
use quids_evm_cpp.Base.Encoding.{le_bytes}

-- `CrossRollupMessage`; the ids are uint32_t.
pub record CrossRollupMessage : Type 0 where
  pub source_chain_id : ℕ
  pub destination_chain_id : ℕ
  pub payload : Bytes
  pub validity_proof : Bytes

unfoldable pub hashed_bytes : CrossRollupMessage → Bytes
hashed_bytes message =
    le_bytes 4 message.source_chain_id
    ++ (le_bytes 4 message.destination_chain_id ++ message.payload)

-- std::find over the hashes
abbrev pub found : Bytes → List Bytes → Bool
found hash [] = false
found hash (h ∷ hashes) = list_beq h hash || found hash hashes

module _ (sha256 : Bytes → Bytes) where
  unfoldable pub compute_message_hash : CrossRollupMessage → Bytes
  unfolding hashed_bytes
  compute_message_hash message = sha256 (hashed_bytes message)

  -- `message_hashes_` is all that the bridge keeps.
  unfoldable pub send_message : CrossRollupMessage → List Bytes → List Bytes
  unfolding compute_message_hash
  send_message message message_hashes = message_hashes ++ (compute_message_hash message ∷ [])

  unfoldable pub verify_incoming_message : CrossRollupMessage → List Bytes → Bool
  unfolding compute_message_hash
  verify_incoming_message message message_hashes =
      found (compute_message_hash message) message_hashes

  -- Messages sent one after another
  unfoldable pub send_all : List CrossRollupMessage → List Bytes → List Bytes
  unfolding send_message
  send_all [] message_hashes = message_hashes
  send_all (message ∷ messages) message_hashes =
      send_all messages (send_message message message_hashes)

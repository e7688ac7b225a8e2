-- ===== src/Rollup/CrossRollupBridge/Tests.antt =====
-- Two rollups and a message between them. The hash is the identity.
use quids_evm_cpp.Base.{◌≡◌, ◌⊎◌, refl, true, false, [], ◌∷◌, Bytes, arith}
use quids_evm_cpp.Rollup.CrossRollupBridge.{
  CrossRollupMessage, hashed_bytes, compute_message_hash, send_message, verify_incoming_message,
  send_all,
}
use quids_evm_cpp.Rollup.CrossRollupBridge.Messages.{Any, AreAlike, Collides, verified_was_sent}

abbrev identity : Bytes → Bytes
identity bytes = bytes

abbrev message : CrossRollupMessage
message = record {
  source_chain_id = 1;
  destination_chain_id = 2;
  payload = 7 ∷ [];
  validity_proof = [];
}

abbrev proven : CrossRollupMessage
proven = record message { validity_proof = 9 ∷ [] }

abbrev other : CrossRollupMessage
other = record message { payload = [] }

not_sent : verify_incoming_message identity other (send_all identity (message ∷ []) []) ≡ false
unfolding verify_incoming_message send_all send_message compute_message_hash hashed_bytes
not_sent = refl

verified : verify_incoming_message identity proven (send_all identity (message ∷ []) []) ≡ true
unfolding verify_incoming_message send_all send_message compute_message_hash hashed_bytes
verified = refl

verified_was_sent_example : Any (λ a. AreAlike a proven ⊎ Collides identity proven a) (message ∷ [])
verified_was_sent_example =
    verified_was_sent identity proven (message ∷ []) (omega arith, omega arith)
      ((omega arith, omega arith), tt) verified

-- ===== src/Rollup/L1Bridge/Tests.antt =====
-- A commitment of one transaction. The hash keeps 32 bytes.
use quids_evm_cpp.Base.{◌≡◌, refl, [], ◌∷◌, Bytes, undefined, replicate, take}
use quids_evm_cpp.Rollup.L1Bridge.{
  L1Commitment, has_valid_roots, verify_commitment, send_message_to_l2, process_l2_messages,
}
use quids_evm_cpp.Rollup.L1Bridge.Commitments.{AreZero}

abbrev blake3 : Bytes → Bytes
blake3 bytes = take 32 bytes

abbrev commitment : L1Commitment
commitment = record {
  state_root = replicate 32 0;
  batch_hash = replicate 32 1;
  batch_size = 1;
  aggregated_proof = replicate 32 0;
}

zeros : AreZero commitment.state_root
zeros = search refl

empty_batch :
    verify_commitment blake3 (record commitment { batch_size = 0; aggregated_proof = [] })
    ≡ undefined
unfolding verify_commitment has_valid_roots
empty_batch = refl

dropped : process_l2_messages (send_message_to_l2 (1 ∷ []) []) ≡ []
unfolding process_l2_messages send_message_to_l2
dropped = refl

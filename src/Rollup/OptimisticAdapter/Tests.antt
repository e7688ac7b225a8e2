-- ===== src/Rollup/OptimisticAdapter/Tests.antt =====
-- A transition without transactions, and one with. The hash is the identity.
use quids_evm_cpp.Base.{◌+◌, ◌≡◌, refl, false, [], ◌∷◌, Bytes, replicate}
use quids_evm_cpp.Blockchain.Transaction.{new_transaction}
use quids_evm_cpp.Rollup.OptimisticAdapter.{
  StateTransitionProof, OptimisticProof, convert_to_optimistic, week,
}

abbrev blake3 : Bytes → Bytes
blake3 bytes = replicate 32 0

abbrev zk_proof : StateTransitionProof
zk_proof = record {
  pre_state_root = replicate 32 0;
  post_state_root = replicate 32 0;
  transactions = new_transaction 0 [] ∷ [];
  proof_data = [];
  timestamp = 0;
  batch_number = 0;
  batch_hash = replicate 32 0;
}

abbrev proof : OptimisticProof
proof = record { zk_proof = zk_proof; challenge_period_end = 5 + week; has_fraud_proof = false }

converted : convert_to_optimistic 5 zk_proof ≡ proof
unfolding convert_to_optimistic
converted = refl

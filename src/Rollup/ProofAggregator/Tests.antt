-- ===== src/Rollup/ProofAggregator/Tests.antt =====
-- A hash of 32 bytes that sums what it is given.
use quids_evm_cpp.Base.{
  ℕ, ◌+◌, ◌*◌, ◌%◌, ◌≡◌, refl, true, some, List, [], ◌∷◌, ◌++◌, Bytes, returned, length, replicate,
  list_eq, nat_eq, arith,
}
use quids_evm_cpp.Rollup.ProofAggregator.{
  Proof, compute_proof_merkle_root, aggregate_proofs, verify_aggregated_proof,
}
use quids_evm_cpp.Rollup.ProofAggregator.Split.{root-append}
use quids_evm_cpp.Rollup.ProofAggregator.Checks.{
  verify_forged, verify_aggregated_proof-aggregate_proofs,
}

abbrev sum : Bytes → ℕ
sum [] = 1
sum (b ∷ bytes) = (b + 3 * sum bytes) % 256

abbrev digest : Bytes → Bytes
digest bytes = sum bytes ∷ replicate 31 0

digest_size : (bytes : Bytes) → length (digest bytes) ≡ 32
digest_size bytes = refl

abbrev proof : ℕ → Proof
proof n = record { proof_data = n ∷ [] }

abbrev wrong : Bytes
wrong = replicate 40 0

abbrev two : List Proof
two = proof 4 ∷ proof 5 ∷ []

abbrev one : List Proof
one = proof 6 ∷ []

-- The root of one proof is its hash, and the loop runs over three of them.
root_one : compute_proof_merkle_root digest one ≡ some (digest (6 ∷ []))
unfolding compute_proof_merkle_root
root_one = refl

root_three :
    compute_proof_merkle_root digest (two ++ one)
    ≡ some (digest (digest (digest (4 ∷ []) ++ digest (5 ∷ [])) ++ digest (6 ∷ [])))
unfolding compute_proof_merkle_root
root_three = refl

root-append_example :
    (left : Bytes) × (right : Bytes) × (compute_proof_merkle_root digest two ≡ some left)
    × (compute_proof_merkle_root digest one ≡ some right)
    × (compute_proof_merkle_root digest (two ++ one) ≡ some (digest (left ++ right)))
root-append_example = root-append digest 1 two one refl (omega arith) (omega arith)

root_two : compute_proof_merkle_root digest two ≡ some (digest (digest (4 ∷ []) ++ digest (5 ∷ [])))
unfolding compute_proof_merkle_root
root_two = refl

verify_forged_example :
    verify_aggregated_proof digest wrong (two ++ one)
    ≡ verify_aggregated_proof digest wrong (
        record { proof_data = digest (digest (4 ∷ []) ++ digest (5 ∷ [])) ++ digest (6 ∷ []) } ∷ [])
verify_forged_example =
    verify_forged digest 1 wrong two one (digest (digest (4 ∷ []) ++ digest (5 ∷ [])))
      (digest (6 ∷ [])) refl (omega arith) (omega arith) root_two root_one

verify_aggregated_proof-aggregate_proofs_example :
    (aggregated : Bytes) × (aggregate_proofs digest (two ++ one) ≡ returned aggregated)
    × (verify_aggregated_proof digest aggregated (two ++ one) ≡ returned true)
verify_aggregated_proof-aggregate_proofs_example =
    verify_aggregated_proof-aggregate_proofs digest digest_size (two ++ one) (omega arith)

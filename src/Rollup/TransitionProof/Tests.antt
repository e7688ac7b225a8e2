-- ===== src/Rollup/TransitionProof/Tests.antt =====
-- A small proof, its binary form and its hash.
use quids_evm_cpp.Base.{◌≡◌, refl, true, some, [], ◌∷◌, ◌++◌, Bytes, replicate, arith}
use quids_evm_cpp.Rollup.TransitionProof.{
  ProofData, add_vector, verify, serialize, read_vector, deserialize,
}
use quids_evm_cpp.Rollup.TransitionProof.Decoding.{HasRoots, HasSizes, deserialize-serialize}
use quids_evm_cpp.Rollup.TransitionProof.Inversion.{deserialize-inverts}

abbrev small : ProofData
small = record {
  pre_state_root = replicate 32 1;
  post_state_root = replicate 32 2;
  transactions_root = replicate 32 3;
  zk_proof = 4 ∷ [];
  quantum_signature = 5 ∷ 6 ∷ [];
}

abbrev small_bytes : Bytes
small_bytes =
    replicate 32 1
    ++ (replicate 32 2 ++ (replicate 32 3 ++ (1 ∷ 0 ∷ 0 ∷ 0 ∷ 4 ∷ 2 ∷ 0 ∷ 0 ∷ 0 ∷ 5 ∷ 6 ∷ [])))

small_written : serialize small ≡ small_bytes
unfolding serialize add_vector
small_written = refl

small_read : deserialize small_bytes ≡ some small
unfolding deserialize read_vector
small_read = refl

deserialize-serialize_example : deserialize (serialize small) ≡ some small
deserialize-serialize_example =
    deserialize-serialize small (refl, refl, refl) (omega arith, omega arith)

deserialize-inverts_example :
    HasRoots small × HasSizes small × ((rest : Bytes) × (small_bytes ≡ serialize small ++ rest))
deserialize-inverts_example =
    deserialize-inverts small_bytes small (ground arith) (omega arith) small_read

verified : verify small ≡ true
unfolding verify
verified = refl

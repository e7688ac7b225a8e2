-- ===== src/Rollup/TransitionProof.antt =====
-- src/rollup/StateTransitionProof.cpp and include/rollup/StateTransitionProof.hpp: the proof of a
-- state transition, its hash and its binary form.
pub mod Decoding
pub mod Inversion
pub mod Hashing
mod Tests
use quids_evm_cpp.Base.{
  ℕ, ◌+◌, ◌*◌, ◌%◌, ◌^◌, Bool, true, false, not, ◌&&◌, Option, none, some, List, [], ◌∷◌, ◌++◌,
  Bytes, u64_mod, ltb, if◌then◌else◌, length, empty, take, drop,
}
use quids_evm_cpp.Base.Encoding.{le_bytes, le_value}

-- `ProofData`, the one member of `StateTransitionProof`; a root is an array of 32 bytes.
pub record ProofData : Type 0 where
  pub pre_state_root : Bytes
  pub post_state_root : Bytes
  pub transactions_root : Bytes
  pub zk_proof : Bytes
  pub quantum_signature : Bytes

unfoldable pub verify : ProofData → Bool
verify proof = not (empty proof.zk_proof) && not (empty proof.quantum_signature)

-- "QUIDS_STATE_TRANSITION_PROOF_V1"
abbrev pub context : Bytes
context =
    81 ∷ 85 ∷ 73 ∷ 68 ∷ 83 ∷ 95 ∷ 83 ∷ 84 ∷ 65 ∷ 84 ∷ 69 ∷ 95 ∷ 84 ∷ 82 ∷ 65 ∷ 78 ∷ 83 ∷ 73 ∷ 84
    ∷ 73 ∷ 79 ∷ 78 ∷ 95 ∷ 80 ∷ 82 ∷ 79 ∷ 79 ∷ 70 ∷ 95 ∷ 86 ∷ 49 ∷ []

-- What the hasher is given, one update after the other.
unfoldable pub hashed_bytes : ProofData → Bytes
hashed_bytes proof =
    context
    ++ (proof.pre_state_root
        ++ (proof.post_state_root
            ++ (proof.transactions_root
                ++ ((if not (empty proof.zk_proof) then proof.zk_proof else [])
                    ++ (if not (empty proof.quantum_signature)
                        then proof.quantum_signature
                        else [])))))

-- `computeHash`
unfoldable pub compute_hash : (Bytes → Bytes) → ProofData → Bytes
unfolding hashed_bytes
compute_hash blake3 proof = blake3 (hashed_bytes proof)

-- `addVector`: the size is a uint32_t.
unfoldable pub add_vector : Bytes → Bytes → Bytes
add_vector vec result = result ++ (le_bytes 4 (length vec % 2 ^ 32) ++ vec)

unfoldable pub serialize : ProofData → Bytes
unfolding add_vector
serialize proof =
    let roots = proof.pre_state_root ++ (proof.post_state_root ++ proof.transactions_root) in
    add_vector proof.quantum_signature (add_vector proof.zk_proof roots)

-- `readVector` at `pos`, with the position after it, also where there is no vector.
unfoldable pub read_vector : Bytes → ℕ → Option Bytes × ℕ
read_vector bytes pos =
    let size = le_value (take 4 (drop pos bytes)) in
    let start = (pos + 4) % u64_mod in
    if ltb (length bytes) start
    then (none, pos)
    else if ltb (length bytes) ((start + size) % u64_mod)
    then (none, start)
    else (some (take size (drop start bytes)), (start + size) % u64_mod)

-- Both vectors are read before either is tested.
unfoldable pub deserialize : Bytes → Option ProofData
unfolding read_vector
deserialize bytes =
    let (zk_proof, pos) = read_vector bytes 96 in
    let (quantum_signature, end) = read_vector bytes pos in
    if ltb (length bytes) (32 * 3) then none else elim zk_proof [
      | none ↦ none
      | some zk ↦ elim quantum_signature [
        | none ↦ none
        | some signature ↦ some (record {
          pre_state_root = take 32 bytes;
          post_state_root = take 32 (drop 32 bytes);
          transactions_root = take 32 (drop 64 bytes);
          zk_proof = zk;
          quantum_signature = signature;
        })
      ]
    ]

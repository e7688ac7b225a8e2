-- ===== src/Rollup/ProofAggregator.antt =====
-- src/rollup/ProofAggregator.cpp: the Merkle root over proofs. SHA-256 is OpenSSL's and a parameter;
-- the exceptions for contexts that OpenSSL cannot make are left out.
pub mod Tree
pub mod Split
pub mod Checks
mod Tests
use quids_evm_cpp.Base.{
  ℕ, zero, suc, ◌+◌, ◌*◌, ◌-◌, ◌/◌, ◌%◌, Bool, false, ◌||◌, Option, none, some, List, [], ◌∷◌, ◌++◌,
  ◌>>=◌, Bytes, Outcome, returned, thrown, undefined, list_eq, nat_eq, list_beq, ltb, ◌==◌,
  if◌then◌else◌, length, get_elem?, set, take, drop, empty, map,
}

-- `QZKPGenerator::Proof`, of which the aggregator reads the data
pub record Proof : Type 0 where
  pub proof_data : Bytes

-- `hashes[pairs] = hashes.back(); hashes.resize(pairs + 1);` or `hashes.resize(pairs);`
unfoldable pub shrink : (pairs : ℕ) → List Bytes → Option (List Bytes)
shrink pairs hashes =
    if length hashes % 2 == 1
    then (do
      back ← get_elem? hashes (length hashes - 1)
      some (take (pairs + 1) (set hashes pairs back)))
    else some (take pairs hashes)

pub all_data : List Proof → Bytes
all_data [] = []
all_data (p ∷ proofs) = p.proof_data ++ all_data proofs

module _ (sha256 : Bytes → Bytes) where
  abbrev pub hash_proofs : List Proof → List Bytes
  hash_proofs proofs = map (λ p. sha256 p.proof_data) proofs

  -- The loop over the pairs, from pair `i`, `count` of them: a hash is overwritten in place, and
  -- `none` is a read behind the end.
  unfoldable pub combine_pairs : (count i : ℕ) → List Bytes → Option (List Bytes)
  combine_pairs zero i hashes = some hashes
  combine_pairs (suc count) i hashes = do
    left ← get_elem? hashes (2 * i)
    right ← get_elem? hashes (2 * i + 1)
    combine_pairs count (i + 1) (set hashes i (sha256 (left ++ right)))

  -- The while loop, on fuel
  unfoldable pub build_tree : (fuel : ℕ) → List Bytes → Option (List Bytes)
  unfolding combine_pairs shrink
  build_tree zero hashes = none
  build_tree (suc fuel) hashes =
      if ltb 1 (length hashes)
      then (do
        combined ← combine_pairs (length hashes / 2) 0 hashes
        shrunk ← shrink (length hashes / 2) combined
        build_tree fuel shrunk)
      else some hashes

  -- A level has fewer hashes than the one before, so as much fuel as there are proofs is enough.
  unfoldable pub compute_proof_merkle_root : List Proof → Option Bytes
  unfolding build_tree
  compute_proof_merkle_root proofs = do
    hashes ← build_tree (suc (length proofs)) (hash_proofs proofs)
    get_elem? hashes 0

  unfoldable pub aggregate_proofs : List Proof → Outcome Bytes Bytes
  unfolding compute_proof_merkle_root
  aggregate_proofs proofs =
      if empty proofs then thrown [] else elim (compute_proof_merkle_root proofs) [
        | none ↦ undefined
        | some merkle_root ↦ returned (all_data proofs ++ merkle_root)
      ]

  unfoldable pub verify_aggregated_proof : Bytes → List Proof → Outcome Bytes Bool
  unfolding compute_proof_merkle_root
  verify_aggregated_proof aggregated_proof original_proofs =
      if empty original_proofs || ltb (length aggregated_proof) 32
      then returned false
      else elim (compute_proof_merkle_root original_proofs) [
        | none ↦ undefined
        | some expected_root ↦
            returned (list_beq (drop (length aggregated_proof - 32) aggregated_proof) expected_root)
      ]

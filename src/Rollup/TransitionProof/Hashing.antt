-- ===== src/Rollup/TransitionProof/Hashing.antt =====
-- What the hash of a proof does not tell apart.
use quids_evm_cpp.Base.{
  ◌≡◌, refl, sym, ap, ◌∙◌, true, false, not, ◌&&◌, [], ◌∷◌, ◌++◌, Bytes, empty, if◌then◌else◌,
}
use mathlib.Core.List.{append_assoc}
use quids_evm_cpp.Rollup.TransitionProof.{ProofData, context, verify, hashed_bytes, compute_hash}

vectors :
    (a b : Bytes) → (if not (empty a) then a else []) ++ (if not (empty b) then b else []) ≡ a ++ b
vectors [] [] = refl
vectors [] (y ∷ b) = refl
vectors (x ∷ a) [] = refl
vectors (x ∷ a) (y ∷ b) = refl

-- The tests for emptiness do not change what is hashed.
hashed_bytes_lem :
    (p : ProofData)
    → hashed_bytes p
      ≡ context
        ++ (p.pre_state_root
            ++ (p.post_state_root ++ (p.transactions_root ++ (p.zk_proof ++ p.quantum_signature))))
unfolding hashed_bytes
hashed_bytes_lem p =
    ap (λ v. context ++ (p.pre_state_root ++ (p.post_state_root ++ (p.transactions_root ++ v))))
      (vectors p.zk_proof p.quantum_signature)

nonempty :
    (a b moved rest : Bytes)
    → not (empty a) && not (empty b) ≡ true
    → empty rest ≡ false
    → not (empty (a ++ moved)) && not (empty rest) ≡ true
nonempty [] b moved rest h left = cc
nonempty (x ∷ a) b moved rest h left = ap not left

-- Bytes moved from the front of the signature to the end of the proof give another value of
-- ProofData with the same hash, whatever the hash function; if some signature stays, it passes
-- `verify` as well.
pub compute_hash-moved :
    (blake3 : Bytes → Bytes) (p : ProofData) (moved rest : Bytes)
    → p.quantum_signature ≡ moved ++ rest
    → verify p ≡ true
    → empty rest ≡ false
    → let q = record p { zk_proof = p.zk_proof ++ moved; quantum_signature = rest } in
      (compute_hash blake3 q ≡ compute_hash blake3 p) × (verify q ≡ true)
unfolding compute_hash verify
compute_hash-moved blake3 p moved rest split verified left =
    let q = record p { zk_proof = p.zk_proof ++ moved; quantum_signature = rest } in
    (
      ap blake3 (
          hashed_bytes_lem q
          ∙ (ap
                (λ v.
                  context
                  ++ (p.pre_state_root ++ (p.post_state_root ++ (p.transactions_root ++ v))))
                (append_assoc p.zk_proof moved rest ∙ ap (λ s. p.zk_proof ++ s) (sym split))
              ∙ sym (hashed_bytes_lem p))),
      nonempty p.zk_proof p.quantum_signature moved rest verified left,
    )

-- ===== src/Rollup/L1Bridge/Commitments.antt =====
-- Which commitments are accepted.
use quids_evm_cpp.Base.{
  ◌*◌, ◌%◌, ◌≤◌, ◌≡◌, ◌↔◌, refl, true, false, Bool-cases, inl, inr, List, [], ◌∷◌, ◌++◌, Bytes,
  u64_mod, returned, undefined, list_eq, nat_eq, list_beq_iff, length, take, arith,
}
use quids_evm_cpp.Rollup.L1Bridge.{
  L1Commitment, has_valid_roots, verify_commitment, process_l2_messages,
}

-- Every byte is 0.
abbrev pub AreZero : Bytes → Type 0
AreZero [] = Unit
AreZero (b ∷ bytes) = (b ≡ 0) × AreZero bytes

-- Arrays of one length are refused only where both are all 0.
has_valid_roots_lem :
    (state_root batch_hash : Bytes)
    → length state_root ≡ length batch_hash
    → (has_valid_roots state_root batch_hash ≡ false) ↔ (AreZero state_root × AreZero batch_hash)
unfolding has_valid_roots
has_valid_roots_lem [] [] h = (λ e. (tt, tt), λ e. refl)
has_valid_roots_lem [] (b ∷ batch_hash) h = absurd (omega (arith, h))
has_valid_roots_lem (s ∷ state_root) [] h = absurd (omega (arith, h))
has_valid_roots_lem (s ∷ state_root) (b ∷ batch_hash) h =
    ground (arith, has_valid_roots_lem state_root batch_hash (omega (arith, h)))

module _ (blake3 : Bytes → Bytes) (c : L1Commitment) where
  -- The sizes agree, and not all 64 bytes are 0.
  abbrev pub IsShaped : Type 0
  IsShaped =
      (length c.aggregated_proof ≡ (c.batch_size * 32) % u64_mod)
      × (has_valid_roots c.state_root c.batch_hash ≡ true)

  -- A commitment is accepted exactly where its proof has 32 bytes for each member of the batch,
  -- modulo 2 ^ 64, and at least 32, not both roots are zero, and the proof begins with the hash of
  -- the two roots. Where the sizes agree at fewer than 32 bytes and not both roots are zero, the
  -- comparison reads behind the proof.
  pub verify_commitment_iff :
      ((verify_commitment blake3 c ≡ returned true) ↔ (
        IsShaped
        × (32 ≤ length c.aggregated_proof)
        × (take 32 c.aggregated_proof ≡ blake3 (c.state_root ++ c.batch_hash))))
      × ((verify_commitment blake3 c ≡ undefined) ↔ (IsShaped × (length c.aggregated_proof ≤ 31)))
  unfolding verify_commitment
  verify_commitment_iff =
      ground
        (arith, list_beq_iff (blake3 (c.state_root ++ c.batch_hash)) (take 32 c.aggregated_proof))

  -- A commitment whose state root is all 0 is accepted with any batch hash that is not, where the
  -- sizes agree and the proof begins with the hash of the two.
  pub zero_root_accepted :
      AreZero c.state_root
      → length c.state_root ≡ length c.batch_hash
      → ¬ AreZero c.batch_hash
      → length c.aggregated_proof ≡ (c.batch_size * 32) % u64_mod
      → 32 ≤ length c.aggregated_proof
      → take 32 c.aggregated_proof ≡ blake3 (c.state_root ++ c.batch_hash)
      → verify_commitment blake3 c ≡ returned true
  zero_root_accepted zero same other size long begins =
      let valid : has_valid_roots c.state_root c.batch_hash ≡ true =
        elim (Bool-cases (has_valid_roots c.state_root c.batch_hash)) [
          | inl valid ↦ valid
          | inr none_there ↦
              absurd (other ((has_valid_roots_lem c.state_root c.batch_hash same).0 none_there).1)
        ] in
      verify_commitment_iff.0.1 ((size, valid), long, begins)

process_l2_messages_drops : (pending : List Bytes) → process_l2_messages pending ≡ []
unfolding process_l2_messages
process_l2_messages_drops [] = refl
process_l2_messages_drops (message ∷ pending) = process_l2_messages_drops pending

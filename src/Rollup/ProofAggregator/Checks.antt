-- ===== src/Rollup/ProofAggregator/Checks.antt =====
-- What the check of an aggregate accepts.
use quids_evm_cpp.Base.{
  ℕ, zero, suc, ◌+◌, ◌-◌, ◌^◌, ◌≤◌, ◌<◌, ◌≡◌, refl, sym, ap, ◌∙◌, ◌↔◌, true, false, Bool-cases, inl,
  inr, some, List, [], ◌∷◌, ◌++◌, Bytes, returned, list_eq, nat_eq, list_beq, list_beq_iff, ltb,
  subst, if◌then◌else◌, length, length-append, drop, drop_front, arith,
}
use quids_evm_cpp.Rollup.ProofAggregator.{
  Proof, hash_proofs, compute_proof_merkle_root, all_data, aggregate_proofs,
  verify_aggregated_proof,
}
use quids_evm_cpp.Rollup.ProofAggregator.Tree.{parents, climb, root_lem}
use quids_evm_cpp.Rollup.ProofAggregator.Split.{root-single, root-append}

-- The last 32 bytes
abbrev pub provided_root : Bytes → Bytes
provided_root aggregated = drop (length aggregated - 32) aggregated

module _ (sha256 : Bytes → Bytes) where
  verify_lem :
      (aggregated : Bytes) (proofs : List Proof) (root : Bytes)
      → 0 < length proofs
      → compute_proof_merkle_root sha256 proofs ≡ some root
      → verify_aggregated_proof sha256 aggregated proofs
        ≡ returned
            (if ltb (length aggregated) 32 then false else list_beq (provided_root aggregated) root)
  unfolding verify_aggregated_proof
  verify_lem aggregated [] root h at = absurd (omega (arith, h))
  verify_lem aggregated (p ∷ proofs) root h at = elim (Bool-cases (ltb (length aggregated) 32)) [
    | inl short ↦ rw short refl
    | inr long ↦ rw (long, at) refl
  ]

  -- verify_aggregated_proof accepts exactly where there are proofs, and the last 32 of at least 32
  -- bytes are their Merkle root; the bytes in front are not looked at.
  pub verify_aggregated_proof_iff :
      (aggregated : Bytes) (proofs : List Proof)
      → (verify_aggregated_proof sha256 aggregated proofs ≡ returned true) ↔ (
          (0 < length proofs)
          × (32 ≤ length aggregated)
          × (compute_proof_merkle_root sha256 proofs ≡ some (provided_root aggregated)))
  unfolding verify_aggregated_proof
  verify_aggregated_proof_iff aggregated [] = (λ h. absurd cc, λ h. absurd (omega (arith, h.0)))
  verify_aggregated_proof_iff aggregated (p ∷ proofs) =
      let (root, at, top) = root_lem sha256 (p ∷ proofs) (omega arith) in
      let run = verify_lem aggregated (p ∷ proofs) root (omega arith) at in
      let same = list_beq_iff (provided_root aggregated) root in ground (arith, run, at, same)

  -- Where it is asked whether an aggregate is one of 2 ^ k proofs followed by at least one and at
  -- most 2 ^ k more, verify_aggregated_proof answers as for the single proof whose data are the
  -- roots of the two parts.
  pub verify_forged :
      (k : ℕ) (aggregated : Bytes) (xs ys : List Proof) (left right : Bytes)
      → length xs ≡ 2 ^ k
      → 0 < length ys
      → length ys ≤ 2 ^ k
      → compute_proof_merkle_root sha256 xs ≡ some left
      → compute_proof_merkle_root sha256 ys ≡ some right
      → verify_aggregated_proof sha256 aggregated (xs ++ ys)
        ≡ verify_aggregated_proof sha256 aggregated (record { proof_data = left ++ right } ∷ [])
  verify_forged k aggregated xs ys left right hx hy hl at_left at_right =
      let (l, r, lx, ry, root) = root-append sha256 k xs ys hx hy hl in
      let forged : Proof = record { proof_data = left ++ right } in
      let same : compute_proof_merkle_root sha256 (xs ++ ys) ≡ some (sha256 (left ++ right)) = cc in
      verify_lem aggregated (xs ++ ys) (sha256 (left ++ right))
        (omega (arith, length-append xs ys, hy)) same
      ∙ sym (
          verify_lem aggregated (forged ∷ []) (sha256 (left ++ right)) (omega arith)
            (root-single sha256 forged))

  -- Hashes of 32 bytes
  abbrev AreHashes : List Bytes → Type 0
  AreHashes [] = Unit
  AreHashes (h ∷ hashes) = (length h ≡ 32) × AreHashes hashes

  module _ (size : (b : Bytes) → length (sha256 b) ≡ 32) where
    hash_proofs-AreHashes : (proofs : List Proof) → AreHashes (hash_proofs sha256 proofs)
    hash_proofs-AreHashes [] = tt
    hash_proofs-AreHashes (p ∷ proofs) = (size p.proof_data, hash_proofs-AreHashes proofs)

    parents-AreHashes : (hashes : List Bytes) → AreHashes hashes → AreHashes (parents sha256 hashes)
    parents-AreHashes [] h = h
    parents-AreHashes (x ∷ []) h = h
    parents-AreHashes (x ∷ y ∷ rest) (hx, (hy, h)) = (size (x ++ y), parents-AreHashes rest h)

    climb-AreHashes :
        (n : ℕ) (hashes : List Bytes) → AreHashes hashes → AreHashes (climb sha256 n hashes)
    climb-AreHashes zero hashes h = h
    climb-AreHashes (suc n) hashes h =
        climb-AreHashes n (parents sha256 hashes) (parents-AreHashes hashes h)

    -- Where SHA-256 gives 32 bytes, aggregate_proofs returns an aggregate of any list of proofs
    -- that is not empty, and verify_aggregated_proof accepts it for them.
    pub verify_aggregated_proof-aggregate_proofs :
        (proofs : List Proof)
        → 0 < length proofs
        → (aggregated : Bytes) × (aggregate_proofs sha256 proofs ≡ returned aggregated)
          × (verify_aggregated_proof sha256 aggregated proofs ≡ returned true)
    unfolding aggregate_proofs
    verify_aggregated_proof-aggregate_proofs [] h = absurd (omega (arith, h))
    verify_aggregated_proof-aggregate_proofs (p ∷ proofs) h =
        let (root, at, top) = root_lem sha256 (p ∷ proofs) h in
        let hashes : AreHashes (root ∷ []) = subst AreHashes top (
          climb-AreHashes (length (p ∷ proofs)) (hash_proofs sha256 (p ∷ proofs))
            (hash_proofs-AreHashes (p ∷ proofs))) in
        let front : Bytes = all_data (p ∷ proofs) in
        let long : length (front ++ root) ≡ length front + 32 =
          omega (arith, length-append front root, hashes.0) in
        let last : provided_root (front ++ root) ≡ root =
          drop_front (length (front ++ root) - 32) front root (omega (arith, long)) in
        (
          front ++ root,
          rw at refl,
          (verify_aggregated_proof_iff (front ++ root) (p ∷ proofs)).1
              (omega arith, omega (arith, long), at ∙ ap some (sym last)),
        )

-- ===== src/Rollup/ProofAggregator/Split.antt =====
-- The Merkle root by halves, as RFC 6962 defines the hash of a tree.
use quids_evm_cpp.Base.{
  ℕ, zero, suc, ◌+◌, ◌*◌, ◌^◌, ◌≤◌, ◌<◌, ◌≡◌, refl, ap, ◌∙◌, some, List, [], ◌∷◌, ◌++◌, Bytes,
  length, length-append, arith,
}
use native.Mathlib.Nat.{pow-succ'}
use quids_evm_cpp.Rollup.ProofAggregator.{Proof, hash_proofs, compute_proof_merkle_root}
use quids_evm_cpp.Rollup.ProofAggregator.Tree.{
  parents, climb, parents-append, length-parents, length-level, length-hash_proofs, root_lem,
}

module _ (sha256 : Bytes → Bytes) where
  -- Further levels above a single hash hold that hash.
  climb-single : (n : ℕ) (r : Bytes) → climb sha256 n (r ∷ []) ≡ r ∷ []
  climb-single zero r = refl
  climb-single (suc n) r = climb-single n r

  climb_further :
      (n m : ℕ) (xs : List Bytes) (r : Bytes)
      → climb sha256 n xs ≡ r ∷ []
      → climb sha256 (n + m) xs ≡ r ∷ []
  climb_further zero m xs r h =
      ap (λ k. climb sha256 k xs) {x = 0 + m} {y = m} (omega arith)
      ∙ (ap (climb sha256 m) h ∙ climb-single m r)
  climb_further (suc n) m xs r h =
      ap (λ k. climb sha256 k xs) {x = suc n + m} {y = suc (n + m)} (omega arith)
      ∙ climb_further n m (parents sha256 xs) r h

  -- One level more at the top
  climb_up :
      (n : ℕ) (xs : List Bytes) → climb sha256 (suc n) xs ≡ parents sha256 (climb sha256 n xs)
  climb_up zero xs = refl
  climb_up (suc n) xs = climb_up n (parents sha256 xs)

  -- A full tree beside another one
  climb-append :
      (k : ℕ) (xs ys : List Bytes)
      → length xs ≡ 2 ^ k
      → climb sha256 k (xs ++ ys) ≡ climb sha256 k xs ++ climb sha256 k ys
  climb-append zero xs ys h = refl
  climb-append (suc k) xs ys h =
      let even : length xs ≡ 2 * 2 ^ k = rw (pow-succ' 2 k) at h in
      ap (climb sha256 k) (parents-append sha256 (2 ^ k) xs ys even)
      ∙ climb-append k (parents sha256 xs) (parents sha256 ys)
          (length-parents sha256 (2 ^ k) xs even)

  -- `k` levels are enough for 2 ^ k hashes.
  climb_enough :
      (k : ℕ) (xs : List Bytes)
      → 0 < length xs
      → length xs ≤ 2 ^ k
      → (r : Bytes) × (climb sha256 k xs ≡ r ∷ [])
  climb_enough k [] h hl = absurd (omega (arith, h))
  climb_enough zero (x ∷ []) h hl = (x, refl)
  climb_enough zero (x ∷ y ∷ xs) h hl = absurd (omega (arith, hl))
  climb_enough (suc k) (x ∷ xs) h hl =
      let size = length-level sha256 (x ∷ xs) in
      let bound : length (x ∷ xs) ≤ 2 * 2 ^ k = rw (pow-succ' 2 k) at hl in
      climb_enough k (parents sha256 (x ∷ xs)) (omega (arith, size)) (omega (arith, size, bound))

  -- The root is the hash that any climb ends on.
  pub root-climb :
      (k : ℕ) (proofs : List Proof) (r : Bytes)
      → 0 < length proofs
      → climb sha256 k (hash_proofs sha256 proofs) ≡ r ∷ []
      → compute_proof_merkle_root sha256 proofs ≡ some r
  root-climb k proofs r h top =
      let hashes : List Bytes = hash_proofs sha256 proofs in
      let (root, computed, climbed) = root_lem sha256 proofs h in
      let one : climb sha256 (length proofs + k) hashes ≡ root ∷ [] =
        climb_further (length proofs) k hashes root climbed in
      let other : climb sha256 (length proofs + k) hashes ≡ r ∷ [] =
        ap (λ n. climb sha256 n hashes) {x = length proofs + k} {y = k + length proofs}
          (omega arith)
        ∙ climb_further k (length proofs) hashes r top in
      computed ∙ cc

  -- The root of one proof
  pub root-single :
      (p : Proof) → compute_proof_merkle_root sha256 (p ∷ []) ≡ some (sha256 p.proof_data)
  root-single p = root-climb 0 (p ∷ []) (sha256 p.proof_data) (omega arith) refl

  hash_proofs-append :
      (xs ys : List Proof)
      → hash_proofs sha256 (xs ++ ys) ≡ hash_proofs sha256 xs ++ hash_proofs sha256 ys
  hash_proofs-append [] ys = refl
  hash_proofs-append (x ∷ xs) ys = ap (◌∷◌ (sha256 x.proof_data)) (hash_proofs-append xs ys)

  -- For 2 ^ k proofs followed by at least one and at most 2 ^ k more, compute_proof_merkle_root
  -- returns the hash of the two roots that it returns for the two parts, the first part's root
  -- first.
  pub root-append :
      (k : ℕ) (xs ys : List Proof)
      → length xs ≡ 2 ^ k
      → 0 < length ys
      → length ys ≤ 2 ^ k
      → (left : Bytes) × (right : Bytes) × (compute_proof_merkle_root sha256 xs ≡ some left)
        × (compute_proof_merkle_root sha256 ys ≡ some right)
        × (compute_proof_merkle_root sha256 (xs ++ ys) ≡ some (sha256 (left ++ right)))
  root-append k xs ys hx hy hl =
      let xh : List Bytes = hash_proofs sha256 xs in
      let yh : List Bytes = hash_proofs sha256 ys in
      let nx : length xh ≡ 2 ^ k = length-hash_proofs sha256 xs ∙ hx in
      let ny = length-hash_proofs sha256 ys in
      let (left, lx) = climb_enough k xh (omega (arith, nx, hx, hy, hl)) (omega (arith, nx)) in
      let (right, ly) = climb_enough k yh (omega (arith, ny, hy)) (omega (arith, ny, hl)) in
      let both : climb sha256 k (xh ++ yh) ≡ left ∷ right ∷ [] =
        climb-append k xh yh nx ∙ rw (lx, ly) refl in
      let top : climb sha256 (suc k) (hash_proofs sha256 (xs ++ ys)) ≡ sha256 (left ++ right) ∷ [] =
        ap (climb sha256 (suc k)) (hash_proofs-append xs ys)
        ∙ (climb_up k (xh ++ yh) ∙ ap (parents sha256) both) in
      (
        left,
        right,
        root-climb k xs left (omega (arith, hx, hy, hl)) lx,
        root-climb k ys right hy ly,
        root-climb (suc k) (xs ++ ys) (sha256 (left ++ right))
            (omega (arith, length-append xs ys, hy)) top,
      )

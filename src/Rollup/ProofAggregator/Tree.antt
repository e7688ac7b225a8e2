-- ===== src/Rollup/ProofAggregator/Tree.antt =====
-- The loops of compute_proof_merkle_root, which overwrite one list, against levels built anew.
use quids_evm_cpp.Base.{
  ℕ, zero, suc, ◌+◌, ◌*◌, ◌-◌, ◌/◌, ◌%◌, ◌≤◌, ◌<◌, ◌≡◌, refl, sym, ap, subst, ◌∙◌, true, false,
  some, List, [], ◌∷◌, ◌++◌, Bytes, ltb, ◌==◌, length, get_elem?, set, take, drop, length-take,
  length-drop, take-append-drop, length-append, take_front, get_behind, set_behind, arith,
}
use mathlib.Core.List.{append_assoc, append-nil}
use quids_evm_cpp.Rollup.ProofAggregator.{
  Proof, hash_proofs, combine_pairs, shrink, build_tree, compute_proof_merkle_root,
}

module _ (sha256 : Bytes → Bytes) where
  -- The level above
  abbrev pub parents : List Bytes → List Bytes
  parents [] = []
  parents (x ∷ []) = x ∷ []
  parents (x ∷ y ∷ rest) = sha256 (x ++ y) ∷ parents rest

  -- `n` levels further up
  abbrev pub climb : ℕ → List Bytes → List Bytes
  climb zero hashes = hashes
  climb (suc n) hashes = climb n (parents hashes)

-- What lies between the new hashes and those still to be read, when one more pair is combined
shift : List Bytes → (x y : Bytes) → List Bytes
shift [] x y = y ∷ []
shift (s ∷ skip) x y = skip ++ (x ∷ y ∷ [])

length-shift : (skip : List Bytes) (x y : Bytes) → length (shift skip x y) ≡ length skip + 1
unfolding shift
length-shift [] x y = omega arith
length-shift (s ∷ skip) x y = omega (arith, length-append skip (x ∷ y ∷ []))

set-shift :
    (skip rest : List Bytes) (x y h : Bytes)
    → set (skip ++ (x ∷ y ∷ rest)) 0 h ≡ h ∷ (shift skip x y ++ rest)
unfolding shift
set-shift [] rest x y h = refl
set-shift (s ∷ skip) rest x y h = ap (◌∷◌ h) (sym (append_assoc skip (x ∷ y ∷ []) rest))

module _ (sha256 : Bytes → Bytes) where
  -- The loop over the pairs leaves the level above in front.
  combine_pairs_lem :
      (k i : ℕ) (pre skip xs tail : List Bytes)
      → length pre ≡ i
      → length skip ≡ i
      → length xs ≡ 2 * k
      → (left : List Bytes) × (combine_pairs sha256 k i (pre ++ (skip ++ (xs ++ tail)))
          ≡ some (pre ++ (parents sha256 xs ++ (left ++ tail))))
        × (length left ≡ i + k)
  unfolding combine_pairs
  combine_pairs_lem zero i pre skip [] tail hp hs hx = (skip, refl, omega (arith, hs))
  combine_pairs_lem zero i pre skip (x ∷ xs) tail hp hs hx = absurd (omega (arith, hx))
  combine_pairs_lem (suc k) i pre skip [] tail hp hs hx = absurd (omega (arith, hx))
  combine_pairs_lem (suc k) i pre skip (x ∷ []) tail hp hs hx = absurd (omega (arith, hx))
  combine_pairs_lem (suc k) i pre skip (x ∷ y ∷ xs) tail hp hs hx =
      let h : Bytes = sha256 (x ++ y) in
      let all : List Bytes = skip ++ (x ∷ y ∷ (xs ++ tail)) in
      let at_left : get_elem? (pre ++ all) (2 * i) ≡ some x =
        ap (get_elem? (pre ++ all)) {x = 2 * i} {y = i + (i + 0)} (omega arith)
        ∙ (get_behind pre all i (i + 0) hp ∙ get_behind skip (x ∷ y ∷ (xs ++ tail)) i 0 hs) in
      let at_right : get_elem? (pre ++ all) (2 * i + 1) ≡ some y =
        ap (get_elem? (pre ++ all)) {x = 2 * i + 1} {y = i + (i + 1)} (omega arith)
        ∙ (get_behind pre all i (i + 1) hp ∙ get_behind skip (x ∷ y ∷ (xs ++ tail)) i 1 hs) in
      let written : set (pre ++ all) i h ≡ (pre ++ (h ∷ [])) ++ (shift skip x y ++ (xs ++ tail)) =
        set_behind pre all i h hp
        ∙ (ap (λ r. pre ++ r) (set-shift skip (xs ++ tail) x y h)
            ∙ sym (append_assoc pre (h ∷ []) (shift skip x y ++ (xs ++ tail)))) in
      let (left, ran, size) =
        combine_pairs_lem k (i + 1) (pre ++ (h ∷ [])) (shift skip x y) xs tail
          (omega (arith, length-append pre (h ∷ []), hp)) (omega (arith, length-shift skip x y, hs))
          (omega (arith, hx)) in
      (
        left,
        rw (at_left, at_right, written)
            (ran ∙ ap some (append_assoc pre (h ∷ []) (parents sha256 xs ++ (left ++ tail)))),
        omega (arith, size),
      )

  -- Levels of even length stand side by side.
  pub parents-append :
      (k : ℕ) (xs ys : List Bytes)
      → length xs ≡ 2 * k
      → parents sha256 (xs ++ ys) ≡ parents sha256 xs ++ parents sha256 ys
  parents-append k [] ys h = refl
  parents-append k (x ∷ []) ys h = absurd (omega (arith, h))
  parents-append zero (x ∷ y ∷ xs) ys h = absurd (omega (arith, h))
  parents-append (suc k) (x ∷ y ∷ xs) ys h =
      ap (◌∷◌ (sha256 (x ++ y))) (parents-append k xs ys (omega (arith, h)))

  pub length-parents :
      (k : ℕ) (xs : List Bytes) → length xs ≡ 2 * k → length (parents sha256 xs) ≡ k
  length-parents zero [] h = refl
  length-parents (suc k) [] h = absurd (omega (arith, h))
  length-parents k (x ∷ []) h = absurd (omega (arith, h))
  length-parents zero (x ∷ y ∷ xs) h = absurd (omega (arith, h))
  length-parents (suc k) (x ∷ y ∷ xs) h = ap suc (length-parents k xs (omega (arith, h)))

-- A write at the front of a list that is not empty
set_first :
    (left : List Bytes) (z : Bytes) → (r : List Bytes) × (set (left ++ (z ∷ [])) 0 z ≡ z ∷ r)
set_first [] z = ([], refl)
set_first (x ∷ left) z = (left ++ (z ∷ []), refl)

-- What is left of a list with the new hashes in front and a last one, if any, behind
shrink_even :
    (k : ℕ) (new left : List Bytes)
    → length new ≡ k
    → length left ≡ k
    → shrink k (new ++ (left ++ [])) ≡ some new
unfolding shrink
shrink_even k new left hn hl =
    let even : (length (new ++ (left ++ [])) % 2 == 1) ≡ false =
      ground (arith, length-append new (left ++ []), length-append left [], hn, hl) in
    rw even (ap some (take_front k new (left ++ []) hn))

shrink_odd :
    (k : ℕ) (new left : List Bytes) (z : Bytes)
    → length new ≡ k
    → length left ≡ k
    → shrink k (new ++ (left ++ (z ∷ []))) ≡ some (new ++ (z ∷ []))
unfolding shrink
shrink_odd k new left z hn hl =
    let whole : List Bytes = new ++ (left ++ (z ∷ [])) in
    let size : length whole ≡ k + (k + 1) =
      omega (arith, length-append new (left ++ (z ∷ [])), length-append left (z ∷ []), hn, hl) in
    let odd : (length whole % 2 == 1) ≡ true = ground (arith, size) in
    let back : get_elem? whole (length whole - 1) ≡ some z =
      ap (get_elem? whole) {x = length whole - 1} {y = k + (k + 0)} (omega (arith, size))
      ∙ (get_behind new (left ++ (z ∷ [])) k (k + 0) hn ∙ get_behind left (z ∷ []) k 0 hl) in
    let (r, first) = set_first left z in
    let written : set whole k z ≡ (new ++ (z ∷ [])) ++ r =
      set_behind new (left ++ (z ∷ [])) k z hn
      ∙ (ap (λ b. new ++ b) first ∙ sym (append_assoc new (z ∷ []) r)) in
    rw (odd, back, written)
      (ap some
        (take_front (k + 1) (new ++ (z ∷ [])) r (omega (arith, length-append new (z ∷ []), hn))))

module _ (sha256 : Bytes → Bytes) where
  -- One round of the while loop
  level_at :
      (k : ℕ) (xs tail : List Bytes)
      → length xs ≡ 2 * k
      → length tail < 2
      → (combined : List Bytes) × (combine_pairs sha256 k 0 (xs ++ tail) ≡ some combined)
        × (shrink k combined ≡ some (parents sha256 (xs ++ tail)))
  level_at k xs [] hx ht =
      let (left, ran, size) = combine_pairs_lem sha256 k 0 [] [] xs [] refl refl hx in
      (
        parents sha256 xs ++ (left ++ []),
        ran,
        shrink_even k (parents sha256 xs) left (length-parents sha256 k xs hx) (omega (arith, size))
            ∙ ap (λ b. some (parents sha256 b)) (sym (append-nil xs)),
      )
  level_at k xs (z ∷ []) hx ht =
      let (left, ran, size) = combine_pairs_lem sha256 k 0 [] [] xs (z ∷ []) refl refl hx in
      (
        parents sha256 xs ++ (left ++ (z ∷ [])),
        ran,
        shrink_odd k (parents sha256 xs) left z (length-parents sha256 k xs hx)
              (omega (arith, size))
            ∙ ap some (sym (parents-append sha256 k xs (z ∷ []) hx)),
      )
  level_at k xs (z ∷ z' ∷ tail) hx ht = absurd (omega (arith, ht))

  level :
      (hashes : List Bytes)
      → (combined : List Bytes) × (combine_pairs sha256 (length hashes / 2) 0 hashes
          ≡ some combined)
        × (shrink (length hashes / 2) combined ≡ some (parents sha256 hashes))
  level hashes =
      let n : ℕ = length hashes in
      let k : ℕ = n / 2 in
      subst
        (λ l.
          (combined : List Bytes) × (combine_pairs sha256 k 0 l ≡ some combined)
          × (shrink k combined ≡ some (parents sha256 l)))
        (take-append-drop (2 * k) hashes)
        (level_at k (take (2 * k) hashes) (drop (2 * k) hashes)
          (omega (arith, length-take (2 * k) hashes)) (omega (arith, length-drop (2 * k) hashes)))

  pub length-level :
      (hashes : List Bytes) → length (parents sha256 hashes) ≡ length hashes - length hashes / 2
  length-level [] = omega arith
  length-level (x ∷ []) = omega arith
  length-level (x ∷ y ∷ rest) = omega (arith, length-level rest)

  -- The loop ends on one hash, the one that the levels built anew end on.
  build_tree_lem :
      (fuel : ℕ) (hashes : List Bytes)
      → 0 < length hashes
      → length hashes ≤ suc fuel
      → (root : Bytes) × (build_tree sha256 (suc fuel) hashes ≡ some (root ∷ []))
        × (climb sha256 fuel hashes ≡ root ∷ [])
  unfolding build_tree
  build_tree_lem fuel [] h hl = absurd (omega (arith, h))
  build_tree_lem zero (x ∷ []) h hl = (x, refl, refl)
  build_tree_lem (suc fuel) (x ∷ []) h hl =
      let (root, ran, top) = build_tree_lem fuel (x ∷ []) h (omega arith) in (root, ran, top)
  build_tree_lem zero (x ∷ y ∷ rest) h hl = absurd (omega (arith, hl))
  build_tree_lem (suc fuel) (x ∷ y ∷ rest) h hl =
      let hashes : List Bytes = x ∷ y ∷ rest in
      let (combined, ran, shrunk) = level hashes in
      let size = length-level hashes in
      let (root, built, top) =
        build_tree_lem fuel (parents sha256 hashes) (omega (arith, size))
          (omega (arith, size, hl)) in
      let more : ltb 1 (length hashes) ≡ true = ground arith in
      (root, rw (more, ran, shrunk) built, top)

pub length-hash_proofs :
    (sha256 : Bytes → Bytes) (proofs : List Proof)
    → length (hash_proofs sha256 proofs) ≡ length proofs
length-hash_proofs sha256 [] = refl
length-hash_proofs sha256 (p ∷ proofs) = ap suc (length-hash_proofs sha256 proofs)

-- The root of one proof or more, with the levels below it.
pub root_lem :
    (sha256 : Bytes → Bytes) (proofs : List Proof)
    → 0 < length proofs
    → (root : Bytes) × (compute_proof_merkle_root sha256 proofs ≡ some root)
      × (climb sha256 (length proofs) (hash_proofs sha256 proofs) ≡ root ∷ [])
unfolding compute_proof_merkle_root
root_lem sha256 proofs h =
    let size = length-hash_proofs sha256 proofs in
    let (root, built, top) =
      build_tree_lem sha256 (length proofs) (hash_proofs sha256 proofs) (omega (arith, size, h))
        (omega (arith, size)) in
    (root, rw built refl, top)

-- ===== src/Rollup/MevProtection/Sandwiches.antt =====
-- Which batches hold a sandwich.
use quids_evm_cpp.Base.{
  ℕ, zero, suc, ◌≡◌, ◌↔◌, refl, sym, ap, ◌∙◌, true, ◌&&◌, Option, none, some, List, [], ◌∷◌, nat_eq,
  list_beq, list_beq_iff, arith, Bool-cases, inl, inr, get_elem?,
}
use quids_evm_cpp.Blockchain.Transaction.{Transaction}
use quids_evm_cpp.Rollup.MevProtection.{sandwiched, detect_sandwich_attack}

-- The transaction with the target's hash stands at `i + 1`, between two of one sender to one
-- recipient.
abbrev pub SandwichAt : Transaction → List Transaction → ℕ → Type 0
SandwichAt target batch i =
    (front tx back : Transaction) × (get_elem? batch i ≡ some front)
    × (get_elem? batch (suc i) ≡ some tx)
    × (get_elem? batch (suc (suc i)) ≡ some back)
    × (tx.hash ≡ target.hash)
    × (front.from ≡ back.from)
    × (front.to ≡ back.to)

tested :
    (target front tx back : Transaction)
    → (list_beq tx.hash target.hash && (list_beq front.from back.from && list_beq front.to back.to)
        ≡ true)
      ↔ ((tx.hash ≡ target.hash) × (front.from ≡ back.from) × (front.to ≡ back.to))
tested target front tx back = (
  λ h. (
    (list_beq_iff tx.hash target.hash).0 (ground (arith, h)),
    (list_beq_iff front.from back.from).0 (ground (arith, h)),
    (list_beq_iff front.to back.to).0 (ground (arith, h)),
  ),
  λ (a, b, c). ground (
    arith,
    (list_beq_iff tx.hash target.hash).1 a,
    (list_beq_iff front.from back.from).1 b,
    (list_beq_iff front.to back.to).1 c,
  ),
)

sandwich_found :
    (target front : Transaction) (batch : List Transaction)
    → sandwiched target front batch ≡ true
    → (i : ℕ) × SandwichAt target (front ∷ batch) i
unfolding sandwiched
sandwich_found target front [] h = cc
sandwich_found target front (tx ∷ []) h = cc
sandwich_found target front (tx ∷ back ∷ batch) h =
    elim (Bool-cases (
      list_beq tx.hash target.hash
      && (list_beq front.from back.from && list_beq front.to back.to))) [
        | inl here ↦
            let (a, b, c) = (tested target front tx back).0 here in
            (0, (front, tx, back, refl, refl, refl, a, b, c))
        | inr not_here ↦
            let (i, there) =
              sandwich_found target tx (back ∷ batch) (ground (arith, h, not_here)) in
            (suc i, there)
      ]

from_some : Transaction → Option Transaction → Transaction
from_some default none = default
from_some default (some tx) = tx

same_entry : (a b : Transaction) → some a ≡ some b → a ≡ b
unfolding from_some
same_entry a b e = ap (from_some a) e

sandwich_seen :
    (target front : Transaction) (batch : List Transaction) (i : ℕ)
    → SandwichAt target (front ∷ batch) i
    → sandwiched target front batch ≡ true
unfolding sandwiched
sandwich_seen target front [] i (f, t, b, at_f, at_t, at_b, hash, from, to) = cc
sandwich_seen target front (tx ∷ []) zero (f, t, b, at_f, at_t, at_b, hash, from, to) = cc
sandwich_seen target front (tx ∷ []) (suc i) (f, t, b, at_f, at_t, at_b, hash, from, to) = cc
sandwich_seen target front (tx ∷ back ∷ batch) zero (f, t, b, at_f, at_t, at_b, hash, from, to) =
    let here = (tested target front tx back).1 (
      ap (λ (x : Transaction). x.hash) (same_entry tx t at_t) ∙ hash,
      ap (λ (x : Transaction). x.from) (same_entry front f at_f)
          ∙ (from ∙ sym (ap (λ (x : Transaction). x.from) (same_entry back b at_b))),
      ap (λ (x : Transaction). x.to) (same_entry front f at_f)
          ∙ (to ∙ sym (ap (λ (x : Transaction). x.to) (same_entry back b at_b))),
    ) in
    rw here refl
sandwich_seen target front (tx ∷ back ∷ batch) (suc i) there =
    let later = sandwich_seen target tx (back ∷ batch) i there in ground (arith, later)

-- A batch is reported exactly if somewhere in it a transaction with the target's hash stands
-- between two that have one sender and one recipient.
pub detect_sandwich_attack_iff :
    (target : Transaction) (batch : List Transaction)
    → (detect_sandwich_attack target batch ≡ true) ↔ ((i : ℕ) × SandwichAt target batch i)
unfolding detect_sandwich_attack sandwiched
detect_sandwich_attack_iff target [] =
    (λ h. cc, λ (i, (f, t, b, at_f, at_t, at_b, hash, from, to)). cc)
detect_sandwich_attack_iff target (front ∷ []) =
    (λ h. cc, λ (i, there). sandwich_seen target front [] i there)
detect_sandwich_attack_iff target (front ∷ tx ∷ []) =
    (λ h. cc, λ (i, there). sandwich_seen target front (tx ∷ []) i there)
detect_sandwich_attack_iff target (front ∷ tx ∷ back ∷ batch) = (
  λ h. sandwich_found target front (tx ∷ back ∷ batch) (ground (arith, h)),
  λ (i, there).
      let seen = sandwich_seen target front (tx ∷ back ∷ batch) i there in ground (arith, seen),
)

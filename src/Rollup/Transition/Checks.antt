-- ===== src/Rollup/Transition/Checks.antt =====
-- What the checks of transitions and sequences accept.
use quids_evm_cpp.Base.{
  ℕ, zero, suc, ◌<◌, ◌≡◌, ◌↔◌, refl, ap, true, Option, none, some, List, [], ◌∷◌, nat_eq, list_eq,
  arith, get_elem?,
}
use quids_evm_cpp.Blockchain.Transaction.{Transaction}
use quids_evm_cpp.Rollup.Transition.{follows, verify_transaction_sequence}

-- The nonces go up from each transaction to every later one.
abbrev pub IsAscending : List Transaction → Type 0
IsAscending txs =
    (i j : ℕ) (a b : Transaction)
    → i < j
    → get_elem? txs i ≡ some a
    → get_elem? txs j ≡ some b
    → a.nonce < b.nonce

nonce_of : Option Transaction → ℕ
nonce_of none = 0
nonce_of (some tx) = tx.nonce

same_nonce : (a b : Transaction) → some a ≡ some b → a.nonce ≡ b.nonce
unfolding nonce_of
same_nonce a b e = ap nonce_of e

follows_step :
    (n : ℕ) (tx : Transaction) (txs : List Transaction)
    → (follows n (tx ∷ txs) ≡ true) ↔ ((n < tx.nonce) × (follows tx.nonce txs ≡ true))
follows_step n tx txs = (λ h. ground (arith, h), λ h. ground (arith, h.0, h.1))

follows-later :
    (n : ℕ) (txs : List Transaction) (j : ℕ) (b : Transaction)
    → follows n txs ≡ true
    → get_elem? txs j ≡ some b
    → n < b.nonce
follows-later n [] j b h at_j = cc
follows-later n (tx ∷ txs) zero b h at_j =
    omega (arith, ((follows_step n tx txs).0 h).0, same_nonce tx b at_j)
follows-later n (tx ∷ txs) (suc j) b h at_j =
    let (less, rest) = (follows_step n tx txs).0 h in
    omega (arith, less, follows-later tx.nonce txs j b rest at_j)

follows-IsAscending :
    (tx : Transaction) (txs : List Transaction)
    → follows tx.nonce txs ≡ true
    → IsAscending (tx ∷ txs)
follows-IsAscending tx txs h zero zero a b less at_i at_j = elim less [ ]
follows-IsAscending tx txs h zero (suc j) a b less at_i at_j =
    omega (arith, same_nonce tx a at_i, follows-later tx.nonce txs j b h at_j)
follows-IsAscending tx txs h (suc i) zero a b less at_i at_j = elim less [ ]
follows-IsAscending tx [] h (suc i) (suc j) a b less at_i at_j = cc
follows-IsAscending tx (second ∷ txs) h (suc i) (suc j) a b less at_i at_j =
    follows-IsAscending second txs ((follows_step tx.nonce second txs).0 h).1 i j a b
      (omega (arith, less)) at_i at_j

follows_of_IsAscending :
    (n : ℕ) (txs : List Transaction)
    → ((j : ℕ) (b : Transaction) → get_elem? txs j ≡ some b → n < b.nonce)
    → IsAscending txs
    → follows n txs ≡ true
follows_of_IsAscending n [] above h = refl
follows_of_IsAscending n (tx ∷ txs) above h = (follows_step n tx txs).1 (
  above 0 tx refl,
  follows_of_IsAscending tx.nonce txs (λ j b at_j. h 0 (suc j) tx b (omega arith) refl at_j)
      (λ i j a b less at_i at_j. h (suc i) (suc j) a b (omega (arith, less)) at_i at_j),
)

-- A sequence is accepted exactly if the nonces go up from each transaction to every later one; they
-- need not be consecutive.
pub verify_transaction_sequence_iff :
    (txs : List Transaction) → (verify_transaction_sequence txs ≡ true) ↔ IsAscending txs
unfolding verify_transaction_sequence
verify_transaction_sequence_iff [] = (λ h i j a b less at_i at_j. cc, λ h. refl)
verify_transaction_sequence_iff (tx ∷ txs) = (
  follows-IsAscending tx txs,
  λ h.
      follows_of_IsAscending tx.nonce txs (λ j b at_j. h 0 (suc j) tx b (omega arith) refl at_j)
        (λ i j a b less at_i at_j. h (suc i) (suc j) a b (omega (arith, less)) at_i at_j),
)

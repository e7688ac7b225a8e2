-- ===== src/Rollup/FraudProof/Sizes.antt =====
-- For which states there is a vector of differences
use quids_evm_cpp.Base.{
  ℕ, zero, suc, ◌+◌, ◌*◌, ◌/◌, ◌%◌, ◌^◌, ◌<◌, ◌==◌, ◌≡◌, ◌↔◌, refl, sym, ap, ◌∙◌, true, false,
  Bool-cases, inl, inr, Option, none, some, List, [], ◌∷◌, Bytes, returned, thrown, list_eq, nat_eq,
  if◌then◌else◌, length, length-append, arith,
}
use native.Mathlib.Nat.{pow-succ'}
use quids_evm_cpp.Base.Dict.{Dict, find, contains}
use quids_evm_cpp.Rollup.StateManager.{State, may_lock}
use quids_evm_cpp.Rollup.StateManager.Access.{get_accounts_snapshot}
use quids_evm_cpp.Rollup.StateManager.Accounts.{Account, sort_accounts}
use quids_evm_cpp.Rollup.FraudProof.{
  old_difference, old_differences, new_differences, state_vector, is_power, quantum_state,
  not_a_power, encode_state_diff,
}

abbrev pub IsPowerOf2 : ℕ → Type 0
IsPowerOf2 n = (k : ℕ) × (n ≡ 2 ^ k)

-- How many accounts stand under an address that the other map does not have
abbrev pub added : Dict Bytes Account → Dict Bytes Account → ℕ
added [] pre = 0
added ((a, account) ∷ post) pre =
    let rest = added post pre in if contains a pre then rest else suc rest

-- The addresses of either map
abbrev pub addresses : Dict Bytes Account → Dict Bytes Account → ℕ
addresses pre post = length pre + added post pre

length-old_difference :
    (x : Account) (y : Option Account) (rest : List ℕ)
    → length (old_difference x y rest) ≡ 2 + length rest
length-old_difference x none rest = omega arith
length-old_difference x (some y) rest = omega arith

length-old_differences :
    (pre post : Dict Bytes Account) → length (old_differences pre post) ≡ 2 * length pre
unfolding old_differences
length-old_differences [] post = refl
length-old_differences ((a, x) ∷ pre) post = omega (
  arith,
  length-old_difference x (find a post) (old_differences pre post),
  length-old_differences pre post,
)

length-new_differences :
    (post pre : Dict Bytes Account) → length (new_differences post pre) ≡ 2 * added post pre
unfolding new_differences
length-new_differences [] pre = refl
length-new_differences ((a, x) ∷ post) pre = elim (Bool-cases (contains a pre)) [
  | inl old ↦ rw old (length-new_differences post pre)
  | inr new ↦ rw new (omega (arith, length-new_differences post pre))
]

length-state_vector :
    (pre post : Dict Bytes Account) → length (state_vector pre post) ≡ 2 * addresses pre post
unfolding state_vector
length-state_vector pre post = omega (
  arith,
  length-append (old_differences pre post) (new_differences post pre),
  length-old_differences pre post,
  length-new_differences post pre,
)

below_pow : (k : ℕ) → k < 2 ^ k
below_pow zero = omega arith
below_pow (suc k) = omega (arith, below_pow k, pow-succ' 2 k)

is_power_sound : (fuel n : ℕ) → is_power fuel n ≡ true → IsPowerOf2 n
unfolding is_power
is_power_sound zero n h = cc
is_power_sound (suc fuel) n h = elim (Bool-cases (n == 1)) [
  | inl one ↦ (0, ground (arith, one))
  | inr more ↦ elim (Bool-cases (n % 2 == 0)) [
    | inl even ↦
        let half : is_power fuel (n / 2) ≡ true = rw (is_power, more, even) at h in
        let (k, e) = is_power_sound fuel (n / 2) half in
        (suc k, ground (arith, even, e, pow-succ' 2 k))
    | inr odd ↦ (let bad : false ≡ true = rw (is_power, more, odd) at h in cc)
  ]
]

is_power_complete : (k fuel : ℕ) → k < fuel → is_power fuel (2 ^ k) ≡ true
unfolding is_power
is_power_complete k zero h = absurd (omega (arith, h))
is_power_complete zero (suc fuel) h = refl
is_power_complete (suc k) (suc fuel) h =
    let double : 2 ^ suc k ≡ 2 * 2 ^ k = pow-succ' 2 k in
    let more : (2 ^ suc k == 1) ≡ false = ground (arith, double, below_pow k) in
    let even : (2 ^ suc k % 2 == 0) ≡ true = ground (arith, double) in
    let half : 2 ^ suc k / 2 ≡ 2 ^ k = omega (arith, double) in
    rw (more, even, half) (is_power_complete k fuel (omega (arith, h)))

-- The constructor of QuantumState takes a vector exactly if its size is a power of 2.
quantum_state_iff :
    (vector : List ℕ) → (quantum_state vector ≡ returned vector) ↔ IsPowerOf2 (length vector)
unfolding quantum_state
quantum_state_iff [] = (λ h. cc, λ (k, e). absurd (omega (arith, e, below_pow k)))
quantum_state_iff (x ∷ vector) =
    let n : ℕ = length (x ∷ vector) in
    (
      λ h. elim (Bool-cases (is_power n n)) [
        | inl power ↦ is_power_sound n n power
        | inr other ↦
            (let bad : thrown not_a_power ≡ returned (x ∷ vector) =
                rw (quantum_state, other) at h in
              cc)
      ],
      λ (k, e).
          let power : is_power n n ≡ true =
            ap (is_power n) e ∙ is_power_complete k n (omega (arith, e, below_pow k)) in
          rw power refl,
    )

halved : (n : ℕ) → IsPowerOf2 (2 * n) ↔ IsPowerOf2 n
halved n = (λ (k, e). half k e, λ (k, e). (suc k, omega (arith, e, pow-succ' 2 k)))
  where
    half : (k : ℕ) → 2 * n ≡ 2 ^ k → IsPowerOf2 n
    half zero e = absurd (omega (arith, e))
    half (suc k) e = (k, omega (arith, e, pow-succ' 2 k))

-- encode_state_diff gives the vector of differences exactly if the number of addresses that have an
-- account in one of the two states, or in both, is a power of 2.
pub encode_state_diff_iff :
    (pre_state post_state : State)
    → let pre = sort_accounts pre_state.accounts in
      let post = sort_accounts post_state.accounts in
      (encode_state_diff pre_state post_state ≡ returned (state_vector pre post))
      ↔ IsPowerOf2 (addresses pre post)
unfolding encode_state_diff get_accounts_snapshot may_lock
encode_state_diff_iff pre_state post_state =
    let pre = sort_accounts pre_state.accounts in
    let post = sort_accounts post_state.accounts in
    let whole = quantum_state_iff (state_vector pre post) in
    let size = length-state_vector pre post in
    let half = halved (addresses pre post) in
    (
      λ h. let (k, e) = whole.0 h in half.0 (k, sym size ∙ e),
      λ h. let (k, e) = half.1 h in whole.1 (k, size ∙ e),
    )

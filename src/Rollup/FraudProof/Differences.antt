-- ===== src/Rollup/FraudProof/Differences.antt =====
-- Which states have no difference.
use quids_evm_cpp.Base.{
  ℕ, ◌<◌, ◌≡◌, ◌↔◌, refl, sym, ap, subst, ◌∙◌, true, false, Bool-cases, Option-cases, inl, inr,
  Option, none, some, List, [], ◌∷◌, ◌++◌, Bytes, u64_mod, list_eq, nat_eq, list_beq, list_beq_iff,
  if◌then◌else◌, arith,
}
use quids_evm_cpp.Base.Dict.{Dict, find, contains}
use quids_evm_cpp.Rollup.StateManager.Accounts.{Account}
use quids_evm_cpp.Rollup.FraudProof.{old_difference, old_differences, new_differences, state_vector}

-- Nothing but zeros
abbrev pub AreZero : List ℕ → Type 0
AreZero [] = Unit
AreZero (x ∷ xs) = (x ≡ 0) × AreZero xs

-- The keys of a map differ.
abbrev pub IsMap : Dict Bytes Account → Type 0
IsMap [] = Unit
IsMap ((address, account) ∷ accounts) = (find address accounts ≡ none) × IsMap accounts

abbrev pub AreBounded : Dict Bytes Account → Type 0
AreBounded [] = Unit
AreBounded ((address, account) ∷ accounts) =
    (account.balance < u64_mod) × (account.nonce < u64_mod) × AreBounded accounts

-- What the vector shows of an account, or of none
abbrev pub balance_shown : Option Account → ℕ
balance_shown none = 0
balance_shown (some account) = account.balance

abbrev pub nonce_shown : Option Account → ℕ
nonce_shown none = 0
nonce_shown (some account) = account.nonce

abbrev pub AreAlike : Option Account → Option Account → Type 0
AreAlike a b = (balance_shown a ≡ balance_shown b) × (nonce_shown a ≡ nonce_shown b)

found-bounded :
    (a : Bytes) (x : Account) (m : Dict Bytes Account)
    → AreBounded m
    → find a m ≡ some x
    → (x.balance < u64_mod) × (x.nonce < u64_mod)
found-bounded a x [] h at = absurd cc
found-bounded a x ((b, y) ∷ m) (hb, hn, h) at = elim (Bool-cases (list_beq b a)) [
  | inl same ↦
      let e : y ≡ x = ground (arith, at, same) in
      (subst (λ z. z.balance < u64_mod) e hb, subst (λ z. z.nonce < u64_mod) e hn)
  | inr other ↦ found-bounded a x m h (ground (arith, at, other))
]

-- Bounds of an account, or of none
abbrev IsBounded : Option Account → Type 0
IsBounded none = Unit
IsBounded (some x) = (x.balance < u64_mod) × (x.nonce < u64_mod)

find-IsBounded : (a : Bytes) (m : Dict Bytes Account) → AreBounded m → IsBounded (find a m)
find-IsBounded a [] h = tt
find-IsBounded a ((b, y) ∷ m) (hb, hn, h) =
    elim (list_beq b a) as (λ same. IsBounded (if same then some y else find a m)) [
      | true ↦ (hb, hn)
      | false ↦ find-IsBounded a m h
    ]

-- An account of the first state shows no difference exactly if it looks like that of the second.
old_difference_iff :
    (x : Account) (found : Option Account) (rest : List ℕ)
    → x.balance < u64_mod
    → x.nonce < u64_mod
    → IsBounded found
    → AreZero (old_difference x found rest) ↔ (AreAlike (some x) found × AreZero rest)
old_difference_iff x none rest hb hn bounded = (
  λ (b, (n, z)). ((omega (arith, b, hb), omega (arith, n, hn)), z),
  λ ((b, n), z). (omega (arith, b), (omega (arith, n), z)),
)
old_difference_iff x (some y) rest hb hn (yb, yn) = (
  λ (b, (n, z)). ((omega (arith, b, hb, yb), omega (arith, n, hn, yn)), z),
  λ ((b, n), z). (omega (arith, b, hb), (omega (arith, n, hn), z)),
)

none-some : (y : Account) → ◌≡◌ {A = Option Account} none (some y) → ⊥
none-some y h = cc

some-injective : (x y : Account) → ◌≡◌ {A = Option Account} (some x) (some y) → x ≡ y
some-injective x y h = cc

-- Every account that a map has looks like what `other` has at its address.
abbrev EachIs :
    (Account → Option Account → Type 0) → Dict Bytes Account → Dict Bytes Account → Type 0
EachIs P m other = (b : Bytes) (y : Account) → find b m ≡ some y → P y (find b other)

EachIs-tail :
    (P : Account → Option Account → Type 0) (a : Bytes) (x : Account) (m other : Dict Bytes Account)
    → find a m ≡ none
    → EachIs P ((a, x) ∷ m) other
    → EachIs P m other
EachIs-tail P a x m other fresh each b y at = elim (Bool-cases (list_beq a b)) [
  | inl same ↦
      let e : a ≡ b = (list_beq_iff a b).0 same in
      absurd (none-some y (sym fresh ∙ (ap (λ k. find k m) e ∙ at)))
  | inr other' ↦ each b y (rw other' at)
]

EachIs-head :
    (P : Account → Option Account → Type 0) (a : Bytes) (x : Account) (m other : Dict Bytes Account)
    → EachIs P ((a, x) ∷ m) other
    → P x (find a other)
EachIs-head P a x m other each =
    let same : list_beq a a ≡ true = (list_beq_iff a a).1 refl in each a x (rw same refl)

old_each :
    (pre post : Dict Bytes Account)
    → IsMap pre
    → AreBounded pre
    → AreBounded post
    → EachIs (λ y found. AreAlike (some y) found) pre post
    → AreZero (old_differences pre post)
unfolding old_differences
old_each [] post map bp bq each = tt
old_each ((a, x) ∷ pre) post (fresh, map) (hb, hn, bp) bq each =
    (old_difference_iff x (find a post) (old_differences pre post) hb hn
        (find-IsBounded a post bq)).1
      (
        EachIs-head (λ y found. AreAlike (some y) found) a x pre post each,
        old_each pre post map bp bq
            (EachIs-tail (λ y found. AreAlike (some y) found) a x pre post fresh each),
      )

old_found :
    (pre post : Dict Bytes Account)
    → AreBounded pre
    → AreBounded post
    → AreZero (old_differences pre post)
    → EachIs (λ y found. AreAlike (some y) found) pre post
unfolding old_differences
old_found [] post bp bq zero b y at = absurd (none-some y at)
old_found ((a, x) ∷ pre) post (hb, hn, bp) bq zero b y at =
    let (here, later) =
      (old_difference_iff x (find a post) (old_differences pre post) hb hn
          (find-IsBounded a post bq)).0
        zero in
    elim (Bool-cases (list_beq a b)) [
      | inl same ↦
          let e : a ≡ b = (list_beq_iff a b).0 same in
          let same_account : x ≡ y = some-injective x y (rw same at at) in
          subst (λ z. AreAlike (some z) (find b post)) same_account
            (subst (λ k. AreAlike (some x) (find k post)) e here)
      | inr other ↦ old_found pre post bp bq later b y (rw other at at)
    ]

-- An account that is new shows its balance and its nonce.
IsNothing : Account → Option Account → Type 0
IsNothing y none = (y.balance ≡ 0) × (y.nonce ≡ 0)
IsNothing y (some x) = Unit

new_each :
    (post pre : Dict Bytes Account)
    → IsMap post
    → EachIs IsNothing post pre
    → AreZero (new_differences post pre)
unfolding new_differences IsNothing
new_each [] pre map each = tt
new_each ((a, y) ∷ post) pre (fresh, map) each =
    let later = new_each post pre map (EachIs-tail IsNothing a y post pre fresh each) in
    elim (Option-cases (find a pre)) [
      | inl missing ↦
          let nothing : IsNothing y none =
            subst (IsNothing y) missing (EachIs-head IsNothing a y post pre each) in
          rw (contains, missing) (nothing.0, (nothing.1, later))
      | inr (x, there) ↦ rw (contains, there) later
    ]

new_later :
    (a : Bytes) (x : Account) (post pre : Dict Bytes Account)
    → AreZero (new_differences ((a, x) ∷ post) pre)
    → AreZero (new_differences post pre)
unfolding new_differences
new_later a x post pre zero = elim (Bool-cases (contains a pre)) [
  | inl there ↦ rw there at zero
  | inr missing ↦
      let here : (x.balance ≡ 0) × ((x.nonce ≡ 0) × AreZero (new_differences post pre)) =
        rw missing at zero in
      here.1.1
]

new_found :
    (post pre : Dict Bytes Account)
    → AreZero (new_differences post pre)
    → (b : Bytes) (y : Account) → find b post ≡ some y
    → find b pre ≡ none
    → (y.balance ≡ 0) × (y.nonce ≡ 0)
unfolding new_differences
new_found [] pre zero b y at missing = absurd (none-some y at)
new_found ((a, x) ∷ post) pre zero b y at missing = elim (Bool-cases (list_beq a b)) [
  | inl same ↦
      let e : a ≡ b = (list_beq_iff a b).0 same in
      let same_account : x ≡ y = some-injective x y (rw same at at) in
      let none_there : find a pre ≡ none = ap (λ k. find k pre) e ∙ missing in
      let here : (x.balance ≡ 0) × ((x.nonce ≡ 0) × AreZero (new_differences post pre)) =
        rw (contains, none_there) at zero in
      subst (λ z. (z.balance ≡ 0) × (z.nonce ≡ 0)) same_account (here.0, here.1.0)
  | inr other ↦ new_found post pre (new_later a x post pre zero) b y (rw other at at) missing
]

nothing_lem : (y : Account) (found : Option Account) → AreAlike found (some y) → IsNothing y found
unfolding IsNothing
nothing_lem y none (b, n) = (sym b, sym n)
nothing_lem y (some x) h = tt

AreZero-append : (xs ys : List ℕ) → AreZero (xs ++ ys) ↔ (AreZero xs × AreZero ys)
AreZero-append [] ys = (λ h. (tt, h), λ h. h.1)
AreZero-append (x ∷ xs) ys =
    let later = AreZero-append xs ys in
    (λ (h, hs). let (a, b) = later.0 hs in ((h, a), b), λ ((h, a), b). (h, later.1 (a, b)))

-- For two maps of accounts whose balances and nonces are uint64_t, the vector of encode_state_diff
-- is 0 everywhere exactly if each address has the same balance and nonce in both, where an address
-- without an account counts as 0 and 0: code and storage are not compared.
pub state_vector_zero_iff :
    (pre post : Dict Bytes Account)
    → IsMap pre
    → IsMap post
    → AreBounded pre
    → AreBounded post
    → AreZero (state_vector pre post) ↔ ((a : Bytes) → AreAlike (find a pre) (find a post))
unfolding state_vector IsNothing
state_vector_zero_iff pre post mp mq bp bq =
    let both = AreZero-append (old_differences pre post) (new_differences post pre) in
    (
      λ zero a.
          let (old, new) = both.0 zero in
          elim (Option-cases (find a pre)) [
            | inr (x, there) ↦
                subst (λ found. AreAlike found (find a post)) (sym there)
                  (old_found pre post bp bq old a x there)
            | inl missing ↦ elim (Option-cases (find a post)) [
              | inl missing' ↦ rw (missing, missing') (refl, refl)
              | inr (y, there) ↦
                  let (b, n) = new_found post pre new a y there missing in
                  rw (missing, there) (sym b, sym n)
            ]
          ],
      λ alike. both.1 (
        old_each pre post mp bp bq
            (λ b y at. subst (λ found. AreAlike found (find b post)) at (alike b)),
        new_each post pre mq (λ b y at.
            nothing_lem y (find b pre) (subst (λ found. AreAlike (find b pre) found) at (alike b))),
      ),
    )

-- ===== src/Evm/Stack.antt =====
-- src/evm/Stack.cpp: the operand stack. Words are only moved, so their type is a parameter.
-- `items_` is kept with its back, the top of the stack, at the head of the list.
pub mod Laws
pub mod Calls
mod Tests
use quids_evm_cpp.Base.{
  ℕ, zero, suc, ◌-◌, none, some, List, [], ◌∷◌, ◌||◌, ltb, leb, ◌==◌, if◌then◌else◌, length,
  get_elem?, get_or, set,
}

-- What the members throw: std::runtime_error with these texts, or std::invalid_argument.
pub data Error : Type 0 where
  overflow underflow invalid_swap invalid_dup : Error

pub data Result (A : Type 0) : Type 0 where
  ok : A → Result A
  err : Error → Result A

abbrev pub limit : ℕ
limit = 1024

module _ {A : Type 0} where
  unfoldable pub push : A → List A → Result (List A)
  push value items = if leb limit (length items) then err overflow else ok (value ∷ items)

  unfoldable pub pop : List A → Result (A × List A)
  pop [] = err underflow
  pop (value ∷ items) = ok (value, items)

  -- What is done with `items_[items_.size() - 1 - depth]`; the guards keep the read in range.
  abbrev pub at : {B : Type 0} → ℕ → List A → (A → Result B) → Result B
  at depth items k = elim (get_elem? items depth) [ none ↦ err underflow | some value ↦ k value ]

  unfoldable pub peek : ℕ → List A → Result A
  peek depth items = if leb (length items) depth then err underflow else at depth items ok

  -- std::swap of the top with the item `n` below it
  exchange : ℕ → List A → List A
  exchange zero items = items
  exchange (suc m) [] = []
  exchange (suc m) (top ∷ rest) = get_or rest m top ∷ set rest m top

  unfoldable pub swap : ℕ → List A → Result (List A)
  unfolding exchange
  swap n items =
      if n == 0 || ltb 16 n
      then err invalid_swap
      else if leb (length items) n
      then err underflow
      else ok (exchange n items)

  unfoldable pub dup : ℕ → List A → Result (List A)
  unfolding push
  dup n items =
      if n == 0 || ltb 16 n
      then err invalid_dup
      else if ltb (length items) n
      then err underflow
      else at (n - 1) items (λ value. push value items)

  abbrev pub size : List A → ℕ
  size = length

  abbrev pub clear : List A → List A
  clear items = []

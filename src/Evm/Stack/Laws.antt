-- ===== src/Evm/Stack/Laws.antt =====
-- The stack's limit, and what push, pop, peek, swap and dup do to its items.
use quids_evm_cpp.Base.{
  ℕ, zero, suc, ◌-◌, ◌≤◌, ◌<◌, ◌≡◌, refl, some, List, [], ◌∷◌, arith, ◌==◌, if◌then◌else◌, length,
  get_elem?, length-set, get_elem?-set, get_elem?-some, get_elem?-get_or,
}
use quids_evm_cpp.Evm.Stack.{Result, ok, err, limit, push, swap, dup, exchange}

module _ {A : Type 0} where
  length-exchange : (n : ℕ) (items : List A) → length (exchange n items) ≡ length items
  unfolding exchange
  length-exchange zero items = refl
  length-exchange (suc m) [] = refl
  length-exchange (suc m) (top ∷ rest) = omega (arith, length-set rest m top)

  get_elem?-exchange :
      (n k : ℕ) (items : List A)
      → n < length items
      → get_elem? (exchange n items) k
        ≡ get_elem? items (if k == 0 then n else if k == n then 0 else k)
  unfolding exchange
  get_elem?-exchange zero k items h = ground arith
  get_elem?-exchange (suc m) k [] h = elim h [ ]
  get_elem?-exchange (suc m) zero (top ∷ rest) h = ground (arith, get_elem?-get_or rest m top)
  get_elem?-exchange (suc m) (suc k) (top ∷ rest) h = ground (arith, get_elem?-set rest m k top)

  -- A swap with a depth of 1 to 16 that the stack has exchanges the top with the item that deep,
  -- and leaves every other item and the depth as they were.
  pub swap_exchanges :
      (n : ℕ) (items : List A)
      → 0 < n
      → n ≤ 16
      → n < length items
      → (items' : List A) × (swap n items ≡ ok items')
        × (length items' ≡ length items)
        × ((k : ℕ)
            → get_elem? items' k ≡ get_elem? items (if k == 0 then n else if k == n then 0 else k))
  unfolding swap
  swap_exchanges n items pos le deep = (
    exchange n items,
    ground arith,
    length-exchange n items,
    λ k. get_elem?-exchange n k items deep,
  )

  -- What a call may leave behind: a stack within the limit.
  abbrev pub Within : Result (List A) → Type 0
  Within (ok items) = length items ≤ limit
  Within (err e) = Unit

  pub push-Within : (x : A) (items : List A) → Within (push x items)
  unfolding push
  push-Within x items = ground arith

  pub swap-Within : (n : ℕ) (items : List A) → length items ≤ limit → Within (swap n items)
  unfolding swap
  swap-Within n items h = ground (arith, length-exchange n items)

  pub dup-Within : (n : ℕ) (items : List A) → Within (dup n items)
  unfolding dup
  dup-Within n items = ground arith

  -- A `dup` with a depth of 1 to 16 returns exactly if the stack has that many items and is not
  -- full; it then puts the item that it names on top of the unchanged stack.
  pub dup_copies :
      (n : ℕ) (items : List A)
      → 0 < n
      → n ≤ 16
      → n ≤ length items
      → length items < limit
      → (x : A) × (get_elem? items (n - 1) ≡ some x) × (dup n items ≡ ok (x ∷ items))
  unfolding dup
  dup_copies n items pos le deep room =
      let (x, e) = get_elem?-some items (n - 1) (omega arith) in (x, e, ground arith)

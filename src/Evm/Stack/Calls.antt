-- ===== src/Evm/Stack/Calls.antt =====
-- Histories of calls on one stack.
use quids_evm_cpp.Base.{ℕ, ◌≤◌, List, [], ◌∷◌, arith, length}
use quids_evm_cpp.Evm.Stack.{Result, ok, err, limit, push, pop, swap, dup, clear}
use quids_evm_cpp.Evm.Stack.Laws.{Within, push-Within, swap-Within, dup-Within}

-- A call of a member that changes the stack.
pub data Call (A : Type 0) : Type 0 where
  pushes : A → Call A
  swaps dups : ℕ → Call A
  pops clears : Call A

module _ {A : Type 0} where
  abbrev after_pop : Result (A × List A) → Result (List A)
  after_pop (ok (value, items)) = ok items
  after_pop (err e) = err e

  abbrev apply : Call A → List A → Result (List A)
  apply (pushes value) items = push value items
  apply (swaps n) items = swap n items
  apply (dups n) items = dup n items
  apply pops items = after_pop (pop items)
  apply clears items = ok (clear items)

  -- A call that throws leaves the stack as it was.
  abbrev kept : List A → Result (List A) → List A
  kept items (ok items') = items'
  kept items (err e) = items

  unfoldable pub run : List (Call A) → List A → List A
  run [] items = items
  run (c ∷ cs) items = run cs (kept items (apply c items))

  pop-Within : (items : List A) → length items ≤ limit → Within (after_pop (pop items))
  unfolding pop
  pop-Within [] h = tt
  pop-Within (x ∷ items) h = omega arith

  apply-Within : (c : Call A) (items : List A) → length items ≤ limit → Within (apply c items)
  apply-Within (pushes value) items h = push-Within value items
  apply-Within (swaps n) items h = swap-Within n items h
  apply-Within (dups n) items h = dup-Within n items
  apply-Within pops items h = pop-Within items h
  apply-Within clears items h = omega arith

  kept-le :
      (items : List A) (r : Result (List A))
      → length items ≤ limit
      → Within r
      → length (kept items r) ≤ limit
  kept-le items (ok items') h w = w
  kept-le items (err e) h w = h

  -- No sequence of calls takes the stack above its limit of 1024 items.
  pub run-le-limit :
      (cs : List (Call A)) (items : List A) → length items ≤ limit → length (run cs items) ≤ limit
  unfolding run
  run-le-limit [] items h = h
  run-le-limit (c ∷ cs) items h =
      run-le-limit cs _ (kept-le items (apply c items) h (apply-Within c items h))

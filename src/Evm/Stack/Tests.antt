-- ===== src/Evm/Stack/Tests.antt =====
-- The stack's theorems at concrete stacks.
use quids_evm_cpp.Base.{ℕ, ◌≤◌, ◌≡◌, refl, List, [], ◌∷◌, arith, length}
use quids_evm_cpp.Evm.Stack.{ok, err, underflow, invalid_swap, limit, push, pop, peek, swap, dup}
use quids_evm_cpp.Evm.Stack.Calls.{Call, pushes, swaps, dups, pops, run, run-le-limit}

-- 30 is on top.
abbrev three : List ℕ
three = 30 ∷ 20 ∷ 10 ∷ []

swap_deep : swap 2 three ≡ ok (10 ∷ 20 ∷ 30 ∷ [])
unfolding swap
swap_deep = refl

swap_missing : swap 3 three ≡ err underflow
unfolding swap
swap_missing = refl

swap_zero : swap 0 three ≡ err invalid_swap
unfolding swap
swap_zero = refl

peek_second : peek 1 three ≡ ok 20
unfolding peek
peek_second = refl

abbrev calls : List (Call ℕ)
calls = pushes 5 ∷ dups 4 ∷ swaps 2 ∷ pops ∷ pops ∷ pops ∷ pops ∷ pops ∷ pops ∷ pushes 1 ∷ []

run-calls : run calls three ≡ 1 ∷ []
unfolding run push swap dup pop
run-calls = refl

run-le-limit_example : length (run calls three) ≤ limit
run-le-limit_example = run-le-limit calls three (omega arith)

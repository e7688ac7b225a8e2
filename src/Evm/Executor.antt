-- ===== src/Evm/Executor.antt =====
-- src/evm/EVMExecutor.cpp and include/evm/EVMExecutor.hpp: the contract executor and the balances.
-- The opcodes and the labels of its `switch` are in `Evm.Opcodes`. A call returns what the C++
-- returns and the executor afterwards: what was written before an exception stays written.
pub mod Gas
pub mod Cost
pub mod Push
pub mod Writes
pub mod Transfers
mod Tests
use Prim.Native.String.{String}
use quids_evm_cpp.Base.{
  ℕ, zero, suc, ◌+◌, ◌-◌, ◌%◌, Bool, true, false, not, ◌&&◌, ◌||◌, Option, none, some, List, [],
  ◌∷◌, Bytes, u64_mod, Eq, nat_eq, list_eq, ltb, leb, ◌==◌, if◌then◌else◌, length, empty, get_or,
}
use quids_evm_cpp.Base.Dict.{Dict, find, insert}
use quids_evm_cpp.Evm.Uint256.{Uint256}
use quids_evm_cpp.Evm.Stack
use quids_evm_cpp.Evm.Address.{Address}
use quids_evm_cpp.Evm.Storage.{Words}
use quids_evm_cpp.Evm.Storage
use quids_evm_cpp.Blockchain.Transaction.{Transaction}
use quids_evm_cpp.Evm.Opcodes.{
  Branch, branch_of, base, verylow, warm_storage_read_cost, sstore_set_gas, invalid_op,
  selfdestruct_op,
}

-- `Impl`
pub record Impl (Word : Type 0) : Type 0 where
  pub balances : Dict Bytes ℕ
  pub code : Dict Bytes Bytes
  pub storage : Dict Bytes (Dict Word Bytes)

-- The members that calls change or read; `stack` has its top at the head.
pub record Executor (Word : Type 0) : Type 0 where
  pub memory : Bytes
  pub stack : List Word
  pub storage : Words Word
  pub gas_used : ℕ
  pub gas_limit : ℕ
  pub impl : Impl Word

pub record ExecutionResult : Type 0 where
  pub success : Bool
  pub return_data : Bytes
  pub gas_used : ℕ
  pub error_message : String

pub data Error : Type 0 where
  out_of_gas push_exceeds_code unknown_opcode : Error
  stack_error : Stack.Error → Error

-- `e.what()`
unfoldable pub what : Error → String
what out_of_gas = "Out of gas"
what push_exceeds_code = "Push exceeds code size"
what unknown_opcode = "Unknown or unimplemented opcode"
what (stack_error Stack.overflow) = "Stack overflow"
what (stack_error Stack.underflow) = "Stack underflow"
what (stack_error Stack.invalid_swap) = "Invalid swap depth"
what (stack_error Stack.invalid_dup) = "Invalid dup depth"

-- A statement that may throw: an exception carries the executor as it was then.
pub data Result (Word A : Type 0) : Type 0 where
  ok : A → Result Word A
  err : Error → Executor Word → Result Word A

infixl 5 ◌>>=◌
abbrev pub ◌>>=◌ : {Word A B : Type 0} → Result Word A → (A → Result Word B) → Result Word B
ok a >>= f = f a
err e s >>= f = err e s

module _ {Word : Type 0} where
  -- The sum is a uint64_t.
  unfoldable pub require_gas : ℕ → Executor Word → Result Word (Executor Word)
  require_gas gas s =
      let sum = (s.gas_used + gas) % u64_mod in
      if ltb s.gas_limit sum then err out_of_gas s else ok (record s { gas_used = sum })

  unfoldable pub pop_word : Executor Word → Result Word (Word × Executor Word)
  pop_word s = elim (Stack.pop s.stack) [
    | Stack.ok (value, items) ↦ ok (value, record s { stack = items })
    | Stack.err e ↦ err (stack_error e) s
  ]

  unfoldable pub push_word : Word → Executor Word → Result Word (Executor Word)
  push_word value s = elim (Stack.push value s.stack) [
    | Stack.ok items ↦ ok (record s { stack = items })
    | Stack.err e ↦ err (stack_error e) s
  ]

-- What a round of the loop does with the program counter.
pub data Signal : Type 0 where
  halts : Signal
  goes : ℕ → Signal

-- How the loop ends: `end` is its own end or a STOP.
pub data Ending : Type 0 where
  end : Ending
  failed : Error → Ending

module _ (W : Uint256) where
  -- The `for` loop of a PUSH with `n` rounds left: `value` so far, the next byte at `i`.
  unfoldable pub push_value : ℕ → ℕ → Bytes → W.Word → W.Word
  push_value zero i code value = value
  push_value (suc n) i code value =
      push_value n (i + 1) code (W.bit_or (W.shl8 value) (W.of_u64 (get_or code i 0)))

  -- The signal and the executor after a statement.
  abbrev pub Round : Type 0
  Round = Result W.Word (Signal × Executor W.Word)

  unfoldable pub run_push : ℕ → Bytes → ℕ → Executor W.Word → Round
  unfolding require_gas push_value push_word
  run_push push_bytes code pc s = do
    s1 ← require_gas verylow s
    s2 ← if leb (length code) (pc + push_bytes) then err push_exceeds_code s1 else ok s1
    s3 ← push_word (push_value push_bytes (pc + 1) code (W.of_u64 0)) s2
    ok (goes (pc + push_bytes + 1), s3)

  unfoldable pub run_sload : Address → ℕ → Executor W.Word → Round
  unfolding require_gas pop_word push_word
  run_sload contract_address pc s = do
    s1 ← require_gas warm_storage_read_cost s
    (key, s2) ← pop_word s1
    s3 ← push_word (Storage.load ⦃e = W.eq⦄ (W.of_u64 0) contract_address key s2.storage) s2
    ok (goes (pc + 1), s3)

  unfoldable pub run_sstore : Address → ℕ → Executor W.Word → Round
  unfolding require_gas pop_word
  run_sstore contract_address pc s = do
    s1 ← require_gas sstore_set_gas s
    (value, s2) ← pop_word s1
    (key, s3) ← pop_word s2
    let storage = Storage.store ⦃e = W.eq⦄ contract_address key value s3.storage
    ok (goes (pc + 1), record s3 { storage = storage })

  -- One branch of the `switch`, with the `pc++` behind it.
  unfoldable pub run_branch : Branch → Address → Bytes → ℕ → Executor W.Word → Round
  unfolding require_gas push_word run_push run_sload run_sstore
  run_branch Branch.stop contract_address code pc s = do s1 ← require_gas 0 s; ok (halts, s1)
  run_branch (Branch.charge gas) contract_address code pc s = do
    s1 ← require_gas gas s
    ok (goes (pc + 1), s1)
  run_branch Branch.sload contract_address code pc s = run_sload contract_address pc s
  run_branch Branch.sstore contract_address code pc s = run_sstore contract_address pc s
  run_branch Branch.push_zero contract_address code pc s = do
    s1 ← require_gas base s
    s2 ← push_word (W.of_u64 0) s1
    ok (goes (pc + 1), s2)
  run_branch (Branch.push n) contract_address code pc s = run_push n code pc s
  run_branch Branch.unknown contract_address code pc s = err unknown_opcode s

  -- What follows a round of the loop, where `rounds` are those that are left.
  abbrev pub continue :
      (ℕ → Executor W.Word → Option (Ending × Executor W.Word))
      → Round
      → Option (Ending × Executor W.Word)
  continue rounds (err e s) = some (failed e, s)
  continue rounds (ok (halts, s)) = some (end, s)
  continue rounds (ok (goes next, s)) = rounds next s

  -- `while (pc < code.size())`, on fuel; `none` means that the fuel ran out.
  unfoldable pub loop :
      ℕ → Address → Bytes → ℕ → Executor W.Word → Option (Ending × Executor W.Word)
  loop zero contract_address code pc s = none
  loop (suc fuel) contract_address code pc s =
      let round = run_branch (branch_of (get_or code pc 0)) contract_address code pc s in
      elim (leb (length code) pc) [
        | true ↦ some (end, s)
        | false ↦ continue (loop fuel contract_address code) round
      ]

  abbrev pub result_of : Ending × Executor W.Word → ExecutionResult × Executor W.Word
  result_of (end, s) =
      (record { success = true; return_data = []; gas_used = s.gas_used; error_message = "" }, s)
  result_of (failed e, s) = (
    record { success = false; return_data = []; gas_used = s.gas_used; error_message = what e },
    s,
  )

  -- A code of `n` bytes takes at most `n` rounds, and one more test.
  unfoldable pub execute_contract :
      Address → Bytes → Bytes → ℕ → Executor W.Word → Option (ExecutionResult × Executor W.Word)
  unfolding loop
  execute_contract contract_address code input_data gas_limit s =
      elim (loop (suc (length code)) contract_address code 0
        (record s { gas_used = 0; gas_limit = gas_limit })) [
          | none ↦ none
          | some ending ↦ some (result_of ending)
        ]

-- `balances[a]`, which is 0 for an account that is not there
abbrev pub balance : Bytes → Dict Bytes ℕ → ℕ
balance a balances = elim (find a balances) [ none ↦ 0 | some amount ↦ amount ]

abbrev pub code_of : Bytes → Dict Bytes Bytes → Bytes
code_of a code = elim (find a code) [ none ↦ [] | some bytes ↦ bytes ]

module _ {Word : Type 0} where
  unfoldable pub execute : Transaction → Executor Word → Bool × Executor Word
  execute tx s =
      let seen = insert tx.from (balance tx.from s.impl.balances) s.impl.balances in
      let taken = insert tx.from (balance tx.from seen - tx.value) seen in
      let given = insert tx.to ((balance tx.to taken + tx.value) % u64_mod) taken in
      let looked = insert tx.to (code_of tx.to s.impl.code) s.impl.code in
      let code = if empty tx.payload then s.impl.code else looked in
      if ltb (balance tx.from seen) tx.value
      then (false, record s { impl = record (s.impl) { balances = seen } })
      else (true, record s { impl = record (s.impl) { balances = given; code = code } })

  -- `getBalance`, `getCode`
  unfoldable pub get_balance : Bytes → Executor Word → ℕ
  get_balance a s = balance a s.impl.balances

  unfoldable pub get_code : Bytes → Executor Word → Bytes
  get_code a s = code_of a s.impl.code

  -- `getStorage`
  unfoldable pub get_storage : ⦃e : Eq Word⦄ → Bytes → Word → Executor Word → Bytes
  get_storage a key s = elim (find a s.impl.storage) [
    | none ↦ []
    | some words ↦ elim (find key words) [ none ↦ [] | some bytes ↦ bytes ]
  ]

-- The loop of `deploy`
unfoldable pub validate_code : Bytes → Bool
validate_code [] = true
validate_code (b ∷ code) =
    let rest = validate_code code in if b == invalid_op || b == selfdestruct_op then false else rest

unfoldable pub deploy : Bytes → Bool
unfolding validate_code
deploy code = if empty code then false else validate_code code

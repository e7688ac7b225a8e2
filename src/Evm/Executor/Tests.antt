-- ===== src/Evm/Executor/Tests.antt =====
-- Concrete runs, with the 256-bit integers of the model.
use quids_evm_cpp.Base.{
  ℕ, ◌+◌, ◌-◌, ◌%◌, ◌≡◌, refl, true, false, some, [], ◌∷◌, ◌&&◌, not, arith, Bytes, u64_mod, leb,
  nat_eq, if◌then◌else◌,
}
use quids_evm_cpp.Blockchain.Transaction.{Transaction, new_transaction}
use quids_evm_cpp.Evm.Uint256.Model.{uint256, Word256, wrap}
use quids_evm_cpp.Evm.Stack
use quids_evm_cpp.Evm.Address.{Address}
use quids_evm_cpp.Evm.Address.Order.{address_eq}
use quids_evm_cpp.Evm.Storage
use quids_evm_cpp.Evm.Opcodes.{Branch, branch_of, sstore_op, sload_op, verylow}
use quids_evm_cpp.Evm.Executor.{
  Executor, ExecutionResult, ok, goes, run_push, run_branch, execute_contract, execute, get_balance,
}
use quids_evm_cpp.Evm.Executor.Gas.{IsRun, execute_contract_returns}
use quids_evm_cpp.Evm.Executor.Cost.{static_cost, gas_used_exact}
use quids_evm_cpp.Evm.Executor.Push.{be_value, run_push_reads}
use quids_evm_cpp.Evm.Executor.Writes.{sstore_sload}
use quids_evm_cpp.Evm.Executor.Transfers.{supply, execute_conserves, execute_moves}

abbrev contract : Address
contract = record { bytes = 7 ∷ [] }

-- Alice, [1], has 50, and bob, [2], has 7.
abbrev idle : Executor Word256
idle = record {
  memory = [];
  stack = [];
  storage = [];
  gas_used = 0;
  gas_limit = 0;
  impl = record { balances = (1 ∷ [], 50) ∷ (2 ∷ [], 7) ∷ []; code = []; storage = [] };
}

-- A value, its key, and the same key.
abbrev loaded : Executor Word256
loaded = record idle { stack = wrap 70 ∷ wrap 7 ∷ wrap 7 ∷ [] }

-- PUSH2 0x0102, RETURN, JUMPDEST
abbrev program : Bytes
program = 0x61 ∷ 1 ∷ 2 ∷ 0xf3 ∷ 0x5b ∷ []

run_program :
    execute_contract uint256 contract program [] 10 idle
    ≡ some (
      record { success = true; return_data = []; gas_used = 4; error_message = "" },
      record idle { stack = wrap 0x0102 ∷ []; gas_used = 4; gas_limit = 10 },
    )
unfolding execute_contract run_branch branch_of Stack.push
run_program = refl

execute_contract_returns_example :
    (r : ExecutionResult) × (s' : Executor Word256) × (execute_contract uint256 contract program []
        10 idle
      ≡ some (r, s'))
    × IsRun uint256 contract program [] 10 idle r s'
execute_contract_returns_example =
    execute_contract_returns uint256 contract program [] 10 idle (omega arith)

gas_used_exact_example : ◌≡◌ {A = ℕ} 4 (static_cost 6 program 0)
gas_used_exact_example =
    gas_used_exact uint256 contract program [] 10 idle _ _ (omega arith) run_program refl

run_push_reads_example :
    (w : Word256) × (run_push uint256 2 program 0 (record idle { gas_limit = 10 })
      ≡ ok (goes 3, record idle { stack = w ∷ []; gas_used = verylow; gas_limit = 10 }))
    × (w.0 ≡ be_value (1 ∷ 2 ∷ []))
run_push_reads_example =
    run_push_reads uint256 2 0 program (record idle { gas_limit = 10 }) (omega arith) (omega arith)
      (omega arith) (omega arith) (omega arith) (omega arith)

invalid_unknown : branch_of 0xfe ≡ Branch.unknown
unfolding branch_of
invalid_unknown = refl

sstore_sload_example :
    (r : ExecutionResult) × (s' : Executor Word256) × (execute_contract uint256 contract
        (sstore_op ∷ (sload_op ∷ []))
        []
        30000
        loaded
      ≡ some (r, s'))
    × (r.success ≡ true)
    × (r.gas_used ≡ 20100)
    × (s'.stack ≡ wrap 70 ∷ [])
    × (s'.storage ≡ Storage.store ⦃e = uint256.eq⦄ contract (wrap 7) (wrap 70) [])
sstore_sload_example =
    sstore_sload uint256 contract (wrap 70) (wrap 7) (wrap 7 ∷ []) 30000 loaded (wrap 7) [] [] refl
      refl (omega arith) (omega arith) (omega arith)

abbrev payment : Transaction
payment = record (new_transaction 0 []) { from = 1 ∷ []; to = 2 ∷ []; value = 20 }

pay : (execute payment idle).1.impl.balances ≡ (1 ∷ [], 30) ∷ (2 ∷ [], 27) ∷ []
unfolding execute
pay = refl

execute_conserves_example :
    (supply (execute payment idle).1.impl.balances ≡ supply idle.impl.balances)
    × ((execute payment idle).0 ≡ leb 20 (get_balance (1 ∷ []) idle))
execute_conserves_example = execute_conserves payment idle (omega arith)

execute_moves_example : get_balance (2 ∷ []) (execute payment idle).1 ≡ (
    if leb 20 (get_balance (1 ∷ []) idle) && not false
    then if false
      then get_balance (2 ∷ []) idle - 20
      else if true
      then (get_balance (2 ∷ []) idle + 20) % u64_mod
      else get_balance (2 ∷ []) idle
    else get_balance (2 ∷ []) idle)
unfolding get_balance
execute_moves_example = execute_moves payment idle (2 ∷ []) (omega arith) (omega arith)

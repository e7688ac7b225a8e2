-- ===== src/Evm/Executor/Cost.antt =====
-- The gas of a run that succeeds, read off the code: nothing in the code changes the path.
use quids_evm_cpp.Base.{
  ℕ, zero, suc, ◌+◌, ◌≤◌, ◌<◌, ◌≡◌, refl, ap, ◌≢◌, true, inl, inr, Bool-cases, Option, none, some,
  arith, Bytes, u64_mod, leb, if◌then◌else◌, length, get_or,
}
use quids_evm_cpp.Evm.Uint256.{Uint256}
use quids_evm_cpp.Evm.Stack
use quids_evm_cpp.Evm.Address.{Address}
use quids_evm_cpp.Evm.Opcodes.{
  Branch, branch_of, base, verylow, warm_storage_read_cost, sstore_set_gas, create_gas,
}
use quids_evm_cpp.Evm.Executor.{
  Executor, ExecutionResult, Result, ok, err, Signal, halts, goes, Ending, end, failed, run_branch,
  continue, loop, result_of, execute_contract,
}
use quids_evm_cpp.Evm.Executor.Gas.{prepared, loop_of_execute}

abbrev pub cost_of : Branch → ℕ
cost_of Branch.stop = 0
cost_of (Branch.charge gas) = gas
cost_of Branch.sload = warm_storage_read_cost
cost_of Branch.sstore = sstore_set_gas
cost_of Branch.push_zero = base
cost_of (Branch.push n) = verylow
cost_of Branch.unknown = 0

-- The bytes of an instruction.
abbrev pub width_of : Branch → ℕ
width_of (Branch.push n) = n + 1
width_of _ = 1

branch_cost : (opcode : ℕ) → cost_of (branch_of opcode) ≤ create_gas
unfolding branch_of
branch_cost opcode = ground arith

abbrev pub with_cost : Branch → ℕ → ℕ
with_cost Branch.stop rest = 0
with_cost branch rest = cost_of branch + rest

-- The cost of the instructions from `pc` on, up to a STOP or the end: the code read in one pass.
unfoldable pub static_cost : ℕ → Bytes → ℕ → ℕ
static_cost zero code pc = 0
static_cost (suc fuel) code pc =
    let branch = branch_of (get_or code pc 0) in
    let rest = static_cost fuel code (pc + width_of branch) in
    if leb (length code) pc then 0 else with_cost branch rest

abbrev ending_gas : {Word : Type 0} → Option (Ending × Executor Word) → ℕ
ending_gas none = 0
ending_gas (some (e, s)) = s.gas_used

module _ (W : Uint256) (contract_address : Address) (code : Bytes) where
  -- A round that does not throw has taken the branch's cost, and goes to the next instruction
  -- unless the branch is STOP.
  abbrev Charges : Branch → ℕ → Executor W.Word → Result W.Word (Signal × Executor W.Word) → Type 0
  Charges branch pc s (err e s') = Unit
  Charges branch pc s (ok (halts, s')) =
      (branch ≡ Branch.stop) × (s'.gas_used ≡ s.gas_used) × (s'.gas_limit ≡ s.gas_limit)
  Charges branch pc s (ok (goes next, s')) =
      (branch ≢ Branch.stop)
      × (next ≡ pc + width_of branch)
      × (s'.gas_used ≡ s.gas_used + cost_of branch)
      × (s'.gas_limit ≡ s.gas_limit)
      × (s'.gas_used ≤ s'.gas_limit)

  run_branch-Charges :
      (branch : Branch) (pc : ℕ) (s : Executor W.Word)
      → cost_of branch ≤ create_gas
      → s.gas_used ≤ s.gas_limit
      → s.gas_limit + create_gas < u64_mod
      → Charges branch pc s (run_branch W branch contract_address code pc s)
  unfolding run_branch Stack.push Stack.pop
  run_branch-Charges Branch.stop pc s c h k = ground arith
  run_branch-Charges (Branch.charge gas) pc s c h k = ground arith
  run_branch-Charges Branch.sload pc s c h k = ground arith
  run_branch-Charges Branch.sstore pc s c h k = ground arith
  run_branch-Charges Branch.push_zero pc s c h k = ground arith
  run_branch-Charges (Branch.push n) pc s c h k = ground arith
  run_branch-Charges Branch.unknown pc s c h k = ground arith

  with_cost_lem :
      (branch : Branch) (rest : ℕ)
      → branch ≢ Branch.stop
      → with_cost branch rest ≡ cost_of branch + rest
  with_cost_lem Branch.stop rest h = absurd (h refl)
  with_cost_lem branch rest h = refl

  continue-cost :
      (k : ℕ → Executor W.Word → Option (Ending × Executor W.Word)) (branch : Branch) (pc rest : ℕ)
      (s s' : Executor W.Word) (round : Result W.Word (Signal × Executor W.Word))
      → Charges branch pc s round
      → ((t : Executor W.Word)
          → t.gas_limit ≡ s.gas_limit
          → t.gas_used ≤ t.gas_limit
          → k (pc + width_of branch) t ≡ some (end, s')
          → s'.gas_used ≡ t.gas_used + rest)
      → continue W k round ≡ some (end, s')
      → s'.gas_used ≡ s.gas_used + with_cost branch rest
  continue-cost k branch pc rest s s' (err e t) c next q = cc
  continue-cost k branch pc rest s s' (ok (halts, t)) (stops, used, limit) next q =
      rw stops (omega (arith, ap ending_gas q))
  continue-cost k branch pc rest s s' (ok (goes n, t)) (other, moved, used, limit, bound) next q =
      rw (with_cost_lem branch rest other) (omega (arith, next t limit bound (rw (← moved) q)))

  loop-cost :
      (fuel pc : ℕ) (s s' : Executor W.Word)
      → s.gas_used ≤ s.gas_limit
      → s.gas_limit + create_gas < u64_mod
      → loop W fuel contract_address code pc s ≡ some (end, s')
      → s'.gas_used ≡ s.gas_used + static_cost fuel code pc
  unfolding loop static_cost
  loop-cost zero pc s s' h k q = cc
  loop-cost (suc fuel) pc s s' h k q = elim (Bool-cases (leb (length code) pc)) [
    | inl out ↦ rw (out, static_cost) (omega (arith, ap ending_gas (rw (out, loop) at q)))
    | inr inside ↦
        rw (inside, static_cost)
          (continue-cost (loop W fuel contract_address code) (branch_of (get_or code pc 0)) pc _ s
            s' _ (run_branch-Charges _ pc s (branch_cost (get_or code pc 0)) h k)
            (λ t limit bound r. loop-cost fuel _ t s' bound (rw limit k) r)
            (rw (inside, loop) at q))
  ]

-- With a gas limit of at most 2 ^ 64 - 32001, a run that succeeds has used exactly the cost of the
-- instructions from the first on, each at its own place in the code, up to a STOP or the end.
-- In particular a JUMP, a JUMPI, a RETURN or a REVERT is followed by the instruction behind it.
pub gas_used_exact :
    (W : Uint256) (contract_address : Address) (code input_data : Bytes) (gas_limit : ℕ)
    (s s' : Executor W.Word) (r : ExecutionResult)
    → gas_limit + create_gas < u64_mod
    → execute_contract W contract_address code input_data gas_limit s ≡ some (r, s')
    → r.success ≡ true
    → r.gas_used ≡ static_cost (suc (length code)) code 0
gas_used_exact W contract_address code input_data gas_limit s s' r h q e =
    let (ending, p, same) =
      loop_of_execute W contract_address code input_data gas_limit s (r, s') q in
    finish ending p same
  where
    finish :
        (ending : Ending × Executor W.Word)
        → loop W
            (suc (length code))
            contract_address
            code
            0
            (prepared W contract_address code input_data gas_limit s)
          ≡ some ending
        → result_of W ending ≡ (r, s')
        → r.gas_used ≡ static_cost (suc (length code)) code 0
    finish (end, t) p same = omega (
      arith,
      ap (λ (x : ExecutionResult × Executor W.Word). x.0.gas_used) same,
      loop-cost W contract_address code (suc (length code)) 0 _ t (omega arith) h p,
    )
    finish (failed x, t) p same =
        cc (ap (λ (x : ExecutionResult × Executor W.Word). x.0.success) same)

-- ===== src/Evm/Executor/Gas.antt =====
-- What a run of the executor uses and leaves: gas within its limit, a bounded stack, and an end.
use quids_evm_cpp.Base.{
  ℕ, zero, suc, ◌-◌, ◌≤◌, ◌<◌, ◌≡◌, refl, ap, ◌∙◌, inl, inr, Bool-cases, Option, none, some, arith,
  Bytes, leb, length,
}
use quids_evm_cpp.Evm.Uint256.{Uint256}
use quids_evm_cpp.Evm.Stack
use quids_evm_cpp.Evm.Address.{Address}
use quids_evm_cpp.Evm.Opcodes.{Branch}
use quids_evm_cpp.Evm.Executor.{
  Executor, ExecutionResult, Result, ok, err, Signal, halts, goes, Ending, end, failed, run_branch,
  continue, loop, result_of, execute_contract,
}

-- The gas used is within the limit and the stack within its own.
pub record IsBounded {Word : Type 0} (s : Executor Word) : Type 0 where
  pub gas : s.gas_used ≤ s.gas_limit
  pub stack : length s.stack ≤ Stack.limit

-- What a step keeps.
pub record Keeps {Word : Type 0} (s s' : Executor Word) : Type 0 where
  pub bounded : IsBounded s'
  pub limit : s'.gas_limit ≡ s.gas_limit
  pub memory : s'.memory ≡ s.memory
  pub impl : s'.impl ≡ s.impl

Keeps-trans : {Word : Type 0} {s t u : Executor Word} → Keeps s t → Keeps t u → Keeps s u
Keeps-trans h k = record {
  bounded = k.bounded;
  limit = k.limit ∙ h.limit;
  memory = k.memory ∙ h.memory;
  impl = k.impl ∙ h.impl;
}

Keeps-refl : {Word : Type 0} {s : Executor Word} → IsBounded s → Keeps s s
Keeps-refl b = record { bounded = b; limit = refl; memory = refl; impl = refl }

-- The executor after a round, however it went.
abbrev pub after : {Word : Type 0} → Result Word (Signal × Executor Word) → Executor Word
after (ok (signal, s)) = s
after (err e s) = s

module _ (W : Uint256) (contract_address : Address) (code : Bytes) (pc : ℕ) where
  run_branch-Keeps :
      (branch : Branch) (s : Executor W.Word)
      → IsBounded s
      → Keeps s (after (run_branch W branch contract_address code pc s))
  unfolding run_branch Stack.push Stack.pop
  run_branch-Keeps Branch.stop s b = ground arith
  run_branch-Keeps (Branch.charge gas) s b = ground arith
  run_branch-Keeps Branch.sload s b = ground arith
  run_branch-Keeps Branch.sstore s b = ground arith
  run_branch-Keeps Branch.push_zero s b = ground arith
  run_branch-Keeps (Branch.push n) s b = ground arith
  run_branch-Keeps Branch.unknown s b = ground arith

  -- A round that goes on moves the program counter forward.
  abbrev pub Advances : Result W.Word (Signal × Executor W.Word) → Type 0
  Advances (ok (goes next, s)) = pc < next
  Advances (ok (halts, s)) = Unit
  Advances (err e s) = Unit

  run_branch-Advances :
      (branch : Branch) (s : Executor W.Word)
      → Advances (run_branch W branch contract_address code pc s)
  unfolding run_branch Stack.push Stack.pop
  run_branch-Advances Branch.stop s = ground arith
  run_branch-Advances (Branch.charge gas) s = ground arith
  run_branch-Advances Branch.sload s = ground arith
  run_branch-Advances Branch.sstore s = ground arith
  run_branch-Advances Branch.push_zero s = ground arith
  run_branch-Advances (Branch.push n) s = ground arith
  run_branch-Advances Branch.unknown s = ground arith

module _ (W : Uint256) (contract_address : Address) (code : Bytes) where
  -- The loop ends on fuel above the bytes that are left, and keeps what a step keeps.
  abbrev Ends : Executor W.Word → Option (Ending × Executor W.Word) → Type 0
  Ends s o = (e : Ending × Executor W.Word) × (o ≡ some e) × Keeps s e.1

  continue-Ends :
      (k : ℕ → Executor W.Word → Option (Ending × Executor W.Word)) (pc : ℕ) (s : Executor W.Word)
      (round : Result W.Word (Signal × Executor W.Word))
      → Keeps s (after round)
      → Advances W contract_address code pc round
      → ((next : ℕ) (t : Executor W.Word) → pc < next → IsBounded t → Ends t (k next t))
      → Ends s (continue W k round)
  continue-Ends k pc s (err e t) keeps moves rest = ((failed e, t), refl, keeps)
  continue-Ends k pc s (ok (halts, t)) keeps moves rest = ((end, t), refl, keeps)
  continue-Ends k pc s (ok (goes next, t)) keeps moves rest =
      let (e, same, kept) = rest next t moves keeps.bounded in (e, same, Keeps-trans keeps kept)

  loop-Ends :
      (fuel pc : ℕ) (s : Executor W.Word)
      → length code - pc < fuel
      → IsBounded s
      → Ends s (loop W fuel contract_address code pc s)
  unfolding loop
  loop-Ends zero pc s h b = elim h [ ]
  loop-Ends (suc fuel) pc s h b = elim (Bool-cases (leb (length code) pc)) [
    | inl out ↦ rw (out, loop) ((end, s), refl, Keeps-refl b)
    | inr inside ↦
        rw (inside, loop)
          (continue-Ends _ pc s _ (run_branch-Keeps W contract_address code pc _ s b)
            (run_branch-Advances W contract_address code pc _ s)
            λ next t more bounded. loop-Ends fuel next t (ground arith) bounded)
  ]

module _ (W : Uint256) (contract_address : Address) (code input_data : Bytes) (gas_limit : ℕ) where
  -- The executor as the loop finds it.
  abbrev pub prepared : Executor W.Word → Executor W.Word
  prepared s = record s { gas_used = 0; gas_limit = gas_limit }

  pub execute_of_loop :
      (s : Executor W.Word) (ending : Ending × Executor W.Word)
      → loop W (suc (length code)) contract_address code 0 (prepared s) ≡ some ending
      → execute_contract W contract_address code input_data gas_limit s ≡ some (result_of W ending)
  unfolding execute_contract
  execute_of_loop s ending e =
      ap {B = Option (ExecutionResult × Executor W.Word)}
        (λ o. elim o [ none ↦ none | some x ↦ some (result_of W x) ]) e

  pub loop_of_execute :
      (s : Executor W.Word) (y : ExecutionResult × Executor W.Word)
      → execute_contract W contract_address code input_data gas_limit s ≡ some y
      → (ending : Ending × Executor W.Word) × (loop W
            (suc (length code))
            contract_address
            code
            0
            (prepared s)
          ≡ some ending)
        × (result_of W ending ≡ y)
  unfolding execute_contract
  loop_of_execute s y e =
      go (loop W (suc (length code)) contract_address code 0 (prepared s)) refl e
    where
      go :
          (o : Option (Ending × Executor W.Word))
          → loop W (suc (length code)) contract_address code 0 (prepared s) ≡ o
          → (elim o as (λ x. Option (ExecutionResult × Executor W.Word)) [
            | none ↦ none
            | some x ↦ some (result_of W x)
          ])
            ≡ some y
          → (ending : Ending × Executor W.Word) × (loop W
                (suc (length code))
                contract_address
                code
                0
                (prepared s)
              ≡ some ending)
            × (result_of W ending ≡ y)
      go none p q = cc
      go (some x) p q = (x, p, cc)

  -- What a run that began at `s` gives back.
  pub record IsRun (s : Executor W.Word) (r : ExecutionResult) (s' : Executor W.Word) : Type 0 where
    pub within_limit : r.gas_used ≤ gas_limit
    pub reported : s'.gas_used ≡ r.gas_used
    pub limit : s'.gas_limit ≡ gas_limit
    pub stack : length s'.stack ≤ Stack.limit
    pub memory : s'.memory ≡ s.memory
    pub impl : s'.impl ≡ s.impl

  IsRun-result_of :
      (s : Executor W.Word) (ending : Ending × Executor W.Word)
      → Keeps (prepared s) ending.1
      → IsRun s (result_of W ending).0 (result_of W ending).1
  IsRun-result_of s (end, t) k = ground arith
  IsRun-result_of s (failed e, t) k = ground arith

  -- A run from any state with at most 1024 items on its stack returns. It has used no more gas
  -- than the limit it was given, and the result says what was used; the stack is within 1024
  -- items, and the memory, the balances and the deployed codes are as before.
  pub execute_contract_returns :
      (s : Executor W.Word)
      → length s.stack ≤ Stack.limit
      → (r : ExecutionResult) × (s' : Executor W.Word) × (execute_contract W contract_address code
            input_data gas_limit s
          ≡ some (r, s'))
        × IsRun s r s'
  execute_contract_returns s h =
      let (ending, e, k) =
        loop-Ends W contract_address code (suc (length code)) 0 (prepared s) (omega arith)
          (record { gas = omega arith; stack = h }) in
      (
        (result_of W ending).0,
        (result_of W ending).1,
        execute_of_loop s ending e,
        IsRun-result_of s ending k,
      )

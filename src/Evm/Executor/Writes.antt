-- ===== src/Evm/Executor/Writes.antt =====
-- SSTORE and SLOAD against the storage, and what a failed run leaves there.
use quids_evm_cpp.Base.{
  ℕ, suc, ◌+◌, ◌≤◌, ◌<◌, ◌≡◌, refl, ap, true, false, List, [], ◌∷◌, Eq, Bytes, u64_mod, arith, some,
  length, if◌then◌else◌, get_or, leb, ◌∙◌,
}
use quids_evm_cpp.Evm.Uint256.{Uint256}
use quids_evm_cpp.Evm.Stack
use quids_evm_cpp.Evm.Address.{Address}
use quids_evm_cpp.Evm.Storage
use quids_evm_cpp.Evm.Address.Order.{address_eq, equivalent_iff}
use quids_evm_cpp.Evm.Storage.Refinement.{load-store}
use quids_evm_cpp.Evm.Opcodes.{
  Branch, branch_of, sstore_op, sload_op, sstore_set_gas, warm_storage_read_cost,
}
use quids_evm_cpp.Evm.Executor.Gas.{prepared, execute_of_loop}
use quids_evm_cpp.Evm.Executor.{
  Executor, ExecutionResult, ok, unknown_opcode, goes, what, run_sload, run_sstore, run_branch,
  continue, loop, end, failed, result_of, execute_contract,
}

is_sstore : branch_of sstore_op ≡ Branch.sstore
unfolding branch_of
is_sstore = refl

is_sload : branch_of sload_op ≡ Branch.sload
unfolding branch_of
is_sload = refl

module _ (W : Uint256) (contract_address : Address) (value key : W.Word) (rest : List W.Word)
    (s : Executor W.Word) (stacked : s.stack ≡ value ∷ (key ∷ rest)) where
  -- The executor after an SSTORE of the two items.
  abbrev pub written : Executor W.Word
  written = record s {
    stack = rest;
    storage = Storage.store ⦃e = W.eq⦄ contract_address key value s.storage;
    gas_used = s.gas_used + sstore_set_gas;
  }

  pub run_sstore-written :
      (pc : ℕ)
      → s.gas_used + sstore_set_gas ≤ s.gas_limit
      → s.gas_limit < u64_mod
      → run_sstore W contract_address pc s ≡ ok (goes (pc + 1), written)
  unfolding run_sstore Stack.pop
  run_sstore-written pc gas limit = ground arith

module _ (W : Uint256) (contract_address : Address) (key : W.Word) (rest : List W.Word)
    (s : Executor W.Word) (stacked : s.stack ≡ key ∷ rest) where
  -- The executor after an SLOAD of the top item.
  abbrev pub loaded : Executor W.Word
  loaded = record s {
    stack = Storage.load ⦃e = W.eq⦄ (W.of_u64 0) contract_address key s.storage ∷ rest;
    gas_used = s.gas_used + warm_storage_read_cost;
  }

  pub run_sload-loaded :
      (pc : ℕ)
      → s.gas_used + warm_storage_read_cost ≤ s.gas_limit
      → s.gas_limit < u64_mod
      → length rest < Stack.limit
      → run_sload W contract_address pc s ≡ ok (goes (pc + 1), loaded)
  unfolding run_sload Stack.push Stack.pop
  run_sload-loaded pc gas limit space = ground arith

-- One round of the loop at an opcode whose branch is known.
loop_step :
    (W : Uint256) (contract_address : Address) (code : Bytes) (fuel pc : ℕ) (branch : Branch)
    (s : Executor W.Word)
    → pc < length code
    → branch_of (get_or code pc 0) ≡ branch
    → loop W (suc fuel) contract_address code pc s
      ≡ continue W
          (loop W fuel contract_address code)
          (run_branch W branch contract_address code pc s)
unfolding loop
loop_step W contract_address code fuel pc branch s h e =
    let inside : leb (length code) pc ≡ false = ground arith in rw (inside, loop, e) refl

loop_end :
    (W : Uint256) (contract_address : Address) (code : Bytes) (fuel pc : ℕ) (s : Executor W.Word)
    → length code ≤ pc
    → loop W (suc fuel) contract_address code pc s ≡ some (end, s)
unfolding loop
loop_end W contract_address code fuel pc s h =
    let out : leb (length code) pc ≡ true = ground arith in rw (out, loop) refl

read_back :
    {Word : Type 0} (e : Eq Word) (default : Word) (a : Address) (k v : Word)
    (storage : Storage.Words Word)
    → Storage.load ⦃e = e⦄ default a k (Storage.store ⦃e = e⦄ a k v storage) ≡ v
read_back e default a k v storage =
    ground (arith, load-store ⦃e = e⦄ default a a k k v storage, equivalent_iff a a, e.beq_iff k k)

read_other :
    {Word : Type 0} (e : Eq Word) (default : Word) (a : Address) (k j v : Word)
    (storage : Storage.Words Word)
    → Storage.load ⦃e = e⦄ default a j (Storage.store ⦃e = e⦄ a k v storage)
      ≡ (if e.beq k j then v else Storage.load ⦃e = e⦄ default a j storage)
read_other e default a k j v storage =
    ground (arith, load-store ⦃e = e⦄ default a a k j v storage, equivalent_iff a a)

module _ (W : Uint256) (contract_address : Address) (value key : W.Word) (rest : List W.Word)
    (gas_limit : ℕ) (s : Executor W.Word) where
  -- A run whose second opcode is unknown, after an SSTORE with two items on the stack and gas for
  -- it, fails with the message of an unknown opcode. The value is in the storage all the same: a
  -- failed run is not undone.
  pub failed_run_keeps_write :
      (opcode : ℕ) (more input_data : Bytes)
      → s.stack ≡ value ∷ (key ∷ rest)
      → branch_of opcode ≡ Branch.unknown
      → sstore_set_gas ≤ gas_limit
      → gas_limit < u64_mod
      → (r : ExecutionResult) × (s' : Executor W.Word) × (execute_contract W contract_address
            (sstore_op ∷ (opcode ∷ more))
            input_data
            gas_limit
            s
          ≡ some (r, s'))
        × (r.success ≡ false)
        × (r.error_message ≡ what unknown_opcode)
        × (Storage.load ⦃e = W.eq⦄ (W.of_u64 0) contract_address key s'.storage ≡ value)
  unfolding run_branch
  failed_run_keeps_write opcode more input_data stacked unknown enough limit =
      let code : Bytes = sstore_op ∷ (opcode ∷ more) in
      let start : Executor W.Word = prepared W contract_address code input_data gas_limit s in
      let t : Executor W.Word = written W contract_address value key rest start stacked in
      (
        (result_of W (failed unknown_opcode, t)).0,
        t,
        execute_of_loop W contract_address code input_data gas_limit s (failed unknown_opcode, t)
            (loop_step W contract_address code (suc (suc (length more))) 0 Branch.sstore start
                (omega arith) is_sstore
              ∙ (ap (continue W (loop W (suc (suc (length more))) contract_address code)) (
                    run_sstore-written W contract_address value key rest start stacked 0
                      (omega arith) limit)
                  ∙ loop_step W contract_address code (suc (length more)) 1 Branch.unknown t
                      (omega arith) unknown)),
        refl,
        refl,
        read_back W.eq (W.of_u64 0) contract_address key value s.storage,
      )

  -- The code SSTORE SLOAD with a value and two keys on the stack and gas for both succeeds, with
  -- 20100 gas. It leaves the stored value on the stack if the keys are one, and otherwise what the
  -- storage had at the second; the storage has the value at the first.
  pub sstore_sload :
      (second : W.Word) (below : List W.Word) (input_data : Bytes)
      → rest ≡ second ∷ below
      → s.stack ≡ value ∷ (key ∷ rest)
      → length s.stack ≤ Stack.limit
      → 20100 ≤ gas_limit
      → gas_limit < u64_mod
      → (r : ExecutionResult) × (s' : Executor W.Word) × (execute_contract W contract_address
            (sstore_op ∷ (sload_op ∷ []))
            input_data
            gas_limit
            s
          ≡ some (r, s'))
        × (r.success ≡ true)
        × (r.gas_used ≡ 20100)
        × (s'.stack
            ≡ (if W.eq.beq key second
                then value
                else Storage.load ⦃e = W.eq⦄ (W.of_u64 0) contract_address second s.storage)
              ∷ below)
        × (s'.storage ≡ Storage.store ⦃e = W.eq⦄ contract_address key value s.storage)
  unfolding run_branch
  sstore_sload second below input_data split stacked bounded enough limit =
      let code : Bytes = sstore_op ∷ (sload_op ∷ []) in
      let start : Executor W.Word = prepared W contract_address code input_data gas_limit s in
      let t : Executor W.Word = written W contract_address value key rest start stacked in
      let u : Executor W.Word = loaded W contract_address second below t split in
      (
        (result_of W (end, u)).0,
        u,
        execute_of_loop W contract_address code input_data gas_limit s (end, u)
            (loop_step W contract_address code 2 0 Branch.sstore start (omega arith) is_sstore
              ∙ (ap (continue W (loop W 2 contract_address code)) (
                    run_sstore-written W contract_address value key rest start stacked 0
                      (omega arith) limit)
                  ∙ (loop_step W contract_address code 1 1 Branch.sload t (omega arith) is_sload
                      ∙ (ap (continue W (loop W 1 contract_address code)) (
                            run_sload-loaded W contract_address second below t split 1 (omega arith)
                              limit (omega (arith, ap length split, ap length stacked)))
                          ∙ loop_end W contract_address code 0 2 u (omega arith))))),
        refl,
        refl,
        ap (λ w. w ∷ below)
            (read_other W.eq (W.of_u64 0) contract_address key second value s.storage),
        refl,
      )

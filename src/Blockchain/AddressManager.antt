-- ===== src/Blockchain/AddressManager.antt =====
-- src/blockchain/AddressManager.cpp and include/blockchain/Account.hpp: the accounts that the
-- manager keeps. A quantum state and a proof are types of other components and parameters; the
-- addresses made from locations, which are floating-point numbers, are not modelled.
pub mod Transfers
pub mod Specification
pub mod Refinement
mod Tests
use quids_evm_cpp.Base.{
  ℕ, ◌+◌, ◌-◌, ◌%◌, Bool, true, false, not, Option, none, some, [], Bytes, u64_mod, Eq, list_eq,
  nat_eq, ltb, if◌then◌else◌, empty,
}
use quids_evm_cpp.Base.Dict.{Dict, find, contains, insert, erase}

-- `Account`
pub record Account : Type 0 where
  pub address : Bytes
  pub balance : ℕ
  pub nonce : ℕ
  pub code : Bytes
  pub is_contract : Bool

-- `AddressManager::Impl`, over the quantum states and the proofs
pub record Impl (State Proof : Type 0) : Type 0 where
  pub accounts : Dict Bytes Account
  pub quantum_states : Dict Bytes State
  pub stored_proofs : Dict Bytes Proof

-- The constructors
abbrev pub new_account : Bytes → ℕ → Account
new_account address balance = record {
  address = address;
  balance = balance;
  nonce = 0;
  code = [];
  is_contract = false;
}

abbrev pub new_contract : Bytes → Bytes → ℕ → Account
new_contract address code balance = record {
  address = address;
  balance = balance;
  nonce = 0;
  code = code;
  is_contract = false;
}

abbrev pub debited : ℕ → Account → Account
debited amount account = record account { balance = account.balance - amount }

abbrev pub credited : ℕ → Account → Account
credited amount account = record account { balance = (account.balance + amount) % u64_mod }

module _ {State Proof : Type 0} where
  abbrev pub with_accounts : Dict Bytes Account → Impl State Proof → Impl State Proof
  with_accounts accounts impl = record impl { accounts = accounts }

  unfoldable pub create_account : Bytes → ℕ → Impl State Proof → Bool × Impl State Proof
  create_account address initial_balance impl =
      if contains address impl.accounts then (false, impl) else (
        true,
        with_accounts (insert address (new_account address initial_balance) impl.accounts) impl,
      )

  unfoldable pub create_contract_account :
      Bytes → Bytes → ℕ → Impl State Proof → Bool × Impl State Proof
  create_contract_account address code initial_balance impl =
      if contains address impl.accounts then (false, impl) else (
        true,
        with_accounts (insert address (new_contract address code initial_balance) impl.accounts)
            impl,
      )

  unfoldable pub delete_account : Bytes → Impl State Proof → Bool × Impl State Proof
  delete_account address impl =
      (contains address impl.accounts, with_accounts (erase address impl.accounts) impl)

  -- A write through an iterator, where `none` is end()
  abbrev pub modify_found :
      Bytes → (Account → Account) → Option Account → Impl State Proof → Bool × Impl State Proof
  modify_found address change none impl = (false, impl)
  modify_found address change (some account) impl =
      (true, with_accounts (insert address (change account) impl.accounts) impl)

  abbrev pub modify : Bytes → (Account → Account) → Impl State Proof → Bool × Impl State Proof
  modify address change impl = modify_found address change (find address impl.accounts) impl

  -- `transfer` with its two iterators, which may be the same: the second write sees the first.
  abbrev pub transfer_found :
      Bytes → Bytes → ℕ → Option Account → Bool → Impl State Proof → Bool × Impl State Proof
  transfer_found from to amount none found impl = (false, impl)
  transfer_found from to amount (some sender) false impl = (false, impl)
  transfer_found from to amount (some sender) true impl =
      if ltb sender.balance amount
      then (false, impl)
      else modify to (credited amount) (modify from (debited amount) impl).1

  unfoldable pub transfer : Bytes → Bytes → ℕ → Impl State Proof → Bool × Impl State Proof
  transfer from to amount impl =
      transfer_found from to amount (find from impl.accounts) (contains to impl.accounts) impl

  unfoldable pub set_balance : Bytes → ℕ → Impl State Proof → Bool × Impl State Proof
  set_balance address balance impl =
      modify address (λ account. record account { balance = balance }) impl

  unfoldable pub deploy_code : Bytes → Bytes → Impl State Proof → Bool × Impl State Proof
  deploy_code address code impl = modify address (λ account. record account { code = code }) impl

  unfoldable pub increment_nonce : Bytes → Impl State Proof → Bool × Impl State Proof
  increment_nonce address impl =
      modify address (λ account. record account { nonce = (account.nonce + 1) % u64_mod }) impl

  unfoldable pub get_balance : Bytes → Impl State Proof → ℕ
  get_balance address impl = elim (find address impl.accounts) [
    | none ↦ 0
    | some account ↦ account.balance
  ]

  unfoldable pub get_code : Bytes → Impl State Proof → Bytes
  get_code address impl = elim (find address impl.accounts) [
    | none ↦ []
    | some account ↦ account.code
  ]

  unfoldable pub get_nonce : Bytes → Impl State Proof → ℕ
  get_nonce address impl = elim (find address impl.accounts) [
    | none ↦ 0
    | some account ↦ account.nonce
  ]

  unfoldable pub account_exists : Bytes → Impl State Proof → Bool
  account_exists address impl = contains address impl.accounts

  unfoldable pub is_contract_account : Bytes → Impl State Proof → Bool
  is_contract_account address impl = elim (find address impl.accounts) [
    | none ↦ false
    | some account ↦ not (empty account.code)
  ]

  unfoldable pub register_quantum_state : Bytes → State → Impl State Proof → Bool × Impl State Proof
  unfolding account_exists
  register_quantum_state address state impl =
      if account_exists address impl
      then (true, record impl { quantum_states = insert address state impl.quantum_states })
      else (false, impl)

  unfoldable pub verify_quantum_state : ⦃e : Eq State⦄ → Bytes → State → Impl State Proof → Bool
  verify_quantum_state ⦃e⦄ address state impl = elim (find address impl.quantum_states) [
    | none ↦ false
    | some registered ↦ e.beq registered state
  ]

  unfoldable pub store_proof : Bytes → Proof → Impl State Proof → Bool × Impl State Proof
  unfolding account_exists
  store_proof address proof impl =
      if account_exists address impl
      then (true, record impl { stored_proofs = insert address proof impl.stored_proofs })
      else (false, impl)

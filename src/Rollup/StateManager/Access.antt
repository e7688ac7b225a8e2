-- ===== src/Rollup/StateManager/Access.antt =====
-- src/rollup/StateManager.cpp: the roots, and the members that read or write one account.
use quids_evm_cpp.Base.{
  ℕ, Bool, true, false, none, some, List, [], Bytes, Outcome, returned, list_eq, nat_eq,
}
use quids_evm_cpp.Base.Dict.{Dict, find, insert}
use quids_evm_cpp.Evm.Address.{Address}
use quids_evm_cpp.Blockchain.Transaction.{Transaction}
use quids_evm_cpp.Rollup.StateManager.Accounts.{
  Account, calculate_state_root, sort_accounts, address_to_hex,
}
use quids_evm_cpp.Rollup.StateManager.{State, Mode, lock_shared, lock_unique, history_of}

unfoldable pub commit_state : (Bytes → Bytes) → Mode → State → Outcome ⊥ (Bool × State)
commit_state blake3 mode s = lock_unique mode (λ held. returned (
  true,
  record s {
    previous_state_root = s.current_state_root;
    current_state_root = calculate_state_root blake3 s.accounts;
  },
))

unfoldable pub rollback_state : Mode → State → Outcome ⊥ (Bool × State)
rollback_state mode s =
    lock_unique mode
      (λ held. returned (true, record s { current_state_root = s.previous_state_root }))

unfoldable pub add_account : Mode → Bytes → Account → State → Outcome ⊥ State
add_account mode address account s =
    lock_unique mode (λ held. returned (record s { accounts = insert address account s.accounts }))

unfoldable pub get_account_history : Mode → Bytes → State → Outcome ⊥ (List Transaction)
get_account_history mode address s = lock_shared mode (λ held. returned (history_of address s))

-- A std::map of the accounts: the same entries by their addresses
unfoldable pub get_accounts_snapshot : Mode → State → Outcome ⊥ (Dict Bytes Account)
get_accounts_snapshot mode s = lock_shared mode (λ held. returned (sort_accounts s.accounts))

unfoldable pub get_state_root : Mode → State → Outcome ⊥ Bytes
get_state_root mode s = lock_shared mode (λ held. returned s.current_state_root)

unfoldable pub get_previous_root : Mode → State → Outcome ⊥ Bytes
get_previous_root mode s = lock_shared mode (λ held. returned s.previous_state_root)

-- What a getter shows of an account, or of none
abbrev pub view : {A : Type 0} → Bytes → State → A → (Account → A) → A
view address s absent show = elim (find address s.accounts) [
  | none ↦ absent
  | some account ↦ show account
]

unfoldable pub get_balance : Mode → Bytes → State → Outcome ⊥ ℕ
get_balance mode address s =
    lock_shared mode (λ held. returned (view address s 0 (λ account. account.balance)))

unfoldable pub get_nonce : Mode → Bytes → State → Outcome ⊥ ℕ
get_nonce mode address s =
    lock_shared mode (λ held. returned (view address s 0 (λ account. account.nonce)))

unfoldable pub get_storage : Mode → Address → Bytes → State → Outcome ⊥ Bytes
get_storage mode address key s = lock_shared mode (λ held. returned (
    view (address_to_hex address) s []
      (λ account. elim (find key account.storage) [ none ↦ [] | some value ↦ value ])))

unfoldable pub get_code : Mode → Address → State → Outcome ⊥ Bytes
get_code mode address s =
    lock_shared mode
      (λ held. returned (view (address_to_hex address) s [] (λ account. account.code)))

-- A write to an account that is there
abbrev pub update : Bytes → (Account → Account) → State → Bool × State
update address change s = elim (find address s.accounts) [
  | none ↦ (false, s)
  | some account ↦ (true, record s { accounts = insert address (change account) s.accounts })
]

unfoldable pub set_balance : Mode → Bytes → ℕ → State → Outcome ⊥ (Bool × State)
set_balance mode address balance s =
    lock_unique mode
      (λ held. returned (update address (λ account. record account { balance = balance }) s))

unfoldable pub set_nonce : Mode → Bytes → ℕ → State → Outcome ⊥ (Bool × State)
set_nonce mode address nonce s =
    lock_unique mode
      (λ held. returned (update address (λ account. record account { nonce = nonce }) s))

unfoldable pub set_storage : Mode → Address → Bytes → Bytes → State → Outcome ⊥ (Bool × State)
set_storage mode address key value s = lock_unique mode (λ held. returned (
    update (address_to_hex address)
      (λ account. record account { storage = insert key value account.storage }) s))

unfoldable pub set_code : Mode → Address → Bytes → State → Outcome ⊥ (Bool × State)
set_code mode address code s = lock_unique mode (λ held.
    returned (update (address_to_hex address) (λ account. record account { code = code }) s))

unfoldable pub clone : Mode → State → Outcome ⊥ State
clone mode s = lock_shared mode (λ held. returned s)

-- ===== src/Rollup/StateManager.antt =====
-- src/rollup/StateManager.cpp and include/rollup/StateManager.hpp: the rollup's accounts, behind one
-- std::shared_mutex. A call takes the way in which its thread holds the mutex; `undefined` is a
-- thread that locks a std::shared_mutex again, which the C++ standard leaves undefined.
pub mod Accounts
pub mod Access
pub mod Locks
pub mod Root
pub mod History
pub mod Decoding
pub mod Table
pub mod Simulation
mod Tests
use quids_evm_cpp.Base.{
  ℕ, ◌+◌, ◌-◌, ◌%◌, Bool, true, false, not, Option, none, some, List, [], ◌∷◌, ◌++◌, Bytes, u64_mod,
  Outcome, returned, thrown, undefined, list_eq, nat_eq, ltb, ◌==◌, if◌then◌else◌, length, drop,
}
use quids_evm_cpp.Base.Dict.{Dict, find, insert}
use quids_evm_cpp.Evm.Address.{Address}
use quids_evm_cpp.Blockchain.Transaction.{Transaction, verify, calculate_gas_cost}
use quids_evm_cpp.Rollup.StateManager.Accounts.{Account, calculate_state_root, address_to_hex}

-- `Impl`
pub record State : Type 0 where
  pub accounts : Dict Bytes Account
  pub current_state_root : Bytes
  pub previous_state_root : Bytes
  pub history : Dict Bytes (List Transaction)

abbrev pub max_history_per_account : ℕ
max_history_per_account = 1000

-- How the calling thread holds the mutex.
pub data Mode : Type 0 where
  unlocked shared exclusive : Mode

-- Whether locking the std::shared_mutex is defined
unfoldable pub may_lock : Mode → Bool
may_lock unlocked = true
may_lock shared = false
may_lock exclusive = false

-- A std::shared_lock and a std::unique_lock over the rest of a function
abbrev pub lock_shared : {A : Type 0} → Mode → (Mode → Outcome ⊥ A) → Outcome ⊥ A
lock_shared mode body = elim (may_lock mode) [ true ↦ body shared | false ↦ undefined ]

abbrev pub lock_unique : {A : Type 0} → Mode → (Mode → Outcome ⊥ A) → Outcome ⊥ A
lock_unique mode body = elim (may_lock mode) [ true ↦ body exclusive | false ↦ undefined ]

infixl 5 ◌>>=◌
abbrev pub ◌>>=◌ : {A B : Type 0} → Outcome ⊥ A → (A → Outcome ⊥ B) → Outcome ⊥ B
returned a >>= f = f a
thrown e >>= f = elim e [ ]
undefined >>= f = undefined

abbrev pub new_state : (Bytes → Bytes) → State
new_state blake3 = record {
  accounts = [];
  current_state_root = calculate_state_root blake3 [];
  previous_state_root = calculate_state_root blake3 [];
  history = [];
}

-- `deque::push_back` and, past the bound, `pop_front`
unfoldable pub bounded_push : Transaction → List Transaction → List Transaction
bounded_push tx history =
    let longer = history ++ (tx ∷ []) in
    if ltb max_history_per_account (length longer) then drop 1 longer else longer

abbrev pub history_of : Bytes → State → List Transaction
history_of address s = elim (find address s.history) [ none ↦ [] | some txs ↦ txs ]

-- The history of an account, with a transaction more
abbrev pub recorded : Bytes → Transaction → State → State
recorded address tx s = record s {
  history = insert address (bounded_push tx (history_of address s)) s.history;
}

unfoldable pub total_cost : Transaction → ℕ
total_cost tx = (tx.value + calculate_gas_cost tx) % u64_mod

unfoldable pub get_account : Mode → Bytes → State → Outcome ⊥ (Option Account)
get_account mode address s = lock_shared mode (λ held. returned (find address s.accounts))

unfoldable pub record_transaction : Mode → Bytes → Transaction → State → Outcome ⊥ State
record_transaction mode address tx s = lock_unique mode (λ held. returned (recorded address tx s))

-- `verify_transaction` after it has looked for the sender
abbrev pub verify_for : Transaction → Option Account → Bool
verify_for tx none = false
verify_for tx (some sender) =
    if not (tx.nonce == (sender.nonce + 1) % u64_mod)
    then false
    else if ltb sender.balance (total_cost tx)
    then false
    else verify tx

unfoldable pub verify_transaction : Mode → Transaction → State → Outcome ⊥ Bool
unfolding get_account total_cost
verify_transaction mode tx s =
    lock_shared mode
      (λ held. do sender ← get_account held tx.from s; returned (verify_for tx sender))

-- `sender` and `recipient` are copies; they are written back under the addresses that they hold,
-- the recipient last.
abbrev pub paid : Transaction → Account → Account → State → State
paid tx sender recipient s = record s {
  accounts =
      insert recipient.address
        (record recipient { balance = (recipient.balance + tx.value) % u64_mod })
        (insert sender.address
          (record sender {
            balance = sender.balance - total_cost tx;
            nonce = (sender.nonce + 1) % u64_mod;
          })
          s.accounts);
}

-- `apply_transaction` after it has looked for the two accounts
abbrev pub apply_to :
    Mode → Transaction → Option Account → Option Account → State → Outcome ⊥ (Bool × State)
apply_to held tx none recipient s = returned (false, s)
apply_to held tx (some sender) none s = returned (false, s)
apply_to held tx (some sender) (some recipient) s =
    if not (verify_for tx (some sender)) then returned (false, s) else do
      s1 ← record_transaction held sender.address tx (paid tx sender recipient s)
      s2 ← record_transaction held recipient.address tx s1
      returned (true, s2)

unfoldable pub apply_transaction : Mode → Transaction → State → Outcome ⊥ (Bool × State)
unfolding get_account record_transaction total_cost
apply_transaction mode tx s = lock_unique mode (λ held. do
  sender ← get_account held tx.from s
  recipient ← get_account held tx.to s
  apply_to held tx sender recipient s)

-- The copies are written back as in `apply_transaction`.
abbrev pub revert_to : Transaction → Option Account → Option Account → State → Bool × State
revert_to tx none recipient s = (false, s)
revert_to tx (some sender) none s = (false, s)
revert_to tx (some sender) (some recipient) s = (
  true,
  record s {
    accounts =
        insert recipient.address
          (record recipient { balance = (recipient.balance + (u64_mod - tx.value)) % u64_mod })
          (insert sender.address
            (record sender {
              balance = (sender.balance + total_cost tx) % u64_mod;
              nonce = (sender.nonce + (u64_mod - 1)) % u64_mod;
            })
            s.accounts);
  },
)

unfoldable pub revert_transaction : Mode → Transaction → State → Outcome ⊥ (Bool × State)
unfolding get_account total_cost
revert_transaction mode tx s = lock_unique mode (λ held. do
  sender ← get_account held tx.from s
  recipient ← get_account held tx.to s
  returned (revert_to tx sender recipient s))

-- The flags of the first loop of `apply_transactions`
unfoldable pub verify_all : Mode → List Transaction → State → Outcome ⊥ (List Bool)
unfolding verify_transaction
verify_all held [] s = returned []
verify_all held (tx ∷ txs) s =
    let rest = verify_all held txs s in
    verify_transaction held tx s >>= λ valid. rest >>= λ flags. returned (valid ∷ flags)

-- The second loop, which stops where a valid transaction is refused
unfoldable pub apply_valid : Mode → List Transaction → List Bool → State → Outcome ⊥ (Bool × State)
unfolding apply_transaction
apply_valid held [] flags s = returned (true, s)
apply_valid held (tx ∷ txs) [] s = returned (true, s)
apply_valid held (tx ∷ txs) (false ∷ flags) s = apply_valid held txs flags s
apply_valid held (tx ∷ txs) (true ∷ flags) s = do
  (applied, s') ← apply_transaction held tx s
  elim applied [ true ↦ apply_valid held txs flags s' | false ↦ returned (false, s') ]

unfoldable pub apply_transactions : Mode → List Transaction → State → Outcome ⊥ (Bool × State)
unfolding verify_all apply_valid
apply_transactions mode txs s = do
  flags ← lock_shared mode (λ held. verify_all held txs s)
  lock_unique mode
      (λ held. apply_valid held txs flags (record s { previous_state_root = s.current_state_root }))

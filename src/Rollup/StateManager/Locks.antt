-- ===== src/Rollup/StateManager/Locks.antt =====
-- What the std::shared_mutex does to the members that call one another.
use quids_evm_cpp.Base.{◌≡◌, refl, List, ◌∷◌, undefined}
use quids_evm_cpp.Blockchain.Transaction.{Transaction}
use quids_evm_cpp.Rollup.StateManager.{
  State, Mode, unlocked, shared, exclusive, may_lock, get_account, verify_transaction,
  apply_transaction, revert_transaction, verify_all, apply_transactions,
}

-- Every call of verify_transaction, apply_transaction or revert_transaction, and of
-- apply_transactions with at least one transaction, is undefined, whatever the transactions and the
-- accounts are and however the thread holds the mutex: it locks the std::shared_mutex and then
-- calls get_account, which locks it again.
pub relocking_undefined :
    (mode : Mode) (tx : Transaction) (txs : List Transaction) (s : State)
    → (verify_transaction mode tx s ≡ undefined)
      × (apply_transaction mode tx s ≡ undefined)
      × (revert_transaction mode tx s ≡ undefined)
      × (apply_transactions mode (tx ∷ txs) s ≡ undefined)
unfolding verify_transaction apply_transaction revert_transaction apply_transactions verify_all
    may_lock get_account
relocking_undefined unlocked tx txs s = (refl, refl, refl, refl)
relocking_undefined shared tx txs s = (refl, refl, refl, refl)
relocking_undefined exclusive tx txs s = (refl, refl, refl, refl)

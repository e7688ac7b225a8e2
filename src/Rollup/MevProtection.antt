-- ===== src/Rollup/MevProtection.antt =====
-- src/rollup/MEVProtection.cpp: the search for sandwiches in a batch, and the hashes of a batch.
pub mod Sandwiches
mod Tests
use quids_evm_cpp.Base.{
  ℕ, Bool, true, false, not, ◌&&◌, List, [], ◌∷◌, ◌++◌, Bytes, nat_eq, list_beq, ltb, if◌then◌else◌,
  length, empty,
}
use quids_evm_cpp.Base.Encoding.{le_bytes}
use quids_evm_cpp.Blockchain.Transaction.{Transaction}

-- The loop of `detect_sandwich_attack`, from the transaction behind `front` on
unfoldable pub sandwiched : Transaction → Transaction → List Transaction → Bool
sandwiched target front [] = false
sandwiched target front (tx ∷ []) = false
sandwiched target front (tx ∷ back ∷ batch) =
    let later = sandwiched target tx (back ∷ batch) in
    if list_beq tx.hash target.hash && (list_beq front.from back.from && list_beq front.to back.to)
    then true
    else later

unfoldable pub detect_sandwich_attack : Transaction → List Transaction → Bool
unfolding sandwiched
detect_sandwich_attack target [] = false
detect_sandwich_attack target (front ∷ batch) =
    if ltb (length (front ∷ batch)) 3 then false else sandwiched target front batch

-- The updates of the hasher in `compute_transaction_hash`
unfoldable pub transaction_bytes : Transaction → Bytes
transaction_bytes tx =
    tx.from
    ++ (tx.to
        ++ (le_bytes 8 tx.value
            ++ (le_bytes 8 tx.gas_price
                ++ (le_bytes 8 tx.gas_limit
                    ++ (le_bytes 8 tx.nonce
                        ++ (if not (empty tx.payload) then tx.payload else []))))))

unfoldable pub compute_transaction_hash : (Bytes → Bytes) → Transaction → Bytes
unfolding transaction_bytes
compute_transaction_hash blake3 tx = blake3 (transaction_bytes tx)

-- The updates of the hasher in `compute_fairness_hash`
unfoldable pub fairness_bytes : (Bytes → Bytes) → List Transaction → Bytes
unfolding compute_transaction_hash
fairness_bytes blake3 [] = []
fairness_bytes blake3 (tx ∷ transactions) =
    compute_transaction_hash blake3 tx ++ fairness_bytes blake3 transactions

unfoldable pub compute_fairness_hash : (Bytes → Bytes) → List Transaction → Bytes
unfolding fairness_bytes
compute_fairness_hash blake3 transactions = blake3 (fairness_bytes blake3 transactions)

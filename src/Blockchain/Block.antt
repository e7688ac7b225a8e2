-- ===== src/Blockchain/Block.antt =====
-- src/blockchain/Block.cpp and include/blockchain/Block.hpp: the block and its check.
use quids_evm_cpp.Base.{ℕ, Bool, true, false, not, ◌||◌, List, [], ◌∷◌, Bytes, if◌then◌else◌, empty}
use quids_evm_cpp.Blockchain.Transaction.{Transaction, verify as verify_transaction}

pub record Block : Type 0 where
  pub number : ℕ
  pub hash : Bytes
  pub prev_hash : Bytes
  pub timestamp : ℕ
  pub transactions : List Transaction

-- The fields' initial values
abbrev pub new_block : Block
new_block = record { number = 0; hash = []; prev_hash = []; timestamp = 0; transactions = [] }

-- The loop of `verify`
unfoldable pub verify_transactions : List Transaction → Bool
verify_transactions [] = true
verify_transactions (tx ∷ txs) =
    let rest = verify_transactions txs in if not (verify_transaction tx) then false else rest

unfoldable pub verify : Block → Bool
verify b = if empty b.hash || empty b.prev_hash then false else verify_transactions b.transactions

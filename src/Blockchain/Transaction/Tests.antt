-- ===== src/Blockchain/Transaction/Tests.antt =====
-- Concrete transactions.
use quids_evm_cpp.Base.{◌≡◌, refl, false, some, [], ◌∷◌, arith, returned}
use quids_evm_cpp.Blockchain.Transaction.{Transaction, new_transaction, is_valid, deserialize}
use quids_evm_cpp.Blockchain.Transaction.Decoding.{encoding, deserialize-encoding}

-- From "ab" to "c", and from "a" to "bc", 500 each.
abbrev payment : Transaction
payment = record (new_transaction 0 []) {
  from = 97 ∷ 98 ∷ [];
  to = 99 ∷ [];
  value = 500;
  nonce = 1;
  gas_price = 2;
  payload = 1 ∷ 2 ∷ 3 ∷ [];
}

abbrev other_payment : Transaction
other_payment = record payment { from = 97 ∷ []; to = 98 ∷ 99 ∷ [] }

zero_amount : is_valid (record payment { value = 0 }) ≡ false
unfolding is_valid
zero_amount = refl

deserialize-encoding_example :
    deserialize 0 [] (encoding (97 ∷ []) (98 ∷ []) 500 1 (7 ∷ []))
    ≡ returned (
        some
          (record (new_transaction 0 []) { from = 97 ∷ []; to = 98 ∷ []; value = 500; nonce = 1 }))
deserialize-encoding_example =
    deserialize-encoding (97 ∷ []) (98 ∷ []) 500 1 (7 ∷ []) 0 [] (omega arith) (omega arith)
      (omega arith) (omega arith)

-- ===== src/Storage.antt =====
-- src/storage/PersistentStorage.cpp: transactions, proofs and block data in one RocksDB database.
-- The database is a library and a parameter, the record `Database`; opening it and its options are
-- left out. A numeral of std::to_string is in Storage/Decimal.antt.
pub mod Decimal
pub mod Records
mod Tests
use quids_evm_cpp.Base.{
  ℕ, ◌<◌, ◌≡◌, Bool, true, false, Option, none, some, [], ◌∷◌, ◌++◌, Bytes, Outcome, returned,
  list_eq, nat_eq, list_beq, if◌then◌else◌,
}
use quids_evm_cpp.Blockchain.Transaction as Tx
use quids_evm_cpp.Blockchain.Transaction.{Transaction}
use quids_evm_cpp.Rollup.TransitionProof as Proof
use quids_evm_cpp.Rollup.TransitionProof.{ProofData}
use quids_evm_cpp.Storage.Decimal.{to_string}

-- What the storage uses of rocksdb::DB. `put` answers whether its status is ok; a get of a key that
-- was put gives the value put last, and a put leaves the other keys alone.
pub record Database (Db : Type 0) : Type 0 where
  pub put : Bytes → Bytes → Db → Bool × Db
  pub get : Bytes → Db → Option Bytes
  pub get_put :
      (j k v : Bytes) (db : Db)
      → (put k v db).0 ≡ true
      → get j (put k v db).1 ≡ (if list_beq k j then some v else get j db)

-- "tx", "proof" and "block"
abbrev pub tx_prefix : Bytes
tx_prefix = 116 ∷ 120 ∷ []

abbrev pub proof_prefix : Bytes
proof_prefix = 112 ∷ 114 ∷ 111 ∷ 111 ∷ 102 ∷ []

abbrev pub block_prefix : Bytes
block_prefix = 98 ∷ 108 ∷ 111 ∷ 99 ∷ 107 ∷ []

abbrev pub make_key : Bytes → Bytes → Bytes
make_key prefix id = prefix ++ (58 ∷ id)

module _ {Db : Type 0} (database : Database Db) where
  unfoldable pub store_transaction : (Bytes → Bytes) → Transaction → Db → Bool × Db
  store_transaction blake3 tx db =
      database.put (make_key tx_prefix (Tx.compute_hash blake3 tx)) (Tx.serialize tx) db

  -- `now` and `hash` are what a new Transaction holds.
  unfoldable pub load_transaction : ℕ → Bytes → Bytes → Db → Outcome ⊥ (Option Transaction)
  load_transaction now hash tx_hash db = elim (database.get (make_key tx_prefix tx_hash) db) [
    | none ↦ returned none
    | some tx_data ↦ Tx.deserialize now hash tx_data
  ]

  unfoldable pub store_proof : ℕ → ProofData → Db → Bool × Db
  store_proof block_number proof db =
      database.put (make_key proof_prefix (to_string block_number)) (Proof.serialize proof) db

  unfoldable pub load_proof : ℕ → Db → Option ProofData
  load_proof block_number db =
      elim (database.get (make_key proof_prefix (to_string block_number)) db) [
        | none ↦ none
        | some proof_data ↦ Proof.deserialize proof_data
      ]

  unfoldable pub store_block_data : ℕ → Bytes → Db → Bool × Db
  store_block_data block_number bytes db =
      database.put (make_key block_prefix (to_string block_number)) bytes db

  unfoldable pub load_block_data : ℕ → Db → Option Bytes
  load_block_data block_number db = database.get (make_key block_prefix (to_string block_number)) db

-- ===== src/Storage/Records.antt =====
-- What is loaded after a store.
use quids_evm_cpp.Base.{
  ℕ, ◌<◌, ◌≡◌, refl, sym, ap, ◌∙◌, true, false, Bool-cases, inl, inr, Option, none, some, [], ◌∷◌,
  Bytes, u64_mod, returned, list_eq, nat_eq, list_beq, list_beq_iff, ◌==◌, if◌then◌else◌, arith,
}
use quids_evm_cpp.Blockchain.Transaction as Tx
use quids_evm_cpp.Blockchain.Transaction.{Transaction}
use quids_evm_cpp.Rollup.TransitionProof as Proof
use quids_evm_cpp.Rollup.TransitionProof.{ProofData}
use quids_evm_cpp.Rollup.TransitionProof.Decoding.{HasRoots, HasSizes, deserialize-serialize}
use quids_evm_cpp.Storage.Decimal.{to_string, to_string-injective}
use quids_evm_cpp.Storage.{
  Database, tx_prefix, proof_prefix, block_prefix, make_key, store_transaction, load_transaction,
  store_proof, load_proof, store_block_data, load_block_data,
}

-- Two keys under one prefix
make_key-same :
    (prefix x y : Bytes) → list_beq (make_key prefix x) (make_key prefix y) ≡ list_beq x y
make_key-same [] x y = refl
make_key-same (c ∷ prefix) x y = ground (arith, make_key-same prefix x y)

-- The keys of two numbers
make_key-to_string :
    (prefix : Bytes) (a b : ℕ)
    → a < u64_mod
    → b < u64_mod
    → list_beq (make_key prefix (to_string a)) (make_key prefix (to_string b)) ≡ (a == b)
make_key-to_string prefix a b ha hb =
    make_key-same prefix (to_string a) (to_string b) ∙ (elim (Bool-cases (a == b)) [
      | inl same ↦
          let e : a ≡ b = ground (arith, same) in
          (list_beq_iff (to_string a) (to_string b)).1 (ap to_string e) ∙ sym same
      | inr other ↦ elim (Bool-cases (list_beq (to_string a) (to_string b))) [
        | inl clash ↦
            let e : a ≡ b =
              to_string-injective a b ha hb ((list_beq_iff (to_string a) (to_string b)).0 clash) in
            absurd (ground (arith, e, other))
        | inr differ ↦ differ ∙ sym other
      ]
    ])

module _ {Db : Type 0} (database : Database Db) where
  -- A get of one key after a put of another
  got_other :
      (j k v : Bytes) (db : Db)
      → (database.put k v db).0 ≡ true
      → list_beq k j ≡ false
      → database.get j (database.put k v db).1 ≡ database.get j db
  got_other j k v db ok other =
      database.get_put j k v db ok ∙ ap (λ b. if b then some v else database.get j db) other

  -- A proof whose roots have 32 bytes each and whose vectors are shorter than 2 ^ 32 bytes, once
  -- stored, is what is loaded for its block; the proofs of other blocks, the data of all blocks and
  -- the transactions are loaded as before.
  pub load_proof-store_proof :
      (a b now : ℕ) (hash tx_hash : Bytes) (p : ProofData) (db : Db)
      → a < u64_mod
      → b < u64_mod
      → HasRoots p
      → HasSizes p
      → (store_proof database a p db).0 ≡ true
      → let db' = (store_proof database a p db).1 in
        (load_proof database b db' ≡ (if a == b then some p else load_proof database b db))
        × (load_block_data database b db' ≡ load_block_data database b db)
        × (load_transaction database now hash tx_hash db'
            ≡ load_transaction database now hash tx_hash db)
  unfolding store_proof load_proof load_block_data load_transaction
  load_proof-store_proof a b now hash tx_hash p db ha hb hr hs ok =
      let key : Bytes = make_key proof_prefix (to_string a) in
      let bytes : Bytes = Proof.serialize p in
      let load : Option Bytes → Option ProofData =
        λ got. elim got [ none ↦ none | some proof_data ↦ Proof.deserialize proof_data ] in
      let before : Option Bytes = database.get (make_key proof_prefix (to_string b)) db in
      (
        ap load (
              database.get_put (make_key proof_prefix (to_string b)) key bytes db ok
              ∙ ap (λ t. if t then some bytes else before)
                  (make_key-to_string proof_prefix a b ha hb))
            ∙ (elim (a == b)
                as (λ t.
                  load (if t then some bytes else before) ≡ (if t then some p else load before)) [
                    | true ↦ deserialize-serialize p hr hs
                    | false ↦ refl
                  ]),
        got_other (make_key block_prefix (to_string b)) key bytes db ok refl,
        ap
            (λ got. elim got [
              | none ↦ returned none
              | some tx_data ↦ Tx.deserialize now hash tx_data
            ])
            (got_other (make_key tx_prefix tx_hash) key bytes db ok refl),
      )

  -- Data stored for a block are what is loaded for it; the data of other blocks, the proofs of all
  -- blocks and the transactions are loaded as before.
  pub load_block_data-store_block_data :
      (a b now : ℕ) (hash tx_hash bytes : Bytes) (db : Db)
      → a < u64_mod
      → b < u64_mod
      → (store_block_data database a bytes db).0 ≡ true
      → let db' = (store_block_data database a bytes db).1 in
        (load_block_data database b db'
          ≡ (if a == b then some bytes else load_block_data database b db))
        × (load_proof database b db' ≡ load_proof database b db)
        × (load_transaction database now hash tx_hash db'
            ≡ load_transaction database now hash tx_hash db)
  unfolding store_block_data load_proof load_block_data load_transaction
  load_block_data-store_block_data a b now hash tx_hash bytes db ha hb ok =
      let key : Bytes = make_key block_prefix (to_string a) in
      (
        database.get_put (make_key block_prefix (to_string b)) key bytes db ok
            ∙ ap
                (λ t.
                  if t then some bytes else database.get (make_key block_prefix (to_string b)) db)
                (make_key-to_string block_prefix a b ha hb),
        ap (λ got. elim got [ none ↦ none | some proof_data ↦ Proof.deserialize proof_data ])
            (got_other (make_key proof_prefix (to_string b)) key bytes db ok refl),
        ap
            (λ got. elim got [
              | none ↦ returned none
              | some tx_data ↦ Tx.deserialize now hash tx_data
            ])
            (got_other (make_key tx_prefix tx_hash) key bytes db ok refl),
      )

  -- A transaction that was stored is not loaded again: for its hash there is nothing to load
  -- afterwards, whatever there was before.
  pub stored_transaction_lost :
      (now : ℕ) (hash : Bytes) (blake3 : Bytes → Bytes) (tx : Transaction) (db : Db)
      → (store_transaction database blake3 tx db).0 ≡ true
      → load_transaction database now hash
          (Tx.compute_hash blake3 tx)
          (store_transaction database blake3 tx db).1
        ≡ returned none
  unfolding store_transaction load_transaction Tx.serialize Tx.deserialize
  stored_transaction_lost now hash blake3 tx db ok =
      let key : Bytes = make_key tx_prefix (Tx.compute_hash blake3 tx) in
      let same : list_beq key key ≡ true = (list_beq_iff key key).1 refl in
      ap (λ got. elim got [ none ↦ returned none | some tx_data ↦ Tx.deserialize now hash tx_data ])
        (database.get_put key key [] db ok
          ∙ ap (λ t. if t then some [] else database.get key db) same)

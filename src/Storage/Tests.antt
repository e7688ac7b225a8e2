-- ===== src/Storage/Tests.antt =====
-- A database that is a map and takes every put.
use quids_evm_cpp.Base.{
  ◌≡◌, refl, true, some, [], ◌∷◌, Bytes, list_eq, nat_eq, ◌==◌, if◌then◌else◌, replicate, arith,
}
use quids_evm_cpp.Base.Dict.{Dict, find, insert, find-insert}
use quids_evm_cpp.Rollup.TransitionProof.{ProofData}
use quids_evm_cpp.Storage.Decimal.{digits, to_string}
use quids_evm_cpp.Storage.{Database, load_transaction, store_proof, load_proof, load_block_data}
use quids_evm_cpp.Storage.Records.{load_proof-store_proof}

abbrev database : Database (Dict Bytes Bytes)
database = record {
  put = λ k v db. (true, insert k v db);
  get = find;
  get_put = λ j k v db ok. find-insert j k v db;
}

abbrev proof : ProofData
proof = record {
  pre_state_root = replicate 32 1;
  post_state_root = replicate 32 2;
  transactions_root = replicate 32 3;
  zk_proof = 4 ∷ 5 ∷ [];
  quantum_signature = [];
}

numeral : to_string 305 ≡ 51 ∷ 48 ∷ 53 ∷ []
unfolding to_string digits
numeral = refl

load_proof-store_proof_example :
    let db' = (store_proof database 305 proof []).1 in
    (load_proof database 305 db' ≡ (if 305 == 305 then some proof else load_proof database 305 []))
    × (load_block_data database 305 db' ≡ load_block_data database 305 [])
    × (load_transaction database 0 [] (7 ∷ []) db' ≡ load_transaction database 0 [] (7 ∷ []) [])
unfolding store_proof
load_proof-store_proof_example =
    load_proof-store_proof database 305 305 0 [] (7 ∷ []) proof [] (omega arith) (omega arith)
      (refl, refl, refl) (omega arith, omega arith) refl

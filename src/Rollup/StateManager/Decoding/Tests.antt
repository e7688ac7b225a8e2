-- ===== src/Rollup/StateManager/Decoding/Tests.antt =====
-- An account with code and a storage of two keys, and its bytes.
use quids_evm_cpp.Base.{
  ◌<◌, ◌≡◌, ◌≢◌, ap, Bytes, list_eq, nat_eq, refl, [], ◌∷◌, u64_mod, length, take, arith,
}
use quids_evm_cpp.Base.Dict.{Dict}
use quids_evm_cpp.Rollup.StateManager.Accounts.{Account, serialize_account, serialize_storage}
use quids_evm_cpp.Rollup.StateManager.Decoding.{parsed, refused, read_sized, deserialize_account}
use quids_evm_cpp.Rollup.StateManager.Decoding.Reading.{
  AreDistinct, IsSame, deserialize_account-serialize_account, serialize_account-injective,
}

abbrev alice : Account
alice = record {
  address = 1 ∷ [];
  balance = 300;
  nonce = 4;
  code = 96 ∷ 0 ∷ [];
  storage = (5 ∷ [], 7 ∷ []) ∷ (3 ∷ [], []) ∷ [];
}

cut_short : deserialize_account (take 20 (serialize_account alice)) ≡ refused
unfolding deserialize_account read_sized serialize_account serialize_storage
cut_short = refl

short : length (serialize_account alice) < u64_mod
unfolding serialize_account serialize_storage
short = omega arith

distinct : AreDistinct [] alice.storage
distinct = (refl, (refl, tt))

deserialize_account-serialize_account_example :
    (b : Account) × (deserialize_account (serialize_account alice) ≡ parsed b) × IsSame b alice
deserialize_account-serialize_account_example =
    deserialize_account-serialize_account alice (omega arith) (omega arith) distinct short

-- The same storage, iterated in the other order
abbrev turned : Account
turned = record alice { storage = (3 ∷ [], []) ∷ (5 ∷ [], 7 ∷ []) ∷ [] }

turned_distinct : AreDistinct [] turned.storage
turned_distinct = (refl, (refl, tt))

first_key : Dict Bytes Bytes → Bytes
first_key [] = []
first_key ((key, value) ∷ storage) = key

differ : alice ≢ turned
unfolding first_key
differ same =
    (let bad : 5 ∷ [] ≡ 3 ∷ [] = ap (λ a. first_key a.storage) same in ground (arith, bad))

serialize_account-injective_example : serialize_account alice ≢ serialize_account turned
serialize_account-injective_example =
    serialize_account-injective alice turned (omega arith) (omega arith) (omega arith) (omega arith)
      distinct turned_distinct short differ

-- ===== src/Rollup/StateManager/Accounts.antt =====
-- src/rollup/StateManager.cpp: an account, its bytes, and the root over all accounts.
use quids_evm_cpp.Base.{ℕ, ◌+◌, ◌/◌, ◌%◌, [], ◌∷◌, ◌++◌, Bytes, ltb, if◌then◌else◌, length}
use quids_evm_cpp.Base.Dict.{Dict}
use quids_evm_cpp.Base.Encoding.{le_bytes}
use quids_evm_cpp.Evm.Address.{Address, lexicographical_compare}

-- `StateManager::Account`. The std::unordered_map `storage` is the list of its entries in the order in
-- which it is iterated, which is any order; only `serialize_storage` reads it.
pub record Account : Type 0 where
  pub address : Bytes
  pub balance : ℕ
  pub nonce : ℕ
  pub code : Bytes
  pub storage : Dict Bytes Bytes

-- A size and what it is the size of
abbrev pub sized : Bytes → Bytes
sized bytes = le_bytes 8 (length bytes) ++ bytes

unfoldable pub serialize_storage : Dict Bytes Bytes → Bytes
serialize_storage [] = []
serialize_storage ((key, value) ∷ storage) = sized key ++ (sized value ++ serialize_storage storage)

-- `Account::serialize`
unfoldable pub serialize_account : Account → Bytes
unfolding serialize_storage
serialize_account account =
    sized account.address
    ++ (le_bytes 8 account.balance
        ++ (le_bytes 8 account.nonce
            ++ (sized account.code
                ++ (le_bytes 8 (length account.storage) ++ serialize_storage account.storage))))

-- std::sort of the accounts by their addresses, which differ.
unfoldable pub insert_sorted : Bytes × Account → Dict Bytes Account → Dict Bytes Account
insert_sorted entry [] = entry ∷ []
insert_sorted entry (first ∷ rest) =
    let behind = insert_sorted entry rest in
    if lexicographical_compare first.0 entry.0 then first ∷ behind else entry ∷ first ∷ rest

unfoldable pub sort_accounts : Dict Bytes Account → Dict Bytes Account
unfolding insert_sorted
sort_accounts [] = []
sort_accounts (entry ∷ accounts) = insert_sorted entry (sort_accounts accounts)

unfoldable pub serialize_accounts : Dict Bytes Account → Bytes
unfolding serialize_account
serialize_accounts [] = []
serialize_accounts ((address, account) ∷ accounts) =
    serialize_account account ++ serialize_accounts accounts

unfoldable pub calculate_state_root : (Bytes → Bytes) → Dict Bytes Account → Bytes
unfolding sort_accounts serialize_accounts
calculate_state_root blake3 accounts = blake3 (serialize_accounts (sort_accounts accounts))

-- `address_to_hex`: two digits to a byte
abbrev hex_digit : ℕ → ℕ
hex_digit n = if ltb n 10 then 48 + n else 87 + n

hex_bytes : Bytes → Bytes
hex_bytes [] = []
hex_bytes (b ∷ bytes) = hex_digit (b / 16) ∷ hex_digit (b % 16) ∷ hex_bytes bytes

unfoldable pub address_to_hex : Address → Bytes
unfolding hex_bytes
address_to_hex address = hex_bytes address.bytes

-- ===== src/Rollup/StateManager/Decoding.antt =====
-- src/rollup/StateManager.cpp: Account::deserialize, which reads an account from its bytes. Sizes are
-- added to offsets in size_t; where a sum wraps, the range that is copied ends before it begins, and
-- what happens is `undefined_range`.
pub mod Offsets
pub mod Reading
mod Tests
use quids_evm_cpp.Base.{
  ℕ, zero, suc, ◌+◌, ◌*◌, ◌%◌, Bool, true, false, List, [], ◌∷◌, ◌++◌, Bytes, u64_mod, list_eq,
  nat_eq, list_beq, ltb, leb, if◌then◌else◌, length, take, drop,
}
use quids_evm_cpp.Base.Dict.{Dict, insert}
use quids_evm_cpp.Base.Encoding.{le_value}
use quids_evm_cpp.Rollup.StateManager.Accounts.{Account}

-- What reading gives: a value, std::nullopt, or undefined behaviour.
pub data Parsed (A : Type 0) : Type 0 where
  parsed : A → Parsed A
  refused undefined_range : Parsed A

infixl 5 ◌>>=◌
abbrev pub ◌>>=◌ : {A B : Type 0} → Parsed A → (A → Parsed B) → Parsed B
parsed a >>= f = f a
refused >>= f = refused
undefined_range >>= f = undefined_range

-- A check that `size` bytes follow, and what it guards
abbrev pub guarded : {A : Type 0} → Bytes → (offset size : ℕ) → Parsed A → Parsed A
guarded bytes offset size rest =
    if ltb (length bytes) ((offset + size) % u64_mod) then refused else rest

-- memcpy of eight bytes
abbrev pub u64_at : Bytes → ℕ → ℕ
u64_at bytes offset = le_value (take 8 (drop offset bytes))

-- A range of `size` bytes behind its check
abbrev pub copy_range : Bytes → (offset size : ℕ) → Parsed Bytes
copy_range bytes offset size =
    if leb u64_mod (offset + size) then undefined_range else parsed (take size (drop offset bytes))

-- A size and what it is the size of, with the offset behind them
unfoldable pub read_sized : Bytes → ℕ → Parsed (Bytes × ℕ)
read_sized bytes offset = guarded bytes offset 8 (
    let size = u64_at bytes offset in
    guarded bytes (offset + 8) size
      (do range ← copy_range bytes (offset + 8) size; parsed (range, offset + 8 + size)))

-- The loop over the storage, `account.storage[key] = value`: `count` rounds are left. What a table
-- holds is read by keys; in which order it is iterated then, C++ leaves open.
unfoldable pub read_storage :
    Bytes → (count offset : ℕ) → Dict Bytes Bytes → Parsed (Dict Bytes Bytes)
unfolding read_sized
read_storage bytes zero offset storage = parsed storage
read_storage bytes (suc count) offset storage = do
  (key, behind_key) ← read_sized bytes offset
  (value, behind_value) ← read_sized bytes behind_key
  read_storage bytes count behind_value (insert key value storage)

-- `Account::deserialize`
unfoldable pub deserialize_account : Bytes → Parsed Account
unfolding read_sized read_storage
deserialize_account bytes = do
  (address, offset) ← read_sized bytes 0
  guarded bytes offset 16 (do
    (code, behind_code) ← read_sized bytes (offset + 16)
    guarded bytes behind_code 8 (do
      storage ← read_storage bytes (u64_at bytes behind_code) (behind_code + 8) []
      parsed (record {
        address = address;
        balance = u64_at bytes offset;
        nonce = u64_at bytes (offset + 8);
        code = code;
        storage = storage;
      })))

-- ===== src/Rollup/StateManager/Decoding/Reading.antt =====
-- An account read back, and a size that wraps.
use quids_evm_cpp.Base.{
  ℕ, ◌+◌, ◌%◌, ◌≤◌, ◌<◌, ◌≡◌, ◌≢◌, refl, sym, ap, subst, ◌∙◌, true, false, [], ◌∷◌, ◌++◌, Bytes,
  u64_mod, list_eq, nat_eq, list_beq, Bool-cases, inl, inr, none, some, ltb, leb, length, drop,
  length-append, arith,
}
use mathlib.Core.List.{append_assoc, append-nil}
use quids_evm_cpp.Base.Dict.{Dict, find, insert}
use quids_evm_cpp.Base.Encoding.{le_bytes, length-le_bytes}
use quids_evm_cpp.Rollup.StateManager.Accounts.{
  Account, sized, serialize_storage, serialize_account,
}
use quids_evm_cpp.Rollup.StateManager.Decoding.{
  Parsed, parsed, refused, undefined_range, u64_at, read_sized, read_storage, deserialize_account,
}
use quids_evm_cpp.Rollup.StateManager.Decoding.Offsets.{
  IsAt, IsAt-front, read_u64, length-sized, read_sized-sized,
}

-- No key of a table comes twice, or in `front`.
abbrev pub AreDistinct : Dict Bytes Bytes → Dict Bytes Bytes → Type 0
AreDistinct front [] = Unit
AreDistinct front ((key, value) ∷ storage) =
    (find key front ≡ none) × AreDistinct (front ++ ((key, value) ∷ [])) storage

insert_absent :
    (key value : Bytes) (storage : Dict Bytes Bytes)
    → find key storage ≡ none
    → insert key value storage ≡ storage ++ ((key, value) ∷ [])
insert_absent key value [] h = refl
insert_absent key value ((j, w) ∷ storage) h = elim (Bool-cases (list_beq j key)) [
  | inl same ↦ (let bad : some w ≡ none = rw (find, same) at h in cc)
  | inr other ↦
      let rest : find key storage ≡ none = rw (find, other) at h in
      rw (insert, other) (ap (◌∷◌ (j, w)) (insert_absent key value storage rest))
]

read_storage-serialize :
    (bytes : Bytes) (front storage : Dict Bytes Bytes) (offset : ℕ)
    → length bytes < u64_mod
    → IsAt bytes offset (serialize_storage storage)
    → AreDistinct front storage
    → read_storage bytes (length storage) offset front ≡ parsed (front ++ storage)
unfolding read_storage serialize_storage
read_storage-serialize bytes front [] offset fits at ordered = ap parsed (sym (append-nil front))
read_storage-serialize bytes front ((key, value) ∷ storage) offset fits at (after, ordered) =
    let (read_key, at_value) =
      read_sized-sized bytes key (sized value ++ serialize_storage storage) offset fits at in
    let (read_value, at_rest) =
      read_sized-sized bytes value (serialize_storage storage) (offset + 8 + length key) fits
        at_value in
    let longer : Dict Bytes Bytes = front ++ ((key, value) ∷ []) in
    rw (read_key, read_value, insert_absent key value front after)
      (read_storage-serialize bytes longer storage (offset + 8 + length key + 8 + length value) fits
          at_rest ordered
        ∙ ap parsed (append_assoc front ((key, value) ∷ []) storage))

length-serialize_storage :
    (storage : Dict Bytes Bytes) → length storage ≤ length (serialize_storage storage)
unfolding serialize_storage
length-serialize_storage [] = omega arith
length-serialize_storage ((key, value) ∷ storage) = omega (
  arith,
  length-serialize_storage storage,
  length-append (sized key) (sized value ++ serialize_storage storage),
  length-append (sized value) (serialize_storage storage),
  length-sized key,
  length-sized value,
)

-- An account's bytes behind its address, and behind its code
module _ (a : Account) where
  abbrev stored : Bytes
  stored = le_bytes 8 (length a.storage) ++ serialize_storage a.storage

  abbrev numbers : Bytes
  numbers = le_bytes 8 a.balance ++ (le_bytes 8 a.nonce ++ (sized a.code ++ stored))

module _ (bytes : Bytes) (a : Account) where
  -- The reads of an account, one after another
  assembled :
      (o c : ℕ)
      → length bytes < u64_mod
      → read_sized bytes 0 ≡ parsed (a.address, o)
      → o + 16 ≤ length bytes
      → u64_at bytes o ≡ a.balance
      → u64_at bytes (o + 8) ≡ a.nonce
      → read_sized bytes (o + 16) ≡ parsed (a.code, c)
      → c + 8 ≤ length bytes
      → read_storage bytes (u64_at bytes c) (c + 8) [] ≡ parsed a.storage
      → deserialize_account bytes ≡ parsed a
  unfolding deserialize_account
  assembled o c fits address room balance nonce code room' storage =
      let first : ltb (length bytes) ((o + 16) % u64_mod) ≡ false = ground arith in
      let second : ltb (length bytes) ((c + 8) % u64_mod) ≡ false = ground arith in
      rw (address, first, code, second, storage, balance, nonce) refl

  laid :
      a.balance < u64_mod
      → a.nonce < u64_mod
      → AreDistinct [] a.storage
      → length bytes < u64_mod
      → IsAt bytes 0 (sized a.address ++ numbers a)
      → deserialize_account bytes ≡ parsed a
  laid hb hn ordered fits at =
      let (read_address, at_balance) = read_sized-sized bytes a.address (numbers a) 0 fits at in
      let o : ℕ = 0 + 8 + length a.address in
      let at_nonce : IsAt bytes (o + 8) (le_bytes 8 a.nonce ++ (sized a.code ++ (stored a))) =
        IsAt-front bytes (le_bytes 8 a.balance) (le_bytes 8 a.nonce ++ (sized a.code ++ (stored a)))
          o 8 (length-le_bytes 8 a.balance) at_balance in
      let at_code : IsAt bytes (o + 16) (sized a.code ++ (stored a)) =
        subst (λ k. IsAt bytes k (sized a.code ++ (stored a))) {x = o + 8 + 8} {y = o + 16}
          (omega arith)
          (IsAt-front bytes (le_bytes 8 a.nonce) (sized a.code ++ (stored a)) (o + 8) 8
            (length-le_bytes 8 a.nonce) at_nonce) in
      let (read_code, at_count) = read_sized-sized bytes a.code (stored a) (o + 16) fits at_code in
      let c : ℕ = o + 16 + 8 + length a.code in
      let at_storage : IsAt bytes (c + 8) (serialize_storage a.storage) =
        IsAt-front bytes (le_bytes 8 (length a.storage)) (serialize_storage a.storage) c 8
          (length-le_bytes 8 (length a.storage)) at_count in
      let few : length a.storage < u64_mod =
        omega (arith, length-serialize_storage a.storage, at_storage.1, fits) in
      assembled o c fits read_address (omega (arith, at_code.1))
        (read_u64 bytes (le_bytes 8 a.nonce ++ (sized a.code ++ (stored a))) o a.balance hb
          at_balance)
        (read_u64 bytes (sized a.code ++ (stored a)) (o + 8) a.nonce hn at_nonce) read_code
        (omega (arith, at_storage.1))
        (ap (λ n. read_storage bytes n (c + 8) [])
            (read_u64 bytes (serialize_storage a.storage) c (length a.storage) few at_count)
          ∙ read_storage-serialize bytes [] a.storage (c + 8) fits at_storage ordered)

serialize_account_lem : (a : Account) → drop 0 (serialize_account a) ≡ sized a.address ++ numbers a
unfolding serialize_account
serialize_account_lem a = refl

-- A size that wraps
wraps :
    (bytes : Bytes) (n : ℕ)
    → u64_mod ≤ 8 + n
    → n < u64_mod
    → 8 ≤ length bytes
    → length bytes < u64_mod
    → u64_at bytes 0 ≡ n
    → deserialize_account bytes ≡ undefined_range
unfolding deserialize_account read_sized
wraps bytes n big hn long fits at =
    let first : ltb (length bytes) ((0 + 8) % u64_mod) ≡ false = ground arith in
    let second : ltb (length bytes) ((0 + 8 + n) % u64_mod) ≡ false = ground arith in
    let range : leb u64_mod (0 + 8 + n) ≡ true = ground arith in rw (first, at, second, range) refl

reads_back :
    (a : Account)
    → a.balance < u64_mod
    → a.nonce < u64_mod
    → AreDistinct [] a.storage
    → length (serialize_account a) < u64_mod
    → deserialize_account (serialize_account a) ≡ parsed a
reads_back a hb hn distinct fits =
    laid (serialize_account a) a hb hn distinct fits
      (serialize_account_lem a, omega (arith, ap length (serialize_account_lem a)))

-- Accounts with the same fields, whose storages hold the same under every key
abbrev pub IsSame : Account → Account → Type 0
IsSame a b =
    (a.address ≡ b.address)
    × (a.balance ≡ b.balance)
    × (a.nonce ≡ b.nonce)
    × (a.code ≡ b.code)
    × ((key : Bytes) → find key a.storage ≡ find key b.storage)

-- From the bytes that Account::serialize writes, in whatever order the storage is iterated,
-- Account::deserialize reads an account with the same fields and the same value under every key of
-- the storage, where the balance and the nonce are uint64_t, no key comes twice, and the bytes are
-- fewer than 2 ^ 64.
pub deserialize_account-serialize_account :
    (a : Account)
    → a.balance < u64_mod
    → a.nonce < u64_mod
    → AreDistinct [] a.storage
    → length (serialize_account a) < u64_mod
    → (b : Account) × (deserialize_account (serialize_account a) ≡ parsed b) × IsSame b a
deserialize_account-serialize_account a hb hn distinct fits =
    (a, reads_back a hb hn distinct fits, (refl, refl, refl, refl, λ key. refl))

account_of : Account → Parsed Account → Account
account_of a (parsed b) = b
account_of a refused = a
account_of a undefined_range = a

-- Account::serialize writes the order in which the storage is iterated: where the balances and
-- nonces are uint64_t, no key comes twice and the bytes are fewer than 2 ^ 64, accounts that differ
-- in a field, or only in the order of the same entries of the storage, have different bytes.
pub serialize_account-injective :
    (a b : Account)
    → a.balance < u64_mod
    → a.nonce < u64_mod
    → b.balance < u64_mod
    → b.nonce < u64_mod
    → AreDistinct [] a.storage
    → AreDistinct [] b.storage
    → length (serialize_account a) < u64_mod
    → a ≢ b
    → serialize_account a ≢ serialize_account b
unfolding account_of
serialize_account-injective a b ha na hb nb da db fits differ same =
    let fits' : length (serialize_account b) < u64_mod =
      subst (λ l. length l < u64_mod) same fits in
    let eq : parsed a ≡ parsed b =
      sym (reads_back a ha na da fits)
      ∙ (ap deserialize_account same ∙ reads_back b hb nb db fits') in
    differ (ap (account_of a) eq)

-- Where the first eight bytes hold a size of at least 2 ^ 64 - 8, Account::deserialize passes its
-- check, whatever follows, and leaves defined behaviour.
pub deserialize_account_undefined :
    (n : ℕ) (rest : Bytes)
    → n < u64_mod
    → u64_mod ≤ 8 + n
    → 8 + length rest < u64_mod
    → deserialize_account (le_bytes 8 n ++ rest) ≡ undefined_range
deserialize_account_undefined n rest hn big fits =
    wraps (le_bytes 8 n ++ rest) n big hn
      (omega (arith, length-append (le_bytes 8 n) rest, length-le_bytes 8 n))
      (omega (arith, length-append (le_bytes 8 n) rest, length-le_bytes 8 n))
      (read_u64 (le_bytes 8 n ++ rest) rest 0 n hn (refl, omega arith))

-- ===== src/Blockchain/Transaction/Decoding.antt =====
-- What the decoder reads back, and where it leaves the data.
use quids_evm_cpp.Base.{
  ℕ, false, ◌+◌, ◌≤◌, ◌<◌, ◌≡◌, ◌≢◌, refl, ap, ◌∙◌, none, some, [], ◌∷◌, ◌++◌, arith, Bytes,
  u64_mod, returned, undefined, ltb, length, take, drop, length-append, drop-append_length,
  take-append_length, drop-add,
}
use quids_evm_cpp.Base.Encoding.{le_bytes, le_value, length-le_bytes, le_value-le_bytes}
use quids_evm_cpp.Blockchain.Transaction.{new_transaction, c_string, read_u64, deserialize}

-- No byte is zero, so a C string can hold it.
abbrev pub NoZero : Bytes → Type 0
NoZero [] = Unit
NoZero (b ∷ bytes) = (b ≢ 0) × NoZero bytes

-- The format that the decoder expects: two C strings and two integers of eight bytes.
-- More data may follow.
abbrev pub encoding : Bytes → Bytes → ℕ → ℕ → Bytes → Bytes
encoding sender recipient amount nonce rest =
    sender ++ (0 ∷ (recipient ++ (0 ∷ (le_bytes 8 amount ++ (le_bytes 8 nonce ++ rest)))))

c_string_lem : (text rest : Bytes) → NoZero text → c_string (text ++ (0 ∷ rest)) ≡ some text
unfolding c_string
c_string_lem [] rest h = refl
c_string_lem (b ∷ text) rest h = ground (arith, c_string_lem text rest h.1)

c_string-none : (bytes : Bytes) → NoZero bytes → c_string bytes ≡ none
unfolding c_string
c_string-none [] h = refl
c_string-none (b ∷ bytes) h = ground (arith, c_string-none bytes h.1)

-- Past a C string and its terminator.
drop_string : (text rest : Bytes) → drop (length text + 1) (text ++ (0 ∷ rest)) ≡ rest
drop_string text rest =
    drop-add (length text) 1 (text ++ (0 ∷ rest)) ∙ ap (drop 1) (drop-append_length text (0 ∷ rest))

read_u64_lem :
    (offset x : ℕ) (bytes rest : Bytes)
    → x < u64_mod
    → drop offset bytes ≡ le_bytes 8 x ++ rest
    → offset + 8 ≤ length bytes
    → read_u64 offset bytes ≡ some x
unfolding read_u64
read_u64_lem offset x bytes rest hx e h =
    let front : take 8 (drop offset bytes) ≡ le_bytes 8 x =
      ap (take 8) e ∙ take-append_length (le_bytes 8 x) rest in
    ground (arith, ap le_value front, le_value-le_bytes 8 x hx)

module _ (sender recipient : Bytes) (amount nonce : ℕ) (rest : Bytes) where
  abbrev encoded : Bytes
  encoded = encoding sender recipient amount nonce rest

  abbrev numbers : Bytes
  numbers = le_bytes 8 amount ++ (le_bytes 8 nonce ++ rest)

  abbrev strings_end : ℕ
  strings_end = length sender + 1 + (length recipient + 1)

  length-encoded : length encoded ≡ strings_end + 16 + length rest
  length-encoded = omega (
    arith,
    length-append sender (0 ∷ (recipient ++ (0 ∷ numbers))),
    length-append recipient (0 ∷ numbers),
    length-append (le_bytes 8 amount) (le_bytes 8 nonce ++ rest),
    length-append (le_bytes 8 nonce) rest,
    length-le_bytes 8 amount,
    length-le_bytes 8 nonce,
  )

  drop-encoded : drop strings_end encoded ≡ numbers
  drop-encoded =
      drop-add (length sender + 1) (length recipient + 1) encoded
      ∙ (ap (drop (length recipient + 1)) (drop_string sender (recipient ++ (0 ∷ numbers)))
          ∙ drop_string recipient numbers)

  drop-encoded_amount : drop (strings_end + 8) encoded ≡ le_bytes 8 nonce ++ rest
  drop-encoded_amount =
      drop-add strings_end 8 encoded
      ∙ (ap (drop 8) drop-encoded
          ∙ drop-append_length (le_bytes 8 amount) (le_bytes 8 nonce ++ rest))

  -- Two C strings without zero bytes and two numbers below 2 ^ 64 are decoded to the transaction
  -- that has them as its fields and initial values elsewhere, whatever data follows.
  pub deserialize-encoding :
      (now : ℕ) (hash : Bytes)
      → NoZero sender
      → NoZero recipient
      → amount < u64_mod
      → nonce < u64_mod
      → let tx = new_transaction now hash in
        deserialize now hash (encoding sender recipient amount nonce rest)
        ≡ returned
            (some (record tx { from = sender; to = recipient; value = amount; nonce = nonce }))
  unfolding deserialize
  deserialize-encoding now hash zs zr ha hn =
      let long : ltb (length encoded) 16 ≡ false = ground (arith, length-encoded) in
      let first : c_string encoded ≡ some sender =
        c_string_lem sender (recipient ++ (0 ∷ numbers)) zs in
      let second : c_string (drop (length sender + 1) encoded) ≡ some recipient =
        ap c_string (drop_string sender (recipient ++ (0 ∷ numbers)))
        ∙ c_string_lem recipient numbers zr in
      let third : read_u64 strings_end encoded ≡ some amount =
        read_u64_lem strings_end amount encoded (le_bytes 8 nonce ++ rest) ha drop-encoded
          (omega (arith, length-encoded)) in
      let fourth : read_u64 (strings_end + 8) encoded ≡ some nonce =
        read_u64_lem (strings_end + 8) nonce encoded rest hn drop-encoded_amount
          (omega (arith, length-encoded)) in
      rw (long, first, second, third, fourth) refl

-- Sixteen bytes or more with no zero among them pass the size check; the decoder then looks for
-- the end of the sender past the end of the data.
pub deserialize-unterminated :
    (now : ℕ) (hash bytes : Bytes)
    → 16 ≤ length bytes
    → NoZero bytes
    → deserialize now hash bytes ≡ undefined
unfolding deserialize
deserialize-unterminated now hash bytes h z =
    let long : ltb (length bytes) 16 ≡ false = ground arith in rw (long, c_string-none bytes z) refl

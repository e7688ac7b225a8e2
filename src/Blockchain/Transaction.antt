-- ===== src/Blockchain/Transaction.antt =====
-- src/blockchain/Transaction.cpp and include/blockchain/Transaction.hpp: the transaction, its
-- checks, its costs and its decoding. The signature (OpenSSL) and the hash (blake3) are made by
-- libraries that the repository does not hold.
pub mod Decoding
pub mod Costs
pub mod Identity
mod Tests
use quids_evm_cpp.Base.{
  ℕ, zero, suc, ◌+◌, ◌*◌, ◌%◌, Bool, true, false, not, ◌&&◌, ◌||◌, Option, none, some, List, [],
  ◌∷◌, ◌++◌, Bytes, u64_mod, Outcome, returned, undefined, list_beq, nat_eq, ltb, leb, ◌==◌,
  if◌then◌else◌, length, empty, get_elem?, take, drop,
}
use quids_evm_cpp.Base.Encoding.{le_bytes, le_value}

-- The strings and byte vectors are lists of bytes, the integers are uint64_t. `payload` is the
-- field `data`; `timestamp` counts the clock's ticks.
pub record Transaction : Type 0 where
  pub from : Bytes
  pub to : Bytes
  pub value : ℕ
  pub gas_price : ℕ
  pub gas_limit : ℕ
  pub payload : Bytes
  pub signature : Bytes
  pub nonce : ℕ
  pub timestamp : ℕ
  pub hash : Bytes

-- The fields' initial values; `now` is what the clock shows, and `hash` is not initialised.
abbrev pub new_transaction : ℕ → Bytes → Transaction
new_transaction now hash = record {
  from = [];
  to = [];
  value = 0;
  gas_price = 0;
  gas_limit = 21000;
  payload = [];
  signature = [];
  nonce = 0;
  timestamp = now;
  hash = hash;
}

unfoldable pub verify : Transaction → Bool
verify tx = if empty tx.from || empty tx.to then false else true

unfoldable pub is_valid : Transaction → Bool
is_valid tx = if empty tx.from || empty tx.to then false else if tx.value == 0 then false else true

unfoldable pub calculate_gas_cost : Transaction → ℕ
calculate_gas_cost tx = (tx.gas_limit + (length tx.payload * 16) % u64_mod) % u64_mod

unfoldable pub calculate_total_cost : Transaction → ℕ
unfolding calculate_gas_cost
calculate_total_cost tx = ((calculate_gas_cost tx * tx.gas_price) % u64_mod + tx.value) % u64_mod

-- `operator<`: the higher amount comes first.
unfoldable pub before : Transaction → Transaction → Bool
before a b = ltb b.value a.value

-- `operator==`
unfoldable pub same : Transaction → Transaction → Bool
same a b =
    list_beq a.from b.from
    && (list_beq a.to b.to
        && (a.value == b.value
            && (a.nonce == b.nonce
                && (a.gas_limit == b.gas_limit
                    && (a.gas_price == b.gas_price && list_beq a.signature b.signature)))))

-- The bytes that `compute_hash` feeds to the hasher, which hashes their concatenation.
unfoldable pub hashed_bytes : Transaction → Bytes
hashed_bytes tx = tx.from ++ (tx.to ++ (le_bytes 8 tx.value ++ le_bytes 8 tx.nonce))

unfoldable pub compute_hash : (Bytes → Bytes) → Transaction → Bytes
unfolding hashed_bytes
compute_hash blake3 tx = blake3 (hashed_bytes tx)

-- `serialize` is a stub in the source: no byte is written.
unfoldable pub serialize : Transaction → Bytes
serialize tx = []

-- The C string at the front of the bytes, up to its terminating zero; `none` means that the
-- bytes end before it.
unfoldable pub c_string : Bytes → Option Bytes
c_string [] = none
c_string (b ∷ bytes) =
    if b == 0 then some [] else elim (c_string bytes) [ none ↦ none | some text ↦ some (b ∷ text) ]

-- What follows a read that may run past the end of the data.
abbrev pub or_undefined {ℓ} :
    {A : Type ℓ} → Option A → (A → Outcome ⊥ (Option Transaction)) → Outcome ⊥ (Option Transaction)
or_undefined none k = undefined
or_undefined (some a) k = k a

-- memcpy of eight bytes from `offset` into a uint64_t
unfoldable pub read_u64 : ℕ → Bytes → Option ℕ
read_u64 offset bytes =
    if leb (offset + 8) (length bytes) then some (le_value (take 8 (drop offset bytes))) else none

unfoldable pub deserialize : ℕ → Bytes → Bytes → Outcome ⊥ (Option Transaction)
unfolding c_string read_u64
deserialize now hash bytes =
    if ltb (length bytes) 16
    then returned none
    else or_undefined (c_string bytes) λ sender.
      let offset = length sender + 1 in
      or_undefined (c_string (drop offset bytes)) λ recipient.
        let offset' = offset + (length recipient + 1) in
        or_undefined (read_u64 offset' bytes) λ amount.
          or_undefined (read_u64 (offset' + 8) bytes) λ nonce.
            let tx = new_transaction now hash in
            returned
              (some (record tx { from = sender; to = recipient; value = amount; nonce = nonce }))

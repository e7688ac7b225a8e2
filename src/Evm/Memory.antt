-- ===== src/Evm/Memory.antt =====
-- src/evm/Memory.cpp: the byte-addressed memory. `data_` is a list of bytes; size_t and uint64_t are
-- numbers below 2 ^ 64 whose sums wrap. Allocation is taken to succeed.
pub mod Cells
pub mod Growth
pub mod Zero
mod Tests
use quids_evm_cpp.Base.{
  ℕ, zero, suc, ◌+◌, ◌-◌, ◌*◌, ◌/◌, ◌%◌, Bool, true, false, List, ◌++◌, Bytes, u64_mod, Outcome,
  returned, thrown, undefined, ltb, leb, ◌==◌, if◌then◌else◌, length, empty, get_elem?, get_or, set,
  take, drop, replicate, min, none, some, Option, not,
}

-- std::out_of_range, with its text
pub data Error : Type 0 where
  access_out_of_bounds range_check_out_of_bounds : Error

-- std::vector::resize(n, 0)
abbrev pub resize : ℕ → Bytes → Bytes
resize n bytes = take n bytes ++ replicate (n - length bytes) 0

-- std::copy to the place that begins at `offset`
abbrev pub write_at : ℕ → Bytes → Bytes → Bytes
write_at offset source bytes = take offset bytes ++ (source ++ drop (offset + length source) bytes)

unfoldable pub calculate_words : ℕ → ℕ
calculate_words size = ((size + 31) % u64_mod) / 32

unfoldable pub calculate_expansion_cost : ℕ → ℕ → Bytes → ℕ
unfolding calculate_words
calculate_expansion_cost offset size bytes =
    let required_size = (offset + size) % u64_mod in
    let words = calculate_words required_size in
    let current_words = calculate_words (length bytes) in
    let linear_cost = (words * 3) % u64_mod in
    let quadratic_cost =
      ((words * words) % u64_mod / 512 + u64_mod - (current_words * current_words) % u64_mod / 512)
      % u64_mod in
    if size == 0
    then 0
    else if leb required_size (length bytes)
    then 0
    else (linear_cost + quadratic_cost) % u64_mod

-- The cost, and the memory afterwards.
unfoldable pub expand : ℕ → Bytes → ℕ × Bytes
expand new_size bytes =
    if leb new_size (length bytes)
    then (0, bytes)
    else (calculate_expansion_cost 0 new_size bytes, resize new_size bytes)

unfoldable pub ensure_capacity : ℕ → ℕ → Bytes → Bytes
unfolding expand
ensure_capacity offset size bytes =
    let required_size = (offset + size) % u64_mod in
    if ltb (length bytes) required_size then (expand required_size bytes).1 else bytes

-- `store(offset, value)`; a write outside the vector is undefined.
unfoldable pub store_byte : ℕ → ℕ → Bytes → Outcome Error Bytes
unfolding ensure_capacity
store_byte offset value bytes =
    let grown = ensure_capacity offset 1 bytes in
    if ltb offset (length grown) then returned (set grown offset value) else undefined

-- `store(offset, data)`
unfoldable pub store : ℕ → Bytes → Bytes → Outcome Error Bytes
unfolding ensure_capacity
store offset source bytes =
    let grown = ensure_capacity offset (length source) bytes in
    if empty source
    then returned bytes
    else if leb (offset + length source) (length grown)
    then returned (write_at offset source grown)
    else undefined

-- `load(offset)`
unfoldable pub load_byte : ℕ → Bytes → Outcome Error ℕ
load_byte offset bytes =
    if leb (length bytes) offset
    then thrown access_out_of_bounds
    else returned (get_or bytes offset 0)

-- `load(offset, size)`
unfoldable pub load : ℕ → ℕ → Bytes → Bytes
load offset size bytes =
    let result = replicate size 0 in
    let copy_size = min size (length bytes - offset) in
    if leb (length bytes) offset
    then result
    else write_at 0 (take copy_size (drop offset bytes)) result

-- The loop of `is_zero`, with `n` rounds left from index `i`.
unfoldable pub is_zero_loop : ℕ → ℕ → ℕ → Bytes → Outcome Error Bool
is_zero_loop zero i offset bytes = returned true
is_zero_loop (suc n) i offset bytes =
    let rest = is_zero_loop n (i + 1) offset bytes in
    elim (get_elem? bytes ((offset + i) % u64_mod)) [
      | none ↦ undefined
      | some b ↦ if not (b == 0) then returned false else rest
    ]

unfoldable pub is_zero : ℕ → ℕ → Bytes → Outcome Error Bool
unfolding is_zero_loop
is_zero offset size bytes =
    if ltb (length bytes) ((offset + size) % u64_mod)
    then thrown range_check_out_of_bounds
    else is_zero_loop size 0 offset bytes

abbrev pub clear : Bytes → Bytes
clear bytes = List.[]

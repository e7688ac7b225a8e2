-- ===== src/Evm/Memory/Zero.antt =====
-- What the range check for zeros answers.
use native.Mathlib.Nat.{mod-eq_of_lt}
use quids_evm_cpp.Base.{
  ltb, ◌⊎◌, inl, inr, Bool-cases, ℕ, zero, suc, ◌+◌, ◌%◌, ◌≤◌, ◌<◌, ◌≡◌, ◌↔◌, refl, true, Bool,
  ◌&&◌, arith, Bytes, u64_mod, returned, thrown, ◌==◌, length, get_elem?-get_or,
}
use quids_evm_cpp.Evm.Memory.{range_check_out_of_bounds, is_zero_loop, is_zero}
use quids_evm_cpp.Evm.Memory.Cells.{cell}

-- Whether the `n` cells from `i` on are zero, with no bounds in sight.
abbrev pub zeros : ℕ → ℕ → Bytes → Bool
zeros zero i bytes = true
zeros (suc n) i bytes = cell bytes i == 0 && zeros n (i + 1) bytes

zeros-all :
    (n i : ℕ) (bytes : Bytes)
    → zeros n i bytes ≡ true
    → (j : ℕ) → i ≤ j
    → j < i + n
    → cell bytes j ≡ 0
zeros-all zero i bytes h j lo hi = absurd (omega arith)
zeros-all (suc n) i bytes h j lo hi = elim (Bool-cases (i == j)) [
  | inl e ↦ ground arith
  | inr e ↦ zeros-all n (i + 1) bytes (ground arith) j (ground arith) (omega arith)
]

zeros_of_all :
    (n i : ℕ) (bytes : Bytes)
    → ((j : ℕ) → i ≤ j → j < i + n → cell bytes j ≡ 0)
    → zeros n i bytes ≡ true
zeros_of_all zero i bytes h = refl
zeros_of_all (suc n) i bytes h =
    let first : cell bytes i ≡ 0 = h i (omega arith) (omega arith) in
    let rest : zeros n (i + 1) bytes ≡ true =
      zeros_of_all n (i + 1) bytes (λ j lo hi. h j (omega arith) (omega arith)) in
    ground arith

is_zero_loop-zeros :
    (n i offset : ℕ) (bytes : Bytes)
    → offset + (i + n) ≤ length bytes
    → length bytes < u64_mod
    → is_zero_loop n i offset bytes ≡ returned (zeros n (offset + i) bytes)
unfolding is_zero_loop
is_zero_loop-zeros zero i offset bytes h hb = refl
is_zero_loop-zeros (suc n) i offset bytes h hb =
    let wraps : (offset + i) % u64_mod ≡ offset + i = mod-eq_of_lt (omega arith) in
    let next : offset + (i + 1) ≡ offset + i + 1 = omega arith in
    ground (arith, is_zero_loop-zeros n (i + 1) offset bytes, get_elem?-get_or bytes (offset + i) 0)

-- Where the end of the range is a size_t, the check throws if the range leaves the memory, and
-- otherwise returns true exactly if every cell of the range is zero.
pub is_zero_checks :
    (offset size : ℕ) (bytes : Bytes)
    → length bytes < u64_mod
    → offset + size < u64_mod
    → ((length bytes < offset + size)
        × (is_zero offset size bytes ≡ thrown range_check_out_of_bounds))
      ⊎ ((offset + size ≤ length bytes)
          × ((answer : Bool) × (is_zero offset size bytes ≡ returned answer)
              × ((answer ≡ true) ↔ ((j : ℕ) → offset ≤ j → j < offset + size → cell bytes j ≡ 0))))
unfolding is_zero
is_zero_checks offset size bytes hb h = elim (Bool-cases (ltb (length bytes) (offset + size))) [
  | inl out ↦ inl (ground arith, rw (mod-eq_of_lt h, out))
  | inr fits ↦ inr (
    ground arith,
    (
      zeros size offset bytes,
      rw (mod-eq_of_lt h, fits) (in_range (ground arith)),
      (zeros-all size offset bytes, zeros_of_all size offset bytes),
    ),
  )
]
  where
    in_range :
        offset + size ≤ length bytes
        → is_zero_loop size 0 offset bytes ≡ returned (zeros size offset bytes)
    in_range le =
        let start : offset + 0 ≡ offset = omega arith in
        rw (is_zero_loop-zeros size 0 offset bytes (omega arith) hb, start) refl

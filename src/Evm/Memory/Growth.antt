-- ===== src/Evm/Memory/Growth.antt =====
-- What growing the memory costs, against the Yellow Paper's formula.
use Prim.Native.Nat.{max}
use quids_evm_cpp.Base.{
  false, ℕ, ◌+◌, ◌-◌, ◌*◌, ◌/◌, ◌%◌, ◌^◌, ◌≤◌, ◌<◌, ◌≡◌, refl, arith, Bytes, u64_mod, leb, ltb,
  ◌==◌, if◌then◌else◌, length,
}
use quids_evm_cpp.Evm.Memory.{calculate_words, calculate_expansion_cost, expand}
use quids_evm_cpp.Evm.Memory.Cells.{cell, length-resize, cell-resize}

-- The Yellow Paper's cost of a memory of `w` words: C(w) = 3 w + w² / 512.
abbrev pub memory_cost : ℕ → ℕ
memory_cost w = 3 * w + (w * w) / 512

square_lt : (w : ℕ) → w < 2 ^ 31 → w * w < 2 ^ 62
square_lt w h = grind arith

words_mono : (m n : ℕ) → m ≤ n → n < 2 ^ 35 → calculate_words m ≤ calculate_words n
unfolding calculate_words
words_mono m n h k = omega arith

square_mono : (v w : ℕ) → v ≤ w → v * v ≤ w * w
square_mono v w h = grind arith

words_lt : (n : ℕ) → n < 2 ^ 35 → calculate_words n < 2 ^ 31
unfolding calculate_words
words_lt n h = omega arith

cost_formula :
    (v w : ℕ)
    → v ≤ w
    → w < 2 ^ 31
    → ((w * 3) % u64_mod + ((w * w) % u64_mod / 512 + u64_mod - (v * v) % u64_mod / 512) % u64_mod)
          % u64_mod
        + memory_cost v
      ≡ memory_cost w + 3 * v
cost_formula v w h k = omega (arith, square_lt w k, square_mono v w h)

length-expand : (n : ℕ) (bytes : Bytes) → length (expand n bytes).1 ≡ max (length bytes) n
unfolding expand
length-expand n bytes = ground (arith, length-resize n bytes)

cell-expand : (n : ℕ) (bytes : Bytes) (i : ℕ) → cell (expand n bytes).1 i ≡ cell bytes i
unfolding expand
cell-expand n bytes i = ground (arith, cell-resize n bytes i)

-- The cost of real growth, with the wrapping of the sizes gone.
raw_cost : ℕ → ℕ → ℕ
raw_cost w v =
    ((w * 3) % u64_mod + ((w * w) % u64_mod / 512 + u64_mod - (v * v) % u64_mod / 512) % u64_mod)
    % u64_mod

raw_cost_lem : (v w : ℕ) → v ≤ w → w < 2 ^ 31 → raw_cost w v + memory_cost v ≡ memory_cost w + 3 * v
unfolding raw_cost
raw_cost_lem v w h k = cost_formula v w h k

grown_cost :
    (n : ℕ) (bytes : Bytes)
    → length bytes < n
    → n < 2 ^ 35
    → calculate_expansion_cost 0 n bytes
      ≡ raw_cost (calculate_words n) (calculate_words (length bytes))
unfolding calculate_expansion_cost raw_cost
grown_cost n bytes h k =
    let e : (0 + n) % u64_mod ≡ n = omega arith in
    let more : leb n (length bytes) ≡ false = ground arith in
    let some_size : (n == 0) ≡ false = ground arith in rw (e, more, some_size) refl

charged :
    (n : ℕ) (bytes : Bytes)
    → n < 2 ^ 35
    → length bytes < 2 ^ 35
    → (expand n bytes).0 + memory_cost (calculate_words (length bytes)) ≡ (
        if ltb (length bytes) n
        then memory_cost (calculate_words n) + 3 * calculate_words (length bytes)
        else memory_cost (calculate_words (length bytes)))
unfolding expand
charged n bytes hn hb = ground (
  arith,
  grown_cost n bytes,
  words_mono (length bytes) n,
  words_lt n hn,
  raw_cost_lem (calculate_words (length bytes)) (calculate_words n),
)

-- Growing a memory to a size below 2 ^ 35 bytes resizes it, keeps its cells and charges what the
-- Yellow Paper charges, C(new) - C(old), and three gas more for every word that was there before.
-- A size that the memory has already costs nothing and changes nothing.
pub expand_cost :
    (new_size : ℕ) (bytes : Bytes)
    → new_size < 2 ^ 35
    → length bytes < 2 ^ 35
    → let (cost, bytes') = expand new_size bytes in
      let old_words = calculate_words (length bytes) in
      (length bytes' ≡ max (length bytes) new_size)
      × ((i : ℕ) → cell bytes' i ≡ cell bytes i)
      × (cost + memory_cost old_words ≡ (
          if ltb (length bytes) new_size
          then memory_cost (calculate_words new_size) + 3 * old_words
          else memory_cost old_words))
expand_cost new_size bytes hn hb =
    (length-expand new_size bytes, cell-expand new_size bytes, charged new_size bytes hn hb)

-- ===== src/Evm/Memory/Tests.antt =====
-- The memory's theorems at concrete memories.
use quids_evm_cpp.Base.{
  ℕ, ◌-◌, ◌≡◌, refl, ◌&&◌, [], ◌∷◌, arith, Bytes, u64_mod, returned, undefined, leb, ltb,
  if◌then◌else◌, length,
}
use quids_evm_cpp.Evm.Memory.{calculate_expansion_cost, expand, store, store_byte, load}
use quids_evm_cpp.Evm.Memory.Cells.{cell, store_writes}

abbrev four : Bytes
four = 1 ∷ 2 ∷ 0 ∷ 0 ∷ []

store_past_the_end : store 5 (7 ∷ 8 ∷ []) four ≡ returned (1 ∷ 2 ∷ 0 ∷ 0 ∷ 0 ∷ 7 ∷ 8 ∷ [])
unfolding store
store_past_the_end = refl

load_past_the_end : load 1 5 four ≡ 2 ∷ 0 ∷ 0 ∷ 0 ∷ 0 ∷ []
unfolding load
load_past_the_end = refl

-- One word costs 3; from one word to two the charge is 6, not 3.
expand_twice : ((expand 32 []).0 ≡ 3) × ((expand 64 (expand 32 []).1).0 ≡ 6)
unfolding expand calculate_expansion_cost
expand_twice = (refl, refl)

store_byte_at_the_end : store_byte (u64_mod - 1) 9 four ≡ undefined
unfolding store_byte
store_byte_at_the_end = refl

store_writes_example :
    (bytes' : Bytes) × (store 3 (7 ∷ 8 ∷ []) four ≡ returned bytes')
    × ((i : ℕ)
        → cell bytes' i ≡ (if leb 3 i && ltb i 5 then cell (7 ∷ 8 ∷ []) (i - 3) else cell four i))
    × (length bytes' ≡ 5)
store_writes_example = store_writes 3 (7 ∷ 8 ∷ []) four (omega arith)

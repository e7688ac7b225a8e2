-- ===== src/Evm/Memory/Cells.antt =====
-- What a store writes and a load reads, cell by cell.
use native.Mathlib.Nat.{mod-eq_of_lt}
use Prim.Native.Nat.{max}
use quids_evm_cpp.Base.{
  ◌⊎◌, empty, min, ◌&&◌, ℕ, suc, ◌+◌, ◌-◌, ◌%◌, ◌≤◌, ◌<◌, ◌≡◌, refl, [], ◌∷◌, ◌++◌, arith, Bytes,
  u64_mod, returned, undefined, ltb, leb, if◌then◌else◌, length, get_or, take, drop, replicate,
  length-append, length-take, length-drop, length-replicate, get_or-append, get_or-take,
  get_or-drop, get_or-replicate, get_or-past,
}
use quids_evm_cpp.Evm.Memory.{resize, write_at, ensure_capacity, store, load}

-- Cell `i` of a memory; past its end every cell is zero.
abbrev pub cell : Bytes → ℕ → ℕ
cell bytes i = get_or bytes i 0

pub length-resize : (n : ℕ) (bytes : Bytes) → length bytes ≤ n → length (resize n bytes) ≡ n
length-resize n bytes h = omega (
  arith,
  length-append (take n bytes) (replicate (n - length bytes) 0),
  length-take n bytes,
  length-replicate {A = ℕ} (n - length bytes) 0,
)

pub cell-resize :
    (n : ℕ) (bytes : Bytes) (i : ℕ) → length bytes ≤ n → cell (resize n bytes) i ≡ cell bytes i
cell-resize n bytes i h = ground (
  arith,
  get_or-append (take n bytes) (replicate (n - length bytes) 0) i 0,
  length-take n bytes,
  get_or-take n bytes i 0,
  get_or-replicate {A = ℕ} (n - length bytes) 0 (i - length (take n bytes)),
  get_or-past bytes i 0,
)

pub length-write_at :
    (offset : ℕ) (source bytes : Bytes)
    → offset + length source ≤ length bytes
    → length (write_at offset source bytes) ≡ length bytes
length-write_at offset source bytes h = omega (
  arith,
  length-append (take offset bytes) (source ++ drop (offset + length source) bytes),
  length-append source (drop (offset + length source) bytes),
  length-take offset bytes,
  length-drop (offset + length source) bytes,
)

pub cell-write_at :
    (offset : ℕ) (source bytes : Bytes) (i : ℕ)
    → offset + length source ≤ length bytes
    → cell (write_at offset source bytes) i ≡ (
        if ltb i offset
        then cell bytes i
        else if ltb i (offset + length source)
        then cell source (i - offset)
        else cell bytes i)
cell-write_at offset source bytes i h = ground (
  arith,
  get_or-append (take offset bytes) (source ++ drop (offset + length source) bytes) i 0,
  get_or-append source (drop (offset + length source) bytes) (i - length (take offset bytes)) 0,
  length-take offset bytes,
  get_or-take offset bytes i 0,
  get_or-drop (offset + length source) bytes (i - offset - length source) 0,
)

-- Where the end of the range is a size_t, the memory grows to hold it and keeps its cells.
pub length-ensure_capacity :
    (offset size : ℕ) (bytes : Bytes)
    → offset + size < u64_mod
    → length (ensure_capacity offset size bytes) ≡ max (length bytes) (offset + size)
unfolding ensure_capacity
length-ensure_capacity offset size bytes h =
    ground (arith, length-resize (offset + size) bytes, mod-eq_of_lt h)

pub cell-ensure_capacity :
    (offset size : ℕ) (bytes : Bytes) (i : ℕ)
    → cell (ensure_capacity offset size bytes) i ≡ cell bytes i
unfolding ensure_capacity
cell-ensure_capacity offset size bytes i =
    ground (arith, cell-resize ((offset + size) % u64_mod) bytes i)

-- The memory after a store that does not wrap.
stored : ℕ → Bytes → Bytes → Bytes
stored offset source bytes =
    if empty source
    then bytes
    else write_at offset source (ensure_capacity offset (length source) bytes)

store-stored :
    (offset : ℕ) (source bytes : Bytes)
    → offset + length source < u64_mod
    → store offset source bytes ≡ returned (stored offset source bytes)
unfolding store stored
store-stored offset [] bytes h = refl
store-stored offset (b ∷ source) bytes h =
    ground (arith, length-ensure_capacity offset (length (b ∷ source)) bytes h)

cell-stored :
    (offset : ℕ) (source bytes : Bytes) (i : ℕ)
    → offset + length source < u64_mod
    → cell (stored offset source bytes) i ≡ (
        if leb offset i && ltb i (offset + length source)
        then cell source (i - offset)
        else cell bytes i)
unfolding stored
cell-stored offset [] bytes i h = ground arith
cell-stored offset (b ∷ source) bytes i h = ground (
  arith,
  length-ensure_capacity offset (length (b ∷ source)) bytes h,
  cell-ensure_capacity offset (length (b ∷ source)) bytes i,
  cell-write_at offset (b ∷ source) (ensure_capacity offset (length (b ∷ source)) bytes) i,
)

length-stored :
    (offset : ℕ) (source bytes : Bytes)
    → offset + length source < u64_mod
    → length (stored offset source bytes)
      ≡ (if empty source then length bytes else max (length bytes) (offset + length source))
unfolding stored
length-stored offset [] bytes h = refl
length-stored offset (b ∷ source) bytes h = ground (
  arith,
  length-ensure_capacity offset (length (b ∷ source)) bytes h,
  length-write_at offset (b ∷ source) (ensure_capacity offset (length (b ∷ source)) bytes),
)

-- A store whose range ends below 2 ^ 64 succeeds. The cells of the range then hold the stored
-- bytes and all others what they held; the memory is as long as before, or reaches just to the
-- end of the range if that is further and something was stored.
pub store_writes :
    (offset : ℕ) (source bytes : Bytes)
    → offset + length source < u64_mod
    → (bytes' : Bytes) × (store offset source bytes ≡ returned bytes')
      × ((i : ℕ)
          → cell bytes' i ≡ (
              if leb offset i && ltb i (offset + length source)
              then cell source (i - offset)
              else cell bytes i))
      × (length bytes'
          ≡ (if empty source then length bytes else max (length bytes) (offset + length source)))
store_writes offset source bytes h = (
  stored offset source bytes,
  store-stored offset source bytes h,
  λ i. cell-stored offset source bytes i h,
  length-stored offset source bytes h,
)

-- A store whose range ends at 2 ^ 64 or beyond computes a capacity that has wrapped, and writes
-- outside the vector.
pub store_wraps :
    (offset : ℕ) (source bytes : Bytes)
    → length bytes < u64_mod
    → length source < u64_mod
    → offset < u64_mod
    → u64_mod ≤ offset + length source
    → store offset source bytes ≡ undefined
unfolding store ensure_capacity
store_wraps offset [] bytes hb hs ho h = absurd (omega arith)
store_wraps offset (b ∷ source) bytes hb hs ho h =
    ground (arith, length-resize ((offset + length (b ∷ source)) % u64_mod) bytes)

pub length-load : (offset size : ℕ) (bytes : Bytes) → length (load offset size bytes) ≡ size
unfolding load
length-load offset size bytes = ground (
  arith,
  length-replicate {A = ℕ} size 0,
  length-drop offset bytes,
  length-take (min size (length bytes - offset)) (drop offset bytes),
  length-write_at 0 (take (min size (length bytes - offset)) (drop offset bytes))
      (replicate size 0),
)

pub cell-load :
    (offset size : ℕ) (bytes : Bytes) (i : ℕ)
    → cell (load offset size bytes) i ≡ (if ltb i size then cell bytes (offset + i) else 0)
unfolding load
cell-load offset size bytes i = ground (
  arith,
  length-replicate {A = ℕ} size 0,
  length-drop offset bytes,
  length-take (min size (length bytes - offset)) (drop offset bytes),
  get_or-take (min size (length bytes - offset)) (drop offset bytes) i 0,
  get_or-drop offset bytes i 0,
  get_or-replicate {A = ℕ} size 0 i,
  get_or-past bytes (offset + i) 0,
  cell-write_at 0 (take (min size (length bytes - offset)) (drop offset bytes)) (replicate size 0)
      i,
)

-- A load has the length that was asked for. It holds the cells from the offset on, where a cell
-- past the end of the memory is zero.
pub load_reads :
    (offset size : ℕ) (bytes : Bytes)
    → (length (load offset size bytes) ≡ size)
      × ((i : ℕ)
          → cell (load offset size bytes) i ≡ (if ltb i size then cell bytes (offset + i) else 0))
load_reads offset size bytes = (length-load offset size bytes, cell-load offset size bytes)

-- Two memories of one length with the same cells are one.
cells_ext : (xs ys : Bytes) → length xs ≡ length ys → ((i : ℕ) → cell xs i ≡ cell ys i) → xs ≡ ys
cells_ext [] [] e h = refl
cells_ext [] (y ∷ ys) e h = absurd (omega arith)
cells_ext (x ∷ xs) [] e h = absurd (omega arith)
cells_ext (x ∷ xs) (y ∷ ys) e h = cc (h 0, cells_ext xs ys (omega arith) (λ i. h (suc i)))

-- A load of the range just stored gives the stored bytes, and a load of a range that does not
-- meet it gives what it gave before.
pub load-store :
    (offset : ℕ) (source bytes : Bytes)
    → offset + length source < u64_mod
    → (bytes' : Bytes) × (store offset source bytes ≡ returned bytes')
      × (load offset (length source) bytes' ≡ source)
      × ((at size : ℕ)
          → (at + size ≤ offset) ⊎ (offset + length source ≤ at)
          → load at size bytes' ≡ load at size bytes)
load-store offset source bytes h = (bytes', store-stored offset source bytes h, same, other)
  where
    bytes' : Bytes
    bytes' = stored offset source bytes

    same : load offset (length source) bytes' ≡ source
    same = cells_ext _ _ (length-load offset (length source) bytes') λ i. ground (
      arith,
      cell-load offset (length source) bytes' i,
      cell-stored offset source bytes (offset + i) h,
      get_or-past source i 0,
    )

    other :
        (at size : ℕ)
        → (at + size ≤ offset) ⊎ (offset + length source ≤ at)
        → load at size bytes' ≡ load at size bytes
    other at size apart =
        cells_ext _ _ (omega (arith, length-load at size bytes', length-load at size bytes)) λ i.
          ground (
            arith,
            cell-load at size bytes' i,
            cell-load at size bytes i,
            cell-stored offset source bytes (at + i) h,
          )

-- ===== src/Rollup/StateManager/Decoding/Offsets.antt =====
-- Reading at an offset, where the bytes behind it are known.
use quids_evm_cpp.Base.{
  ℕ, ◌+◌, ◌%◌, ◌≤◌, ◌<◌, ◌≡◌, refl, ap, ◌∙◌, false, ◌++◌, Bytes, u64_mod, list_eq, nat_eq, ltb, leb,
  length, take, drop, length-append, drop-add, drop_front, take_front, arith,
}
use mathlib.Core.List.{append_assoc}
use quids_evm_cpp.Base.Encoding.{le_bytes, le_value, length-le_bytes, le_value-le_bytes}
use quids_evm_cpp.Rollup.StateManager.Accounts.{sized}
use quids_evm_cpp.Rollup.StateManager.Decoding.{
  Parsed, parsed, ◌>>=◌, guarded, u64_at, copy_range, read_sized,
}

-- Behind the offset stand the bytes of `rest`, and nothing else.
abbrev pub IsAt : Bytes → ℕ → Bytes → Type 0
IsAt bytes offset rest = (drop offset bytes ≡ rest) × (length bytes ≡ offset + length rest)

pub IsAt-front :
    (bytes front rest : Bytes) (offset n : ℕ)
    → length front ≡ n
    → IsAt bytes offset (front ++ rest)
    → IsAt bytes (offset + n) rest
IsAt-front bytes front rest offset n h (at, size) = (
  drop-add offset n bytes ∙ (ap (drop n) at ∙ drop_front n front rest h),
  omega (arith, size, h, length-append front rest),
)

-- A number that fits eight bytes is read where it stands.
pub read_u64 :
    (bytes rest : Bytes) (offset x : ℕ)
    → x < u64_mod
    → IsAt bytes offset (le_bytes 8 x ++ rest)
    → u64_at bytes offset ≡ x
read_u64 bytes rest offset x h (at, size) =
    ap (λ b. le_value (take 8 b)) at
    ∙ (ap le_value (take_front 8 (le_bytes 8 x) rest (length-le_bytes 8 x))
        ∙ le_value-le_bytes 8 x h)

-- A check that is passed
pub guard_lem :
    {A : Type 0} (bytes : Bytes) (offset n : ℕ) (rest : Parsed A)
    → offset + n ≤ length bytes
    → length bytes < u64_mod
    → guarded bytes offset n rest ≡ rest
guard_lem bytes offset n rest room fits =
    let passes : ltb (length bytes) ((offset + n) % u64_mod) ≡ false = ground arith in
    rw passes refl

pub copied :
    (bytes b rest : Bytes) (offset : ℕ)
    → offset + length b < u64_mod
    → IsAt bytes offset (b ++ rest)
    → copy_range bytes offset (length b) ≡ parsed b
copied bytes b rest offset room (at, size) =
    let fits : leb u64_mod (offset + length b) ≡ false = ground (arith, room) in
    rw fits (ap parsed (ap (take (length b)) at ∙ take_front (length b) b rest refl))

pub length-sized : (b : Bytes) → length (sized b) ≡ 8 + length b
length-sized b =
    omega (arith, length-append (le_bytes 8 (length b)) b, length-le_bytes 8 (length b))

pub read_sized-sized :
    (bytes b rest : Bytes) (offset : ℕ)
    → length bytes < u64_mod
    → IsAt bytes offset (sized b ++ rest)
    → (read_sized bytes offset ≡ parsed (b, offset + 8 + length b))
      × IsAt bytes (offset + 8 + length b) rest
unfolding read_sized
read_sized-sized bytes b rest offset fits at =
    let inside : length bytes ≡ offset + (8 + length b + length rest) =
      omega (arith, at.1, length-append (sized b) rest, length-sized b) in
    let split : IsAt bytes offset (le_bytes 8 (length b) ++ (b ++ rest)) = (
      at.0 ∙ append_assoc (le_bytes 8 (length b)) b rest,
      omega (
        arith,
        inside,
        length-append (le_bytes 8 (length b)) (b ++ rest),
        length-append b rest,
        length-le_bytes 8 (length b),
      ),
    ) in
    let behind : IsAt bytes (offset + 8) (b ++ rest) =
      IsAt-front bytes (le_bytes 8 (length b)) (b ++ rest) offset 8 (length-le_bytes 8 (length b))
        split in
    let size : u64_at bytes offset ≡ length b =
      read_u64 bytes (b ++ rest) offset (length b) (omega (arith, inside, fits)) split in
    let range : copy_range bytes (offset + 8) (length b) ≡ parsed b =
      copied bytes b rest (offset + 8) (omega (arith, inside, fits)) behind in
    (
      guard_lem bytes offset 8
            (let n = u64_at bytes offset in
              guarded bytes (offset + 8) n
                (copy_range bytes (offset + 8) n >>= λ r. parsed (r, offset + 8 + n)))
            (omega (arith, inside)) fits
          ∙ (ap
                (λ n.
                  guarded bytes (offset + 8) n
                    (copy_range bytes (offset + 8) n >>= λ r. parsed (r, offset + 8 + n)))
                size
              ∙ (guard_lem bytes (offset + 8) (length b)
                    (copy_range bytes (offset + 8) (length b) >>= λ r.
                      parsed (r, offset + 8 + length b))
                    (omega (arith, inside)) fits
                  ∙ ap (λ r. r >>= λ r. parsed (r, offset + 8 + length b)) range)),
      IsAt-front bytes b rest (offset + 8) (length b) refl behind,
    )

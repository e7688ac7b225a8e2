-- ===== src/Base/Encoding.antt =====
-- An integer's bytes as memcpy and reinterpret_cast show them on a little-endian host.
use Prim.Native.Nat.{ℕ, zero, suc, ◌+◌, ◌*◌, ◌/◌, ◌%◌, ◌^◌, ◌<◌}
use mathlib.Core.Path.{◌≡◌, refl, ap, ◌∙◌}
use mathlib.Core.List.{List, [], ◌∷◌}
use native.Mathlib.Nat.{pow-succ'}
use native.Mathlib.Omega.{arith}
use quids_evm_cpp.Base.Lists.{length, take, drop}

-- Every element is a byte.
abbrev pub AreBytes : List ℕ → Type 0
AreBytes [] = Unit
AreBytes (b ∷ bs) = (b < 256) × AreBytes bs

-- The `n` lowest bytes of a number, the lowest first.
abbrev pub le_bytes : ℕ → ℕ → List ℕ
le_bytes zero x = []
le_bytes (suc n) x = (x % 256) ∷ le_bytes n (x / 256)

abbrev pub le_value : List ℕ → ℕ
le_value [] = 0
le_value (b ∷ bs) = b + 256 * le_value bs

pub length-le_bytes : (n x : ℕ) → length (le_bytes n x) ≡ n
length-le_bytes zero x = refl
length-le_bytes (suc n) x = omega (arith, length-le_bytes n (x / 256))

-- A number that fits is read back.
pub le_value-le_bytes : (n x : ℕ) → x < 256 ^ n → le_value (le_bytes n x) ≡ x
le_value-le_bytes zero x h = omega arith
le_value-le_bytes (suc n) x h =
    let h' : x < 256 * 256 ^ n = rw (pow-succ' 256 n) at h in
    omega (arith, le_value-le_bytes n (x / 256) (omega arith))

pub take-AreBytes : (n : ℕ) (bs : List ℕ) → AreBytes bs → AreBytes (take n bs)
take-AreBytes zero bs h = tt
take-AreBytes (suc n) [] h = tt
take-AreBytes (suc n) (b ∷ bs) (hb, h) = (hb, take-AreBytes n bs h)

pub drop-AreBytes : (n : ℕ) (bs : List ℕ) → AreBytes bs → AreBytes (drop n bs)
drop-AreBytes zero bs h = h
drop-AreBytes (suc n) [] h = h
drop-AreBytes (suc n) (b ∷ bs) (hb, h) = drop-AreBytes n bs h

-- Bytes are those of the number that they make.
pub le_bytes-le_value : (bs : List ℕ) → AreBytes bs → le_bytes (length bs) (le_value bs) ≡ bs
le_bytes-le_value [] h = refl
le_bytes-le_value (b ∷ bs) (hb, h) =
    ap (λ n. n ∷ le_bytes (length bs) ((b + 256 * le_value bs) / 256))
      {x = (b + 256 * le_value bs) % 256} {y = b} (omega (arith, hb))
    ∙ (ap (λ n. b ∷ le_bytes (length bs) n) {x = (b + 256 * le_value bs) / 256} {y = le_value bs}
          (omega (arith, hb))
        ∙ ap (λ r. b ∷ r) (le_bytes-le_value bs h))

pub le_value-lt : (bs : List ℕ) → AreBytes bs → le_value bs < 256 ^ length bs
le_value-lt [] h = omega arith
le_value-lt (b ∷ bs) (hb, h) = rw (pow-succ' 256 (length bs)) (omega (arith, hb, le_value-lt bs h))

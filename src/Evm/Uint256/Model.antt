-- ===== src/Evm/Uint256/Model.antt =====
-- The 256-bit integers as numbers below 2 ^ 256, which shows that what is asked of Boost can hold.
use Prim.Native.Nat.{bit_or, digits, bit_or-bitwise, max}
use mathlib.Core.HLevel.{Σ_prop_path}
use native.Mathlib.Bridge.{le_prop}
use native.Mathlib.Nat.{pow-succ'}
use quids_evm_cpp.Base.{
  ℕ, zero, suc, ◌+◌, ◌*◌, ◌/◌, ◌%◌, ◌^◌, ◌≤◌, ◌<◌, ◌≡◌, ◌↔◌, refl, ap, ◌∙◌, true, arith, u64_mod,
  ◌==◌, ==_iff,
}
use quids_evm_cpp.Evm.Uint256.{Uint256, word_mod}

-- The operation on bits, digit by digit.
or_digits : ℕ → ℕ → ℕ → ℕ
or_digits fuel a b = digits (λ b. b) max fuel a b

or_digits_fuel : (m n a b : ℕ) → a ≤ m → a ≤ n → or_digits m a b ≡ or_digits n a b
unfolding or_digits
or_digits_fuel zero zero a b p q = refl
or_digits_fuel zero (suc n) zero b p q = refl
or_digits_fuel zero (suc n) (suc a) b p q = absurd (omega arith)
or_digits_fuel (suc m) zero zero b p q = refl
or_digits_fuel (suc m) zero (suc a) b p q = absurd (omega arith)
or_digits_fuel (suc m) (suc n) zero b p q = refl
or_digits_fuel (suc m) (suc n) (suc a) b p q =
    omega (arith, or_digits_fuel m n (suc a / 2) (b / 2) (omega arith) (omega arith))

bit_or_last : (a b : ℕ) → bit_or a b ≡ bit_or (a / 2) (b / 2) * 2 + max (a % 2) (b % 2)
unfolding or_digits
bit_or_last zero b = omega (arith, bit_or-bitwise 0 b, bit_or-bitwise 0 (b / 2))
bit_or_last (suc a) b = omega (
  arith,
  bit_or-bitwise (suc a) b,
  bit_or-bitwise (suc a / 2) (b / 2),
  or_digits_fuel a (suc a / 2) (suc a / 2) (b / 2) (omega arith) (omega arith),
)

bit_or_nothing : (fuel a : ℕ) → a ≤ fuel → bit_or a 0 ≡ a
bit_or_nothing fuel zero h = refl
bit_or_nothing zero (suc a) h = absurd (omega arith)
bit_or_nothing (suc fuel) (suc a) h =
    omega (arith, bit_or_last (suc a) 0, bit_or_nothing fuel (suc a / 2) (omega arith))

halves : (r p : ℕ) → r < 2 * p → r / 2 < p
halves r p h = omega arith

-- A number whose `k` lowest bits are clear, or-ed with one of `k` bits.
bit_or_low : (k q r : ℕ) → r < 2 ^ k → bit_or (q * 2 ^ k) r ≡ q * 2 ^ k + r
bit_or_low zero q r h =
    let q' : q * 1 ≡ q = omega arith in
    let r' : r ≡ 0 = omega arith in rw (q', r') (bit_or_nothing q q (omega arith) ∙ omega arith)
bit_or_low (suc k) q r h =
    let double : q * 2 ^ suc k ≡ 2 * (q * 2 ^ k) = ap (λ p. q * p) (pow-succ' 2 k) ∙ omega arith in
    let half : (2 * (q * 2 ^ k)) / 2 ≡ q * 2 ^ k = omega arith in
    let even : (2 * (q * 2 ^ k)) % 2 ≡ 0 = omega arith in
    let fits : r / 2 < 2 ^ k = halves r (2 ^ k) (rw (pow-succ' 2 k) at h) in
    rw (double, bit_or_last, half, even, bit_or_low k q (r / 2) fits) (omega arith)

abbrev pub Word256 : Type 0
Word256 = (n : ℕ) × (n < word_mod)

pub wrap-lt : (n : ℕ) → n % word_mod < word_mod
wrap-lt n = omega arith

abbrev pub wrap : ℕ → Word256
wrap n = (n % word_mod, wrap-lt n)

pub Word256_beq_iff : (a b : Word256) → ((a.0 == b.0) ≡ true) ↔ (a ≡ b)
Word256_beq_iff a b = (
  λ h. Σ_prop_path (λ n. le_prop) ((==_iff a.0 b.0).0 h),
  λ e. (==_iff a.0 b.0).1 (ap (λ (w : Word256). w.0) e),
)

pub wrap_small : (n : ℕ) → n < u64_mod → (wrap n).0 ≡ n
wrap_small n h = omega arith

pub wrap_bit_or :
    (a b : Word256) → a.0 % 256 ≡ 0 → b.0 < 256 → (wrap (bit_or a.0 b.0)).0 ≡ a.0 + b.0
wrap_bit_or (a, ha) (b, hb) low small =
    let shape : a ≡ a / 256 * 2 ^ 8 = omega arith in
    let joined : bit_or (a / 256 * 2 ^ 8) b ≡ a / 256 * 2 ^ 8 + b =
      bit_or_low 8 (a / 256) b small in
    let joined' : bit_or a b ≡ a + b = rw (← shape) at joined in omega arith

-- The model.
abbrev pub uint256 : Uint256
uint256 = record {
  Word = Word256;
  eq = record { beq = λ a b. a.0 == b.0; beq_iff = Word256_beq_iff };
  value = λ w. w.0;
  of_u64 = wrap;
  shl8 = λ w. wrap (w.0 * 256);
  bit_or = λ a b. wrap (bit_or a.0 b.0);
  value-lt = λ w. w.1;
  value-of_u64 = wrap_small;
  value-shl8 = λ w. refl;
  value-bit_or = wrap_bit_or;
}

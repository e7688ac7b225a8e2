-- ===== src/Evm/Uint256.antt =====
-- The 256-bit integers of include/evm/uint256.hpp come from Boost (`boost::multiprecision`), which
-- the repository does not hold. This is the part of their documented behaviour that the machine uses.
pub mod Model
use quids_evm_cpp.Base.{ℕ, ◌+◌, ◌*◌, ◌%◌, ◌^◌, ◌<◌, ◌≡◌, Eq, nat_eq, u64_mod}

abbrev pub word_mod : ℕ
word_mod = 2 ^ 256

pub record Uint256 : Type 1 where
  pub Word : Type 0
  pub eq : Eq Word
  pub value : Word → ℕ
  pub of_u64 : ℕ → Word
  -- `w << 8` and `a | b`
  pub shl8 : Word → Word
  pub bit_or : Word → Word → Word
  pub value-lt : (w : Word) → value w < word_mod
  pub value-of_u64 : (n : ℕ) → n < u64_mod → value (of_u64 n) ≡ n
  pub value-shl8 : (w : Word) → value (shl8 w) ≡ (value w * 256) % word_mod
  -- Where no bit is set in both, the union of the bits is the sum.
  pub value-bit_or :
      (a b : Word) → value a % 256 ≡ 0 → value b < 256 → value (bit_or a b) ≡ value a + value b

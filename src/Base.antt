-- ===== src/Base.antt =====
-- Names that every module shares: the library's, passed on, and those of the children.
mod Tests
mod Equality
mod Lists
pub mod Dict
pub mod Encoding
pub mod Totals
pub use Tests.*
pub use Equality.*
pub use Lists.*
pub use Encoding.{AreBytes}
pub use Prim.Native.Nat.{ℕ, zero, suc, ◌+◌, ◌-◌, ◌*◌, ◌/◌, ◌%◌, ◌^◌, ◌≤◌, ◌<◌, min}
pub use mathlib.Core.Path.{◌≡◌, refl, sym, ap, subst, ◌∙◌}
pub use mathlib.Core.Logic.{◌≢◌, ◌↔◌, ◌⊎◌, inl, inr}
pub use mathlib.Core.Bool.{Bool, true, false, not, ◌&&◌, ◌||◌}
pub use mathlib.Core.Option.{Option, none, some}
pub use mathlib.Core.List.{List, [], ◌∷◌, ◌++◌, map}
pub use native.Mathlib.Omega.{arith}

-- A std::vector<uint8_t>, or a std::string, which is a sequence of bytes.
abbrev pub Bytes : Type 0
Bytes = List ℕ

-- The modulus of uint64_t and of size_t.
abbrev pub u64_mod : ℕ
u64_mod = 2 ^ 64

-- What a C++ call does: it returns, it throws, or it leaves defined behaviour.
pub data Outcome {ℓ} (E : Type 0) (A : Type ℓ) : Type ℓ where
  returned : A → Outcome E A
  thrown : E → Outcome E A
  undefined : Outcome E A

-- ===== src/Base/Totals.antt =====
-- The sum over a map's numbers, under a write.
use Prim.Native.Nat.{ℕ, ◌+◌, ◌≤◌}
use mathlib.Core.Path.{◌≡◌}
use mathlib.Core.Option.{none, some}
use mathlib.Core.List.{[], ◌∷◌}
use native.Mathlib.Omega.{arith}
use quids_evm_cpp.Base.Equality.{Eq}
use quids_evm_cpp.Base.Dict.{Dict, find, insert}

module _ {K V : Type 0} ⦃e : Eq K⦄ (amount : V → ℕ) where
  abbrev pub total : Dict K V → ℕ
  total [] = 0
  total ((k, v) ∷ m) = amount v + total m

  -- What the key counts for.
  abbrev pub counted : K → Dict K V → ℕ
  counted k m = elim (find k m) [ none ↦ 0 | some v ↦ amount v ]

  pub counted-le-total : (k : K) (m : Dict K V) → counted k m ≤ total m
  counted-le-total k [] = omega arith
  counted-le-total k ((j, v) ∷ m) = ground (arith, counted-le-total k m)

  -- A write replaces what the key counted for.
  pub total-insert :
      (k : K) (v : V) (m : Dict K V) → total (insert k v m) + counted k m ≡ total m + amount v
  total-insert k v [] = omega arith
  total-insert k v ((j, w) ∷ m) = ground (arith, total-insert k v m)

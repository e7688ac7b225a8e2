-- ===== src/Base/Dict.antt =====
-- std::map and std::unordered_map as association lists: the program reads them by key. Where it
-- iterates over one, the order of the entries is that of the iteration.
use Prim.Native.Nat.{◌+◌}
use mathlib.Core.Path.{◌≡◌, refl}
use mathlib.Core.Bool.{Bool, true, false}
use mathlib.Core.Option.{Option, none, some}
use mathlib.Core.List.{List, [], ◌∷◌}
use native.Mathlib.Omega.{arith}
use quids_evm_cpp.Base.Tests.{if◌then◌else◌}
use quids_evm_cpp.Base.Equality.{Eq}
use quids_evm_cpp.Base.Lists.{length}

abbrev pub Dict {ℓ κ} : Type ℓ → Type κ → Type (ℓ ⊔ κ)
Dict K V = List (K × V)

module _ {ℓ κ} {K : Type ℓ} {V : Type κ} ⦃e : Eq K⦄ where
  -- `find(k)`, where `none` is `end()`
  abbrev pub find : K → Dict K V → Option V
  find k [] = none
  find k ((j, v) ∷ m) = if e.beq j k then some v else find k m

  abbrev pub contains : K → Dict K V → Bool
  contains k m = elim (find k m) [ none ↦ false | some _ ↦ true ]

  -- `m[k] = v`
  abbrev pub insert : K → V → Dict K V → Dict K V
  insert k v [] = (k, v) ∷ []
  insert k v ((j, w) ∷ m) = if e.beq j k then (k, v) ∷ m else (j, w) ∷ insert k v m

  -- `m.erase(k)`
  abbrev pub erase : K → Dict K V → Dict K V
  erase k [] = []
  erase k ((j, w) ∷ m) = let rest = erase k m in if e.beq j k then rest else (j, w) ∷ rest

  pub find-insert :
      (j k : K) (v : V) (m : Dict K V)
      → find j (insert k v m) ≡ (if e.beq k j then some v else find j m)
  find-insert j k v [] = refl
  find-insert j k v ((i, w) ∷ m) =
      ground (arith, e.beq_iff i k, e.beq_iff k j, e.beq_iff i j, find-insert j k v m)

  pub find-insert_self : (k : K) (v : V) (m : Dict K V) → find k (insert k v m) ≡ some v
  find-insert_self k v m = ground (arith, find-insert k k v m, e.beq_iff k k)

  pub find-erase :
      (j k : K) (m : Dict K V) → find j (erase k m) ≡ (if e.beq k j then none else find j m)
  find-erase j k [] = ground arith
  find-erase j k ((i, w) ∷ m) =
      ground (arith, e.beq_iff i k, e.beq_iff k j, e.beq_iff i j, find-erase j k m)

  -- A write to a new key adds one entry, to an old one none.
  pub length-insert :
      (k : K) (v : V) (m : Dict K V)
      → length (insert k v m) ≡ (if contains k m then length m else length m + 1)
  length-insert k v [] = refl
  length-insert k v ((i, w) ∷ m) = ground (arith, length-insert k v m)

  erase_absent : (k : K) (m : Dict K V) → find k m ≡ none → erase k m ≡ m
  erase_absent k [] h = refl
  erase_absent k ((j, w) ∷ m) h = ground (arith, h, erase_absent k m)

  -- A new entry is the only one with its key.
  pub erase-insert : (k : K) (v : V) (m : Dict K V) → find k m ≡ none → erase k (insert k v m) ≡ m
  erase-insert k v [] h = ground (arith, e.beq_iff k k)
  erase-insert k v ((j, w) ∷ m) h =
      ground (arith, h, e.beq_iff k k, erase_absent k m, erase-insert k v m)

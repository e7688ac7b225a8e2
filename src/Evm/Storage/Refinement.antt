-- ===== src/Evm/Storage/Refinement.antt =====
-- What a storage promises: it is a partial function from an address and a key to a word.
mod Tests
use mathlib.Core.Path.{fun_ext}
use quids_evm_cpp.Base.{
  ap, ◌∙◌, not, ℕ, ◌+◌, ◌≡◌, refl, Bool, true, false, ◌&&◌, Option, none, some, List, [], ◌∷◌, Eq,
  arith, if◌then◌else◌, length,
}
use quids_evm_cpp.Base.Dict.{find, insert, find-insert, find-erase, length-insert}
use quids_evm_cpp.Evm.Address.{Address}
use quids_evm_cpp.Evm.Address.Order.{address_eq, equivalent, equivalent_iff}
use quids_evm_cpp.Evm.Storage.{Words, entry, store, load, clear_account, contains, size, clear}

-- The calls that change a storage.
pub data Call (Word : Type 0) : Type 0 where
  stores : Address → Word → Word → Call Word
  clears_account : Address → Call Word
  clears_all : Call Word

-- The specification's state.
abbrev pub Cells : Type 0 → Type 0
Cells Word = Address → Word → Option Word

module _ {Word : Type 0} ⦃e : Eq Word⦄ where
  abbrev pub spec_step : Cells Word → Call Word → Cells Word
  spec_step cells (stores a k v) b j = if equivalent a b && e.beq k j then some v else cells b j
  spec_step cells (clears_account a) b j = if equivalent a b then none else cells b j
  spec_step cells clears_all b j = none

  abbrev pub spec_run : Cells Word → List (Call Word) → Cells Word
  spec_run cells [] = cells
  spec_run cells (c ∷ cs) = spec_run (spec_step cells c) cs

  abbrev step : Words Word → Call Word → Words Word
  step storage (stores a k v) = store a k v storage
  step storage (clears_account a) = clear_account a storage
  step storage clears_all = clear storage

  unfoldable pub run : Words Word → List (Call Word) → Words Word
  run storage [] = storage
  run storage (c ∷ cs) = run (step storage c) cs

  -- What the storage holds at an address and a key.
  pub held : Words Word → Cells Word
  held storage a k = find k (entry a storage)

  step-held :
      (storage : Words Word) (c : Call Word) (b : Address) (j : Word)
      → held (step storage c) b j ≡ spec_step (held storage) c b j
  unfolding held store clear_account
  step-held storage (stores a k v) b j = ground (
    arith,
    find-insert b a (insert k v (entry a storage)) storage,
    find-insert j k v (entry a storage),
    equivalent_iff a b,
  )
  step-held storage (clears_account a) b j = ground (arith, find-erase b a storage)
  step-held storage clears_all b j = refl

  held-run :
      (storage : Words Word) (cs : List (Call Word))
      → held (run storage cs) ≡ spec_run (held storage) cs
  unfolding run
  held-run storage [] = refl
  held-run storage (c ∷ cs) =
      held-run (step storage c) cs
      ∙ ap (λ cells. spec_run cells cs) (fun_ext λ b. fun_ext λ j. step-held storage c b j)

  load-held :
      (default : Word) (storage : Words Word) (b : Address) (j : Word)
      → load default b j storage ≡ (elim (held storage b j) [ none ↦ default | some value ↦ value ])
  unfolding load held
  load-held default storage b j = ground arith

  contains-held :
      (storage : Words Word) (b : Address) (j : Word)
      → contains b j storage ≡ (elim (held storage b j) [ none ↦ false | some _ ↦ true ])
  unfolding contains held
  contains-held storage b j = ground arith

  -- After any history of calls on a storage, a load reads what the specification says is at that
  -- address and key, or the zero word where it says nothing, and `contains` tells the two apart.
  pub run_refines :
      (default : Word) (storage : Words Word) (cs : List (Call Word)) (b : Address) (j : Word)
      → let cell = spec_run (held storage) cs b j in
        (load default b j (run storage cs) ≡ (elim cell [ none ↦ default | some value ↦ value ]))
        × (contains b j (run storage cs) ≡ (elim cell [ none ↦ false | some _ ↦ true ]))
  run_refines default storage cs b j =
      let e : held (run storage cs) b j ≡ spec_run (held storage) cs b j =
        ap (λ cells. cells b j) (held-run storage cs) in
      (
        rw (← e) (load-held default (run storage cs) b j),
        rw (← e) (contains-held (run storage cs) b j),
      )

  -- A store adds one to the size of its own address if the key was not there, and leaves the size
  -- of every other address alone; clearing an address takes its size to 0 and leaves the others.
  pub size_changes :
      (storage : Words Word) (a b : Address) (k v : Word)
      → (size b (store a k v storage) ≡ (
          if equivalent a b && not (contains a k storage)
          then size b storage + 1
          else size b storage))
        × (size b (clear_account a storage) ≡ (if equivalent a b then 0 else size b storage))
  unfolding size store contains clear_account
  size_changes storage a b k v = (
    ground (
      arith,
      find-insert b a (insert k v (entry a storage)) storage,
      length-insert k v (entry a storage),
      equivalent_iff a b,
    ),
    ground (arith, find-erase b a storage),
  )

  -- A load after a store.
  pub load-store :
      (default : Word) (a b : Address) (k j v : Word) (storage : Words Word)
      → load default b j (store a k v storage)
        ≡ (if equivalent a b && e.beq k j then v else load default b j storage)
  unfolding load store
  load-store default a b k j v storage = ground (
    arith,
    find-insert b a (insert k v (entry a storage)) storage,
    find-insert j k v (entry a storage),
    equivalent_iff a b,
  )

-- ===== src/Rollup/ParallelProcessor/Batches.antt =====
-- The batches of createIndependentBatches.
use mathlib.Core.List.Perm
use mathlib.Core.List.{Perm, perm_middle, append_assoc}
use quids_evm_cpp.Base.{
  ◌≡◌, refl, ap, subst, Bool, true, false, Bool-cases, inl, inr, List, [], ◌∷◌, ◌++◌, list_eq,
  nat_eq, length, replicate, arith,
}
use quids_evm_cpp.Blockchain.Transaction.{Transaction}
use quids_evm_cpp.Rollup.ParallelProcessor.{
  has_dependency, depends, fill_batch, split_batches, create_independent_batches,
}

-- No transaction of the list depends on this one.
abbrev pub IsFree : Transaction → List Transaction → Type 0
IsFree tx [] = Unit
IsFree tx (a ∷ batch) = (has_dependency tx a ≡ false) × IsFree tx batch

-- No two transactions depend on one another.
abbrev pub IsIndependent : List Transaction → Type 0
IsIndependent [] = Unit
IsIndependent (tx ∷ batch) = IsFree tx batch × IsIndependent batch

abbrev pub AreIndependent : List (List Transaction) → Type 0
AreIndependent [] = Unit
AreIndependent (batch ∷ batches) = IsIndependent batch × AreIndependent batches

-- A transaction more at the end
IsFree-append :
    (a tx : Transaction) (batch : List Transaction)
    → IsFree a batch
    → has_dependency a tx ≡ false
    → IsFree a (batch ++ (tx ∷ []))
IsFree-append a tx [] h free = (free, tt)
IsFree-append a tx (b ∷ batch) (hb, h) free = (hb, IsFree-append a tx batch h free)

IsIndependent-append :
    (batch : List Transaction) (tx : Transaction)
    → IsIndependent batch
    → depends batch tx ≡ false
    → IsIndependent (batch ++ (tx ∷ []))
unfolding depends
IsIndependent-append [] tx h free = (tt, tt)
IsIndependent-append (a ∷ batch) tx (ha, h) free = (
  IsFree-append a tx batch ha (ground (arith, free)),
  IsIndependent-append batch tx h (ground (arith, free)),
)

fill_batch-IsIndependent :
    (batch transactions : List Transaction) (assigned : List Bool)
    → IsIndependent batch
    → IsIndependent (fill_batch batch transactions assigned).0
unfolding fill_batch
fill_batch-IsIndependent batch [] assigned h = h
fill_batch-IsIndependent batch (tx ∷ transactions) [] h = h
fill_batch-IsIndependent batch (tx ∷ transactions) (true ∷ assigned) h =
    fill_batch-IsIndependent batch transactions assigned h
fill_batch-IsIndependent batch (tx ∷ transactions) (false ∷ assigned) h =
    elim (Bool-cases (depends batch tx)) [
      | inl bound ↦ rw bound (fill_batch-IsIndependent batch transactions assigned h)
      | inr free ↦ rw free (
          fill_batch-IsIndependent (batch ++ (tx ∷ [])) transactions assigned
            (IsIndependent-append batch tx h free))
    ]

split_batches-AreIndependent :
    (transactions : List Transaction) (assigned : List Bool)
    → AreIndependent (split_batches transactions assigned)
unfolding split_batches
split_batches-AreIndependent [] assigned = tt
split_batches-AreIndependent (tx ∷ transactions) [] = tt
split_batches-AreIndependent (tx ∷ transactions) (true ∷ assigned) =
    split_batches-AreIndependent transactions assigned
split_batches-AreIndependent (tx ∷ transactions) (false ∷ assigned) = (
  fill_batch-IsIndependent (tx ∷ []) transactions assigned (tt, tt),
  split_batches-AreIndependent transactions (fill_batch (tx ∷ []) transactions assigned).1,
)

-- The transactions whose flag is not set
abbrev unassigned : List Transaction → List Bool → List Transaction
unassigned [] assigned = []
unassigned (tx ∷ transactions) [] = []
unassigned (tx ∷ transactions) (true ∷ assigned) = unassigned transactions assigned
unassigned (tx ∷ transactions) (false ∷ assigned) = tx ∷ unassigned transactions assigned

abbrev pub joined : List (List Transaction) → List Transaction
joined [] = []
joined (batch ∷ batches) = batch ++ joined batches

-- A batch takes what it flags.
fill_batch-Perm :
    (batch transactions : List Transaction) (assigned : List Bool)
    → let (filled, after) = fill_batch batch transactions assigned in
      Perm (filled ++ unassigned transactions after) (batch ++ unassigned transactions assigned)
unfolding fill_batch
fill_batch-Perm batch [] assigned = Perm.rfl
fill_batch-Perm batch (tx ∷ transactions) [] = Perm.rfl
fill_batch-Perm batch (tx ∷ transactions) (true ∷ assigned) =
    fill_batch-Perm batch transactions assigned
fill_batch-Perm batch (tx ∷ transactions) (false ∷ assigned) =
    let others : List Transaction = unassigned transactions assigned in
    elim (Bool-cases (depends batch tx)) [
      | inl bound ↦
          let r = fill_batch batch transactions assigned in
          rw bound (
            Perm.trans (perm_middle r.0 (unassigned transactions r.1)) (
              Perm.trans (Perm.cons tx (fill_batch-Perm batch transactions assigned))
                (Perm.symm (perm_middle batch others))))
      | inr free ↦ rw free (
          subst
            (λ l.
              Perm
                ((fill_batch (batch ++ (tx ∷ [])) transactions assigned).0
                  ++ unassigned transactions
                      (fill_batch (batch ++ (tx ∷ [])) transactions assigned).1)
                l)
            (append_assoc batch (tx ∷ []) others)
            (fill_batch-Perm (batch ++ (tx ∷ [])) transactions assigned))
    ]

split_batches-Perm :
    (transactions : List Transaction) (assigned : List Bool)
    → Perm (joined (split_batches transactions assigned)) (unassigned transactions assigned)
unfolding split_batches
split_batches-Perm [] assigned = Perm.rfl
split_batches-Perm (tx ∷ transactions) [] = Perm.rfl
split_batches-Perm (tx ∷ transactions) (true ∷ assigned) = split_batches-Perm transactions assigned
split_batches-Perm (tx ∷ transactions) (false ∷ assigned) =
    let r = fill_batch (tx ∷ []) transactions assigned in
    Perm.trans (Perm.append_left r.0 (split_batches-Perm transactions r.1))
      (fill_batch-Perm (tx ∷ []) transactions assigned)

none_assigned :
    (transactions : List Transaction)
    → unassigned transactions (replicate (length transactions) false) ≡ transactions
none_assigned [] = refl
none_assigned (tx ∷ transactions) = ap (◌∷◌ tx) (none_assigned transactions)

-- The batches that createIndependentBatches makes of any transactions are together a permutation of
-- them, and in none of them does a transaction depend on a later one of the same batch.
pub create_independent_batches-AreIndependent :
    (transactions : List Transaction)
    → AreIndependent (create_independent_batches transactions)
      × Perm (joined (create_independent_batches transactions)) transactions
unfolding create_independent_batches
create_independent_batches-AreIndependent transactions =
    let flags : List Bool = replicate (length transactions) false in
    (
      split_batches-AreIndependent transactions flags,
      subst (λ l. Perm (joined (split_batches transactions flags)) l) (none_assigned transactions)
          (split_batches-Perm transactions flags),
    )

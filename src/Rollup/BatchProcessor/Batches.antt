-- ===== src/Rollup/BatchProcessor/Batches.antt =====
-- The size and the order of the batches, under any interleaving of the threads.
use quids_evm_cpp.Base.{
  ℕ, suc, ◌-◌, ◌≤◌, ◌≡◌, refl, sym, ap, subst, ◌∙◌, true, false, Bool-cases, inl, inr, List, [],
  ◌∷◌, ◌++◌, length, take-nil, drop-nil, length-take, take, drop, take-append-drop, ltb, arith,
}
use mathlib.Core.List.{append_assoc, append-nil}
use quids_evm_cpp.Blockchain.Transaction.{Transaction}
use quids_evm_cpp.Rollup.BatchProcessor.{
  BatchConfig, BatchProcessor, new_processor, submit_transaction, stop, fill_batch, create_batch,
  submits, takes, stops, Run, here, next,
}

pub fill_batch_lem :
    (m n : ℕ) (pending : List Transaction)
    → fill_batch m n pending ≡ (take (m - n) pending, drop (m - n) pending)
unfolding fill_batch
fill_batch_lem m n [] =
    rw (take-nil {A = Transaction} (m - n), drop-nil {A = Transaction} (m - n)) refl
fill_batch_lem m n (tx ∷ pending) = elim (Bool-cases (ltb n m)) [
  | inl more ↦
      let e : m - n ≡ suc (m - suc n) = ground (arith, more) in
      rw (more, fill_batch_lem m (suc n) pending, e) refl
  | inr full ↦ let e : m - n ≡ 0 = ground (arith, full) in rw (full, e) refl
]

-- A batch of a processor that runs: the oldest transactions, as many as are allowed.
create_from :
    (p : BatchProcessor) (pending : List Transaction)
    → p.should_stop ≡ false
    → p.pending_transactions ≡ pending
    → create_batch p ≡ (
      take p.config.max_batch_size pending,
      record p { pending_transactions = drop p.config.max_batch_size pending },
    )
unfolding create_batch
create_from p [] h at =
    let m : ℕ = p.config.max_batch_size in
    rw (h, at, take-nil {A = Transaction} m, drop-nil {A = Transaction} m) refl
create_from p (tx ∷ pending) h at =
    let m : ℕ = p.config.max_batch_size in
    let filled : fill_batch m 0 (tx ∷ pending) ≡ (take m (tx ∷ pending), drop m (tx ∷ pending)) =
      fill_batch_lem m 0 (tx ∷ pending)
      ∙ ap (λ k. (take k (tx ∷ pending), drop k (tx ∷ pending))) {x = m - 0} {y = m}
          (omega arith) in
    rw (h, at, filled) refl

pub create_batch_lem :
    (p : BatchProcessor)
    → p.should_stop ≡ false
    → create_batch p ≡ (
      take p.config.max_batch_size p.pending_transactions,
      record p { pending_transactions = drop p.config.max_batch_size p.pending_transactions },
    )
create_batch_lem p h = create_from p p.pending_transactions h refl

pub create_batch_stopped : (p : BatchProcessor) → p.should_stop ≡ true → create_batch p ≡ ([], p)
unfolding create_batch
create_batch_stopped p h = rw h refl

-- A batch and what it leaves are the queue, and the batch is not larger than allowed.
taken_queue :
    (p : BatchProcessor) (batch : List Transaction) (p' : BatchProcessor)
    → create_batch p ≡ (batch, p')
    → (p.pending_transactions ≡ batch ++ p'.pending_transactions)
      × (length batch ≤ p.config.max_batch_size)
taken_queue p batch p' taken =
    let split : (p.pending_transactions
          ≡ (create_batch p).0 ++ (create_batch p).1.pending_transactions)
        × (length (create_batch p).0 ≤ p.config.max_batch_size) =
      elim (Bool-cases p.should_stop) [
        | inl stopped ↦ rw (create_batch_stopped p stopped) (refl, omega arith)
        | inr runs ↦
            let m : ℕ = p.config.max_batch_size in
            rw (create_batch_lem p runs) (
              sym (take-append-drop m p.pending_transactions),
              omega (arith, length-take m p.pending_transactions),
            )
      ] in
    subst
      (λ r.
        (p.pending_transactions ≡ r.0 ++ r.1.pending_transactions)
        × (length r.0 ≤ p.config.max_batch_size))
      taken split

-- In any run of the threads from a new processor, the transactions submitted are, in order, those
-- of the batches taken, in the order in which they were taken, followed by those that still wait:
-- none is lost in the queue, taken twice or overtaken there.
pub Run-fifo :
    {config : BatchConfig} {submitted batched : List Transaction} {p : BatchProcessor}
    → Run (new_processor config) submitted batched p
    → submitted ≡ batched ++ p.pending_transactions
unfolding submit_transaction stop
Run-fifo here = refl
Run-fifo (next {submitted} {batched} r (submits p tx)) =
    ap (λ l. l ++ (tx ∷ [])) (Run-fifo r)
    ∙ (append_assoc batched p.pending_transactions (tx ∷ [])
        ∙ ap (λ l. l ++ (p.pending_transactions ++ (tx ∷ []))) (sym (append-nil batched)))
Run-fifo (next {submitted} {batched} {batch} r (takes {p} {p'} taken)) =
    append-nil submitted
    ∙ (Run-fifo r
        ∙ (ap (λ l. batched ++ l) (taken_queue p batch p' taken).0
            ∙ sym (append_assoc batched batch p'.pending_transactions)))
Run-fifo (next {submitted} {batched} r (stops p)) =
    append-nil submitted
    ∙ (Run-fifo r ∙ ap (λ l. l ++ p.pending_transactions) (sym (append-nil batched)))

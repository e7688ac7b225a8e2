-- ===== src/Rollup/BatchProcessor/Delivery.antt =====
-- What a worker does with the queue in the end.
use quids_evm_cpp.Base.{
  ℕ, zero, suc, ◌*◌, ◌≤◌, ◌≡◌, ◌⊎◌, refl, sym, ap, ◌∙◌, Bool, true, false, Bool-cases, inl, inr,
  List, [], ◌∷◌, ◌++◌, Outcome, returned, thrown, undefined, length, length-drop, take, drop,
  take-append-drop, empty, if◌then◌else◌, arith,
}
use native.Mathlib.Nat.{suc-mul}
use quids_evm_cpp.Blockchain.Transaction.{Transaction}
use quids_evm_cpp.Rollup.StateManager.{◌>>=◌}
use quids_evm_cpp.Rollup.BatchProcessor.{
  BatchProcessor, apply_batch, process_batch, process_batches,
}
use quids_evm_cpp.Rollup.BatchProcessor.Batches.{create_batch_lem}

-- The laws of the results
bind_assoc :
    {A B C : Type 0} (r : Outcome ⊥ A) (f : A → Outcome ⊥ B) (g : B → Outcome ⊥ C)
    → (r >>= f >>= g) ≡ (r >>= λ a. f a >>= g)
bind_assoc (returned a) f g = refl
bind_assoc (thrown e) f g = elim e [ ]
bind_assoc undefined f g = refl

bind_cong :
    {A B : Type 0} (r : Outcome ⊥ A) (f g : A → Outcome ⊥ B)
    → ((a : A) → f a ≡ g a)
    → (r >>= f) ≡ (r >>= g)
bind_cong (returned a) f g h = h a
bind_cong (thrown e) f g h = elim e [ ]
bind_cong undefined f g h = refl

-- The processor without the transactions of a batch, and without any
abbrev pub left_of : BatchProcessor → BatchProcessor
left_of p = record p { pending_transactions = drop p.config.max_batch_size p.pending_transactions }

abbrev pub emptied : BatchProcessor → BatchProcessor
emptied p = record p { pending_transactions = [] }

module _ {S : Type 0} (apply_transaction : Transaction → S → Outcome ⊥ (Bool × S)) where
  apply_batch-append :
      (xs ys : List Transaction) (s : S)
      → apply_batch apply_transaction (xs ++ ys) s
        ≡ (apply_batch apply_transaction xs s >>= apply_batch apply_transaction ys)
  unfolding apply_batch
  apply_batch-append [] ys s = refl
  apply_batch-append (tx ∷ xs) ys s =
      let run : Outcome ⊥ (Bool × S) = apply_transaction tx s in
      bind_cong run (λ r. apply_batch apply_transaction (xs ++ ys) r.1)
        (λ r. apply_batch apply_transaction xs r.1 >>= apply_batch apply_transaction ys)
        (λ r. apply_batch-append xs ys r.1)
      ∙ sym (
          bind_assoc run (λ r. apply_batch apply_transaction xs r.1)
            (apply_batch apply_transaction ys))

  -- `process_batch` after it has its batch
  abbrev process_taken : S → List Transaction × BatchProcessor → Outcome ⊥ (BatchProcessor × S)
  process_taken s (batch, p) =
      if empty batch
      then returned (p, s)
      else do s' ← apply_batch apply_transaction batch s; returned (p, s')

  process_taken_lem :
      (batch : List Transaction) (p : BatchProcessor) (s : S)
      → process_taken s (batch, p)
        ≡ (apply_batch apply_transaction batch s >>= λ s'. returned (p, s'))
  unfolding apply_batch
  process_taken_lem [] p s = refl
  process_taken_lem (tx ∷ batch) p s = refl

  -- One round of a worker while the processor runs
  process_batch_lem :
      (p : BatchProcessor) (s : S)
      → p.should_stop ≡ false
      → process_batch apply_transaction p s ≡ (
          apply_batch apply_transaction (take p.config.max_batch_size p.pending_transactions) s
          >>= λ s'. returned (left_of p, s'))
  unfolding process_batch
  process_batch_lem p s h =
      ap (process_taken s) (create_batch_lem p h)
      ∙ process_taken_lem (take p.config.max_batch_size p.pending_transactions) (left_of p) s

  drained :
      (p : BatchProcessor) (pending : List Transaction) (s : S)
      → p.pending_transactions ≡ pending
      → length pending ≤ 0
      → ◌≡◌ {A = Outcome ⊥ (BatchProcessor × S)}
          (returned (p, s))
          (apply_batch apply_transaction pending s >>= λ s'. returned (emptied p, s'))
  unfolding apply_batch
  drained p [] s at h = ap (λ l. returned (record p { pending_transactions = l }, s)) at
  drained p (tx ∷ pending) s at h = absurd (omega (arith, h))

  -- A worker's loop, while it runs and where it is stopped
  abbrev and_on : ℕ → BatchProcessor × S → Outcome ⊥ (BatchProcessor × S)
  and_on rounds (p, s) = process_batches apply_transaction rounds p s

  round_lem :
      (rounds : ℕ) (p : BatchProcessor) (s : S)
      → process_batches apply_transaction (suc rounds) p s ≡ (
          if p.should_stop
          then returned (p, s)
          else process_batch apply_transaction p s >>= and_on rounds)
  unfolding process_batches
  round_lem rounds p s = refl

  runs_on :
      (rounds : ℕ) (p : BatchProcessor) (s : S)
      → p.should_stop ≡ false
      → process_batches apply_transaction (suc rounds) p s
        ≡ (process_batch apply_transaction p s >>= and_on rounds)
  runs_on rounds p s h =
      let on : Outcome ⊥ (BatchProcessor × S) =
        process_batch apply_transaction p s >>= and_on rounds in
      let out : Outcome ⊥ (BatchProcessor × S) = returned (p, s) in
      round_lem rounds p s ∙ ap (λ b. if b then out else on) h

  -- For any state manager: a worker that finds the processor running, with room for at least one transaction in a batch
  -- and rounds enough for all that wait, does what applying them one after another, in the order
  -- of their submission, does, and leaves none.
  pub process_batches_drains :
      (rounds : ℕ) (p : BatchProcessor) (s : S)
      → p.should_stop ≡ false
      → length p.pending_transactions ≤ rounds * p.config.max_batch_size
      → process_batches apply_transaction rounds p s ≡ (
          apply_batch apply_transaction p.pending_transactions s >>= λ s'. returned (emptied p, s'))
  unfolding process_batches
  process_batches_drains zero p s h room =
      drained p p.pending_transactions s refl (omega (arith, room))
  process_batches_drains (suc rounds) p s h room =
      let m : ℕ = p.config.max_batch_size in
      let pending : List Transaction = p.pending_transactions in
      let fewer : length (drop m pending) ≤ rounds * m =
        omega (arith, length-drop m pending, room, suc-mul rounds m) in
      let rest : S → Outcome ⊥ S = apply_batch apply_transaction (drop m pending) in
      let finish : S → Outcome ⊥ (BatchProcessor × S) = λ s'. returned (emptied p, s') in
      let front : Outcome ⊥ S = apply_batch apply_transaction (take m pending) s in
      runs_on rounds p s h
      ∙ (ap (λ r. r >>= and_on rounds) (process_batch_lem p s h)
          ∙ (bind_assoc front (λ s'. returned (left_of p, s')) (and_on rounds)
              ∙ (bind_cong front (λ s'. process_batches apply_transaction rounds (left_of p) s')
                    (λ s'. rest s' >>= finish)
                    (λ s'. process_batches_drains rounds (left_of p) s' h fewer)
                  ∙ (sym (bind_assoc front rest finish)
                      ∙ ap (λ r. r >>= finish)
                          (sym (apply_batch-append (take m pending) (drop m pending) s)
                            ∙ ap (λ l. apply_batch apply_transaction l s)
                                (take-append-drop m pending))))))

  no_room :
      (p : BatchProcessor) (s : S)
      → p.config.max_batch_size ≡ 0
      → ◌≡◌ {A = Outcome ⊥ (BatchProcessor × S)}
          (apply_batch apply_transaction (take p.config.max_batch_size p.pending_transactions) s
            >>= λ s'. returned (left_of p, s'))
          (returned (p, s))
  unfolding apply_batch
  no_room p s h =
      ap
        (λ m. apply_batch apply_transaction (take m p.pending_transactions) s >>= λ s'.
          returned (record p { pending_transactions = drop m p.pending_transactions }, s'))
        h

  -- A worker that finds the processor stopped, or batches of no transaction at most, leaves the
  -- queue and the state as they are, however many rounds it has.
  pub process_batches_idle :
      (rounds : ℕ) (p : BatchProcessor) (s : S)
      → (p.should_stop ≡ true) ⊎ (p.config.max_batch_size ≡ 0)
      → process_batches apply_transaction rounds p s ≡ returned (p, s)
  unfolding process_batches
  process_batches_idle zero p s h = refl
  process_batches_idle (suc rounds) p s h = elim (Bool-cases p.should_stop) [
    | inl stopped ↦
        let on : Outcome ⊥ (BatchProcessor × S) =
          process_batch apply_transaction p s >>= and_on rounds in
        let out : Outcome ⊥ (BatchProcessor × S) = returned (p, s) in
        round_lem rounds p s ∙ ap (λ b. if b then out else on) stopped
    | inr runs ↦ elim h [
      | inl stopped ↦ absurd cc
      | inr none_fits ↦
          runs_on rounds p s runs
          ∙ (ap (λ r. r >>= and_on rounds) (process_batch_lem p s runs ∙ no_room p s none_fits)
              ∙ process_batches_idle rounds p s (inr none_fits))
    ]
  ]

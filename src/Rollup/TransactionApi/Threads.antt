-- ===== src/Rollup/TransactionApi/Threads.antt =====
-- How far the queue grows where threads submit at once.
use quids_evm_cpp.Base.{
  ℕ, zero, suc, ◌+◌, ◌≤◌, ◌<◌, ◌≡◌, ◌⊎◌, inl, inr, refl, sym, ap, subst, ◌∙◌, true, false, some,
  List, [], ◌∷◌, ◌++◌, empty, length, length-set, get_elem?, set, arith,
}
use quids_evm_cpp.Blockchain.Transaction.{Transaction}
use quids_evm_cpp.Rollup.TransactionApi.{
  TransactionBatch, max_queue_size, new_batch, new_api, Phase, idle, checking, System, Step, begins,
  checks, refuses, pushes, pops, switches, Reach, here, next,
}
use quids_evm_cpp.Rollup.TransactionApi.Submissions.{validate_transaction_lem}

-- The batches that have a transaction
abbrev pub filled : List TransactionBatch → ℕ
filled [] = 0
filled (b ∷ queue) = elim (empty b.transactions) [
  | true ↦ filled queue
  | false ↦ suc (filled queue)
]

-- A thread that is about to push such a batch counts for it.
abbrev pub weight : Phase → ℕ
weight idle = 0
weight (checking (tx ∷ rest) batch) = 0
weight (checking [] batch) = elim (empty batch) [ true ↦ 0 | false ↦ 1 ]

abbrev pub about_to_push : List Phase → ℕ
about_to_push [] = 0
about_to_push (t ∷ threads) = weight t + about_to_push threads

weight-le : (t : Phase) → weight t ≤ 1
weight-le idle = omega arith
weight-le (checking (tx ∷ rest) batch) = omega arith
weight-le (checking [] batch) = ground arith

about_to_push-le : (threads : List Phase) → about_to_push threads ≤ length threads
about_to_push-le [] = omega arith
about_to_push-le (t ∷ threads) = omega (arith, weight-le t, about_to_push-le threads)

about_to_push-set :
    (threads : List Phase) (i : ℕ) (old new : Phase)
    → get_elem? threads i ≡ some old
    → about_to_push (set threads i new) + weight old ≡ about_to_push threads + weight new
about_to_push-set [] i old new h = absurd cc
about_to_push-set (t ∷ threads) zero old new h = let e : t ≡ old = cc in omega (arith, ap weight e)
about_to_push-set (t ∷ threads) (suc i) old new h =
    omega (arith, about_to_push-set threads i old new h)

filled-append :
    (queue : List TransactionBatch) (b : TransactionBatch)
    → filled (queue ++ (b ∷ [])) ≡ filled queue + weight (checking [] b.transactions)
filled-append [] b = ground arith
filled-append (c ∷ queue) b = ground (arith, filled-append queue b)

filled-le : (queue : List TransactionBatch) → filled queue ≤ length queue
filled-le [] = omega arith
filled-le (b ∷ queue) = ground (arith, filled-le queue)

-- The invariant, for a number of threads
abbrev pub IsBounded : ℕ → System → Type 0
IsBounded threads s =
    (length s.threads ≡ threads)
    × (filled s.api.batch_queue + about_to_push s.threads ≤ 999 + threads)

filled_tail :
    (b : TransactionBatch) (queue : List TransactionBatch) → filled queue ≤ filled (b ∷ queue)
filled_tail b queue = ground arith

begun : (txs : List Transaction) → weight (checking txs txs) ≤ 0
begun [] = omega arith
begun (tx ∷ txs) = omega arith

-- A thread that changes its phase, where the queue stays as it is
phase_keeps :
    (n : ℕ) (s s' : System) (i : ℕ) (old new : Phase)
    → get_elem? s.threads i ≡ some old
    → s' ≡ record s { threads = set s.threads i new }
    → IsBounded n s
    → (weight new ≤ weight old) ⊎ (length s.api.batch_queue < max_queue_size)
    → IsBounded n s'
phase_keeps n s s' i old new at e (size, bound) h =
    let count = about_to_push-set s.threads i old new at in
    let many = about_to_push-le (set s.threads i new) in
    let same = length-set s.threads i new in
    let few = filled-le s.api.batch_queue in
    subst (IsBounded n) (sym e) (
      same ∙ size,
      elim h [
        | inl less ↦ omega (arith, count, bound, less)
        | inr room ↦ omega (arith, many, same, size, few, room)
      ],
    )

Step-IsBounded : (n : ℕ) (s s' : System) → Step s s' → IsBounded n s → IsBounded n s'
Step-IsBounded n s s' (begins i txs at e) b =
    phase_keeps n s s' i idle (checking txs txs) at e b (inl (begun txs))
Step-IsBounded n s s' (checks i tx rest batch at passes e) b =
    phase_keeps n s s' i (checking (tx ∷ rest) batch) (checking rest batch) at e b
      (inr ((validate_transaction_lem tx s.api).0 passes).1)
Step-IsBounded n s s' (refuses i tx rest batch at fails e) b =
    phase_keeps n s s' i (checking (tx ∷ rest) batch) idle at e b (inl (omega arith))
Step-IsBounded n s s' (pushes i now batch at e) (size, bound) =
    let count = about_to_push-set s.threads i (checking [] batch) idle at in
    let more = filled-append s.api.batch_queue (new_batch now batch) in
    subst (IsBounded n) (sym e)
      (length-set s.threads i idle ∙ size, omega (arith, count, more, bound))
Step-IsBounded n s s' (pops batch queue at e) (size, bound) =
    let fewer : filled queue ≤ filled s.api.batch_queue = rw at (filled_tail batch queue) in
    subst (IsBounded n) (sym e) (size, omega (arith, fewer, bound))
Step-IsBounded n s s' (switches should_stop e) b = subst (IsBounded n) (sym e) b

Reach-IsBounded : (n : ℕ) (s t : System) → Reach s t → IsBounded n s → IsBounded n t
Reach-IsBounded n s t here b = b
Reach-IsBounded n s t (next {t = u} r st) b = Step-IsBounded n u t st (Reach-IsBounded n s u r b)

-- In any interleaving of any number of threads that submit, from no batch at all and no thread in
-- the middle of a call, the batches that wait and have a transaction are never more than 999 and
-- one for each thread.
pub Reach-bounded :
    (threads : List Phase) (s : System)
    → about_to_push threads ≡ 0
    → Reach (record { api = new_api; threads = threads }) s
    → filled s.api.batch_queue ≤ 999 + length threads
Reach-bounded threads s none_yet reached =
    let (size, bound) =
      Reach-IsBounded (length threads) (record { api = new_api; threads = threads }) s reached
        (refl, omega (arith, none_yet)) in
    omega (arith, bound)

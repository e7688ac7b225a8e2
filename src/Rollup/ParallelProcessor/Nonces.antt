-- ===== src/Rollup/ParallelProcessor/Nonces.antt =====
-- What the nonces let through.
use quids_evm_cpp.Base.{
  ℕ, ◌+◌, ◌%◌, ◌≤◌, ◌<◌, ◌≡◌, refl, ap, ◌∙◌, Bool, true, false, ◌&&◌, List, [], ◌∷◌, ◌++◌, Bytes,
  u64_mod, list_eq, nat_eq, list_beq, list_beq_iff, ◌==◌, if◌then◌else◌, length, length-append,
  arith,
}
use quids_evm_cpp.Base.Dict.{find-insert}
use quids_evm_cpp.Blockchain.Transaction.{Transaction}
use quids_evm_cpp.Rollup.ParallelProcessor.{
  Processor, account_state, process_transaction, process_batch, submit_transaction, has_dependency,
}
use quids_evm_cpp.Rollup.ParallelProcessor.Batches.{IsFree, IsIndependent}

abbrev pub nonce_of : Bytes → Processor → ℕ
nonce_of address p = (account_state address p).nonce

-- The account's nonce is the transaction's.
abbrev pub ready : Processor → Transaction → Bool
ready p tx = tx.nonce == nonce_of tx.from p

process_transaction_lem :
    (a : Bytes) (tx : Transaction) (p : Processor)
    → ((process_transaction tx p).0 ≡ ready p tx)
      × (nonce_of a (process_transaction tx p).1 ≡ (
          if list_beq tx.from a && ready p tx then (nonce_of a p + 1) % u64_mod else nonce_of a p))
unfolding process_transaction
process_transaction_lem a tx p =
    let state = account_state tx.from p in
    ground (
      arith,
      find-insert a tx.from (record state { nonce = (state.nonce + 1) % u64_mod }) p.account_states,
      find-insert a tx.from
          (record state { pending_transactions = state.pending_transactions ++ (tx ∷ []) })
          p.account_states,
      find-insert a tx.from state p.account_states,
      list_beq_iff tx.from a,
    )

-- All of them are ready at once.
abbrev pub all_ready : Processor → List Transaction → Bool
all_ready p [] = true
all_ready p (tx ∷ batch) = ready p tx && all_ready p batch

-- A transaction leaves those that are free of it as ready as they were.
ready_free :
    (tx : Transaction) (p : Processor) (batch : List Transaction)
    → IsFree tx batch
    → all_ready (process_transaction tx p).1 batch ≡ all_ready p batch
unfolding has_dependency
ready_free tx p [] h = refl
ready_free tx p (b ∷ batch) (hb, h) =
    let (success, nonce) = process_transaction_lem b.from tx p in
    let other : list_beq tx.from b.from ≡ false = ground (arith, hb) in
    ground (arith, nonce, other, ready_free tx p batch h)

-- Independent transactions, processed one after another in any order, all succeed exactly if each
-- has the nonce that its sender's account has before the first of them.
pub process_batch-all_ready :
    (batch : List Transaction) (p : Processor)
    → IsIndependent batch
    → (process_batch batch p).0 ≡ all_ready p batch
unfolding process_batch
process_batch-all_ready [] p h = refl
process_batch-all_ready (tx ∷ batch) p (free, h) =
    let p' : Processor = (process_transaction tx p).1 in
    let later : (process_batch batch p').0 ≡ all_ready p batch =
      process_batch-all_ready batch p' h ∙ ready_free tx p batch free in
    ap (λ b. b && (process_batch batch p').0) (process_transaction_lem tx.from tx p).0
    ∙ ap (λ b. ready p tx && b) later

-- Nonces only grow, and by one for each transaction at most, where they do not wrap.
nonce-grows :
    (a : Bytes) (txs : List Transaction) (p : Processor)
    → nonce_of a p + length txs < u64_mod
    → (nonce_of a p ≤ nonce_of a (process_batch txs p).1)
      × (nonce_of a (process_batch txs p).1 ≤ nonce_of a p + length txs)
unfolding process_batch
nonce-grows a [] p h = (omega arith, omega arith)
nonce-grows a (tx ∷ txs) p h =
    let p' : Processor = (process_transaction tx p).1 in
    let step : (nonce_of a p ≤ nonce_of a p') × (nonce_of a p' ≤ nonce_of a p + 1) =
      ground (arith, (process_transaction_lem a tx p).1, h) in
    let (more, few) = nonce-grows a txs p' (omega (arith, step.1, h)) in
    (omega (arith, step.0, more), omega (arith, step.1, few))

-- A transaction that succeeded is refused when it comes again, whatever was processed in between,
-- as long as the nonce of its sender has not run through 2 ^ 64.
pub no_replay :
    (tx : Transaction) (txs : List Transaction) (p : Processor)
    → nonce_of tx.from p + length txs + 1 < u64_mod
    → (process_transaction tx p).0 ≡ true
    → (process_transaction tx (process_batch txs (process_transaction tx p).1).1).0 ≡ false
no_replay tx txs p room done =
    let p' : Processor = (process_transaction tx p).1 in
    let (success, nonce) = process_transaction_lem tx.from tx p in
    let was : tx.nonce ≡ nonce_of tx.from p = ground (arith, success, done) in
    let now : nonce_of tx.from p' ≡ nonce_of tx.from p + 1 =
      ground (arith, nonce, success, done, room, list_beq_iff tx.from tx.from) in
    let (more, few) = nonce-grows tx.from txs p' (omega (arith, now, room)) in
    (process_transaction_lem tx.from tx (process_batch txs p').1).0 ∙ ground (arith, was, now, more)

-- A submission leaves the queue within its bound.
submit_transaction-bounded :
    (tx : Transaction) (p : Processor)
    → length p.transaction_queue ≤ p.max_queue_size
    → length (submit_transaction tx p).1.transaction_queue ≤ p.max_queue_size
unfolding submit_transaction
submit_transaction-bounded tx p h = ground (arith, h, length-append p.transaction_queue (tx ∷ []))

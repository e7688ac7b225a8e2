-- ===== src/Rollup/TransactionApi/Submissions.antt =====
-- Which batches are taken in, and which are processed.
use quids_evm_cpp.Base.{
  ℕ, ◌<◌, ◌≡◌, ◌≢◌, ◌↔◌, ◌⊎◌, inl, inr, refl, sym, ap, map, length-append, ◌∙◌, Bool, true, false,
  Bool-cases, List, [], ◌∷◌, ◌++◌, empty, if◌then◌else◌, length, arith,
}
use quids_evm_cpp.Blockchain.Transaction.{Transaction}
use quids_evm_cpp.Rollup.TransactionApi.{
  TransactionBatch, RollupTransactionApi, max_queue_size, is_overloaded, validate_transaction,
  validate_transaction_with_message, validate_all, new_batch, push, submit_batch, process_batch,
  worker_thread,
}

-- What a transaction must have, whatever the queue
abbrev pub IsFormed : Transaction → Type 0
IsFormed tx =
    (empty tx.from ≡ false) × (empty tx.to ≡ false) × (tx.value ≢ 0) × (empty tx.signature ≡ false)

abbrev pub AreFormed : List Transaction → Type 0
AreFormed [] = Unit
AreFormed (tx ∷ txs) = IsFormed tx × AreFormed txs

pub validate_transaction_lem :
    (tx : Transaction) (api : RollupTransactionApi)
    → (validate_transaction tx api ≡ true)
      ↔ (IsFormed tx × (length api.batch_queue < max_queue_size))
unfolding validate_transaction validate_transaction_with_message is_overloaded
validate_transaction_lem tx api = ground arith

-- Room for a batch of some transactions; none need room.
abbrev pub HasRoom : List Transaction → RollupTransactionApi → Type 0
HasRoom txs api = (txs ≡ []) ⊎ (length api.batch_queue < max_queue_size)

validate_all_lem :
    (txs : List Transaction) (api : RollupTransactionApi)
    → (validate_all txs api ≡ true) ↔ (AreFormed txs × HasRoom txs api)
unfolding validate_all
validate_all_lem [] api = (λ h. (tt, inl refl), λ h. refl)
validate_all_lem (tx ∷ txs) api =
    let one = validate_transaction_lem tx api in
    let others = validate_all_lem txs api in
    elim (Bool-cases (validate_transaction tx api)) [
      | inl passes ↦ (
        λ h.
            let rest : validate_all txs api ≡ true = ground (arith, h, passes) in
            (((one.0 passes).0, (others.0 rest).0), inr (one.0 passes).1),
        λ (formed, room). rw passes (others.1 (formed.1, inr (one.0 passes).1)),
      )
      | inr fails ↦ (
        λ h. absurd (ground (arith, h, fails)),
        λ (formed, room). elim room [
          | inl none_there ↦ absurd cc
          | inr few ↦ absurd (ground (arith, fails, one.1 (formed.0, few)))
        ],
      )
    ]

answered :
    (b : Bool) (x y : RollupTransactionApi)
    → let r : Bool × RollupTransactionApi = if b then (true, x) else (false, y) in
      (r.0 ≡ b) × (r.1 ≡ (if r.0 then x else y))
answered true x y = (refl, refl)
answered false x y = (refl, refl)

-- submit_batch accepts exactly the lists whose transactions all have a sender, a recipient, an
-- amount and a signature, where fewer than 1000 batches wait or the list is empty; then the list is
-- the last batch of the queue, and otherwise nothing changes. process_batch answers by the same
-- test, of the queue as it is then.
pub submit_batch_iff :
    (now : ℕ) (txs : List Transaction) (api : RollupTransactionApi)
    → let (accepted, api') = submit_batch now txs api in
      ((accepted ≡ true) ↔ (AreFormed txs × HasRoom txs api))
      × (api' ≡ (if accepted then push (new_batch now txs) api else api))
      × ((process_batch (new_batch now txs) api ≡ true) ↔ (AreFormed txs × HasRoom txs api))
unfolding submit_batch process_batch
submit_batch_iff now txs api =
    let test = validate_all_lem txs api in
    let (same, left) = answered (validate_all txs api) (push (new_batch now txs) api) api in
    ((λ h. test.0 (sym same ∙ h), λ h. same ∙ test.1 h), left, test)

-- Where 999 batches wait, submit_batch accepts a list whose transactions have a sender, a recipient,
-- an amount and a signature, and from then on process_batch answers false for any batch that has a
-- transaction, also for one that was taken in before.
pub accepted_then_refused :
    (now : ℕ) (txs : List Transaction) (batch : TransactionBatch) (queue : List TransactionBatch)
    → AreFormed txs
    → batch.transactions ≢ []
    → length queue ≡ 999
    → let (accepted, api) =
        submit_batch now txs (record { batch_queue = queue; should_stop = false }) in
      (accepted ≡ true) × (process_batch batch api ≡ false)
unfolding process_batch
accepted_then_refused now txs batch queue formed some_there full =
    let before : RollupTransactionApi = record { batch_queue = queue; should_stop = false } in
    let (accepts, left, processes) = submit_batch_iff now txs before in
    let accepted : (submit_batch now txs before).0 ≡ true =
      accepts.1 (formed, inr (omega (arith, full))) in
    let pushed : (submit_batch now txs before).1 ≡ push (new_batch now txs) before =
      left ∙ rw accepted refl in
    let size : length (queue ++ (new_batch now txs ∷ [])) ≡ 1000 =
      omega (arith, length-append queue (new_batch now txs ∷ []), full) in
    (
      accepted,
      rw pushed
          (elim (Bool-cases (validate_all batch.transactions (push (new_batch now txs) before))) [
            | inr fails ↦ fails
            | inl passes ↦
                elim ((validate_all_lem batch.transactions (push (new_batch now txs) before)).0
                  passes).1 [
                    | inl none_there ↦ absurd (some_there none_there)
                    | inr few ↦ absurd (omega (arith, few, size))
                  ]
          ]),
    )

-- A worker that is alone takes every batch once, in order.
worker_thread_drains :
    (queue : List TransactionBatch)
    → (map (λ r. r.0) (worker_thread (length queue) queue).0 ≡ queue)
      × ((worker_thread (length queue) queue).1 ≡ [])
unfolding worker_thread
worker_thread_drains [] = (refl, refl)
worker_thread_drains (batch ∷ queue) =
    let (taken, left) = worker_thread_drains queue in (ap (◌∷◌ batch) taken, left)

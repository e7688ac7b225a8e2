-- ===== src/Rollup/StateManager/History.antt =====
-- The histories, the roots and the single writes.
use quids_evm_cpp.Base.{
  ℕ, zero, suc, ◌+◌, ◌-◌, ◌≤◌, ◌≡◌, refl, sym, ap, ◌∙◌, List, [], ◌∷◌, ◌++◌, Bytes, Outcome,
  returned, list_eq, nat_eq, list_beq, list_beq_iff, ltb, if◌then◌else◌, arith, inl, inr, length,
  length-append, drop, drop-add, length-drop, Bool-cases,
}
use mathlib.Core.List.{append_assoc, append-nil}
use quids_evm_cpp.Base.Dict.{find-insert}
use quids_evm_cpp.Blockchain.Transaction.{Transaction}
use quids_evm_cpp.Rollup.StateManager.{
  State, unlocked, may_lock, new_state, bounded_push, history_of, recorded, record_transaction,
  ◌>>=◌,
}
use quids_evm_cpp.Rollup.StateManager.Access.{get_account_history}

-- Calls of record_transaction, each with its account.
abbrev pub Records : Type 0
Records = List (Bytes × Transaction)

unfoldable pub record_all : Records → State → Outcome ⊥ State
record_all [] s = returned s
record_all ((address, tx) ∷ records) s =
    record_transaction unlocked address tx s >>= λ s'. record_all records s'

-- The transactions that are recorded for an account, in their order.
abbrev pub of_account : Bytes → Records → List Transaction
of_account address [] = []
of_account address ((owner, tx) ∷ records) =
    if list_beq owner address then tx ∷ of_account address records else of_account address records

-- The newest thousand.
abbrev pub newest : List Transaction → List Transaction
newest txs = drop (length txs - 1000) txs

drop-append :
    {A : Type 0} (n : ℕ) (xs ys : List A) → n ≤ length xs → drop n (xs ++ ys) ≡ drop n xs ++ ys
drop-append zero xs ys h = refl
drop-append (suc n) [] ys h = elim h [ ]
drop-append (suc n) (x ∷ xs) ys h = drop-append n xs ys (omega arith)

-- Adding to the newest thousand keeps the newest thousand.
bounded_push-newest :
    (tx : Transaction) (txs : List Transaction)
    → bounded_push tx (newest txs) ≡ newest (txs ++ (tx ∷ []))
unfolding bounded_push
bounded_push-newest tx txs =
    let excess = length txs - 1000 in
    let longer = txs ++ (tx ∷ []) in
    let joined : newest txs ++ (tx ∷ []) ≡ drop excess longer =
      sym (drop-append excess txs (tx ∷ []) (omega arith)) in
    let measured : length longer ≡ length txs + 1 = length-append txs (tx ∷ []) in
    let kept : length (drop excess longer) ≡ length txs + 1 - excess =
      omega (arith, length-drop excess longer, measured) in
    elim (Bool-cases (ltb 1000 (length (drop excess longer)))) [
      | inl over ↦
          ap (λ h. if ltb 1000 (length h) then drop 1 h else h) joined
          ∙ (rw over (sym (drop-add excess 1 longer))
              ∙ ap (λ n. drop n longer) {x = excess + 1} {y = length longer - 1000}
                  (ground (arith, over, kept, measured)))
      | inr under ↦
          ap (λ h. if ltb 1000 (length h) then drop 1 h else h) joined
          ∙ (rw under refl
              ∙ ap (λ n. drop n longer) {x = excess} {y = length longer - 1000}
                  (ground (arith, under, kept, measured)))
    ]

history_of-recorded :
    (owner a : Bytes) (tx : Transaction) (s : State)
    → history_of a (recorded owner tx s)
      ≡ (if list_beq owner a then bounded_push tx (history_of owner s) else history_of a s)
history_of-recorded owner a tx s =
    ground (arith, find-insert a owner (bounded_push tx (history_of owner s)) s.history)

-- What is recorded for an account by one call.
abbrev one_more : Bytes → Transaction → Bytes → List Transaction
one_more owner tx a = if list_beq owner a then tx ∷ [] else []

recorded-newest :
    (old : Bytes → List Transaction) (owner a : Bytes) (tx : Transaction) (s : State)
    → ((b : Bytes) → history_of b s ≡ newest (old b))
    → history_of a (recorded owner tx s) ≡ newest (old a ++ one_more owner tx a)
recorded-newest old owner a tx s h = elim (Bool-cases (list_beq owner a)) [
  | inl same ↦
      let eq : owner ≡ a = (list_beq_iff owner a).0 same in
      history_of-recorded owner a tx s
      ∙ (rw same (ap (bounded_push tx) (ap (λ b. history_of b s) eq ∙ h a))
          ∙ bounded_push-newest tx (old a)
          ∙ rw same refl)
  | inr other ↦
      history_of-recorded owner a tx s ∙ rw other (h a ∙ ap newest (sym (append-nil (old a))))
]

record_transaction_lem :
    (owner : Bytes) (tx : Transaction) (s : State)
    → record_transaction unlocked owner tx s ≡ returned (recorded owner tx s)
unfolding record_transaction may_lock
record_transaction_lem owner tx s = refl

of_account-next :
    (owner a : Bytes) (tx : Transaction) (txs : List Transaction) (records : Records)
    → (txs ++ one_more owner tx a) ++ of_account a records
      ≡ txs ++ of_account a ((owner, tx) ∷ records)
of_account-next owner a tx txs records = elim (Bool-cases (list_beq owner a)) [
  | inl same ↦ rw same (append_assoc txs (tx ∷ []) (of_account a records))
  | inr other ↦ rw other (ap (λ h. h ++ of_account a records) (append-nil txs))
]

history_lem : (a : Bytes) (s : State) → get_account_history unlocked a s ≡ returned (history_of a s)
unfolding get_account_history may_lock
history_lem a s = refl

run_records :
    (old : Bytes → List Transaction) (records : Records) (s : State)
    → ((b : Bytes) → history_of b s ≡ newest (old b))
    → (s' : State) × (record_all records s ≡ returned s')
      × ((b : Bytes) → history_of b s' ≡ newest (old b ++ of_account b records))
unfolding record_all
run_records old [] s h = (s, refl, λ b. h b ∙ ap newest (sym (append-nil (old b))))
run_records old ((owner, tx) ∷ records) s h =
    let (s', ran, kept) =
      run_records (λ b. old b ++ one_more owner tx b) records (recorded owner tx s)
        (λ b. recorded-newest old owner b tx s h) in
    (
      s',
      ap (λ r. r >>= λ next. record_all records next) (record_transaction_lem owner tx s) ∙ ran,
      λ b. kept b ∙ ap newest (of_account-next owner b tx (old b) records),
    )

-- From a new state, any calls of record_transaction return, and then get_account_history shows
-- for each address the newest thousand of the transactions recorded for it, in their order.
pub get_account_history-record_all :
    (blake3 : Bytes → Bytes) (records : Records)
    → (s' : State) × (record_all records (new_state blake3) ≡ returned s')
      × ((a : Bytes) → get_account_history unlocked a s' ≡ returned (newest (of_account a records)))
unfolding get_account_history may_lock
get_account_history-record_all blake3 records =
    let (s', ran, kept) = run_records (λ a. []) records (new_state blake3) (λ a. refl) in
    (s', ran, λ a. history_lem a s' ∙ ap returned (kept a))

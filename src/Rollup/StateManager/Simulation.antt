-- ===== src/Rollup/StateManager/Simulation.antt =====
-- The members of StateManager that lock its mutex once simulate the calls on a table.
use mathlib.Core.Path.{fun_ext}
use quids_evm_cpp.Base.{
  ◌≡◌, refl, ap, ◌∙◌, Bool, true, false, Option, Option-cases, none, some, inl, inr, List, [], ◌∷◌,
  Bytes, Outcome, returned, list_eq, nat_eq, list_beq, if◌then◌else◌,
}
use quids_evm_cpp.Base.Dict.{Dict, find, insert, find-insert}
use quids_evm_cpp.Rollup.StateManager.{State, may_lock}
use quids_evm_cpp.Rollup.StateManager.Accounts.{Account, address_to_hex}
use quids_evm_cpp.Rollup.StateManager.Access.{
  update, commit_state, rollback_state, add_account, get_balance, get_nonce, get_storage, get_code,
  set_balance, set_nonce, set_storage, set_code,
}
use quids_evm_cpp.Rollup.StateManager.Table.{
  Call, adds, sets_balance, sets_nonce, sets_storage, sets_code, asks_balance, asks_nonce,
  asks_storage, asks_code, commits, rolls_back, Answer, done, number, bytes, Entry, Table, put,
  entry, changed_found, number_of, program_of, bytes_or_none, cell_of, spec_step, spec_run, step,
  run,
}

abbrev pub seen : Option Account → Option Entry
seen none = none
seen (some account) = some (entry account)

-- What the accounts hold
abbrev pub view : State → Table
view s a = seen (find a s.accounts)

seen_if :
    (b : Bool) (x y : Option Account) → seen (if b then x else y) ≡ (if b then seen x else seen y)
seen_if true x y = refl
seen_if false x y = refl

view-insert :
    (a : Bytes) (account : Account) (s : State)
    → view (record s { accounts = insert a account s.accounts })
      ≡ put a (some (entry account)) (view s)
view-insert a account s = fun_ext λ b.
    ap seen (find-insert b a account s.accounts)
    ∙ seen_if (list_beq a b) (some account) (find b s.accounts)

-- A call that returns `r` does what `t` says.
abbrev Follows : Outcome ⊥ (Answer × State) → Answer × Table → Type 0
Follows call t = (r : Answer × State) × (call ≡ returned r) × ((r.0, view r.1) ≡ t)

updated :
    (a : Bytes) (change : Account → Account) (change' : Entry → Entry) (s : State)
    → ((x : Account) → entry (change x) ≡ change' (entry x))
    → (done (update a change s).0, view (update a change s).1)
      ≡ changed_found a change' (view s a) (view s)
updated a change change' s same = elim (Option-cases (find a s.accounts)) [
  | inl missing ↦ rw (update, missing) refl
  | inr (account, there) ↦
      rw (update, there)
        (ap (λ t. (done true, t))
          (view-insert a (change account) s ∙ ap (λ e. put a (some e) (view s)) (same account)))
]

cells-put :
    (key value : Bytes) (m : Dict Bytes Bytes)
    → (λ k. find k (insert key value m)) ≡ put key (some value) (λ k. find k m)
cells-put key value m = fun_ext λ k. find-insert k key value m

shown-balance :
    (o : Option Account)
    → number (elim o [ none ↦ 0 | some account ↦ account.balance ])
      ≡ number_of (λ e. e.money) (seen o)
shown-balance none = refl
shown-balance (some account) = refl

shown-nonce :
    (o : Option Account)
    → number (elim o [ none ↦ 0 | some account ↦ account.nonce ])
      ≡ number_of (λ e. e.calls) (seen o)
shown-nonce none = refl
shown-nonce (some account) = refl

shown-code :
    (o : Option Account)
    → bytes (elim o [ none ↦ [] | some account ↦ account.code ]) ≡ program_of (seen o)
shown-code none = refl
shown-code (some account) = refl

shown_value :
    (o : Option Bytes) → bytes (elim o [ none ↦ [] | some value ↦ value ]) ≡ bytes_or_none o
shown_value none = refl
shown_value (some value) = refl

shown-cell :
    (key : Bytes) (o : Option Account)
    → bytes (elim o [
      | none ↦ []
      | some account ↦ elim (find key account.storage) [ none ↦ [] | some value ↦ value ]
    ])
      ≡ cell_of key (seen o)
shown-cell key none = refl
shown-cell key (some account) = shown_value (find key account.storage)

step-Follows :
    (blake3 : Bytes → Bytes) (c : Call) (s : State)
    → Follows (step blake3 c s) (spec_step c (view s))
unfolding commit_state rollback_state add_account get_balance get_nonce get_storage get_code
    set_balance set_nonce set_storage set_code may_lock
step-Follows blake3 (adds a account) s =
    (_, refl, ap (λ t. (done true, t)) (view-insert a account s))
step-Follows blake3 (sets_balance a n) s =
    (_, refl, updated a (λ x. record x { balance = n }) (λ e. record e { money = n }) s (λ x. refl))
step-Follows blake3 (sets_nonce a n) s =
    (_, refl, updated a (λ x. record x { nonce = n }) (λ e. record e { calls = n }) s (λ x. refl))
step-Follows blake3 (sets_storage address key value) s = (
  _,
  refl,
  updated (address_to_hex address) (λ x. record x { storage = insert key value x.storage })
      (λ e. record e { cells = put key (some value) e.cells }) s
      (λ x. ap (λ f. record (entry x) { cells = f }) (cells-put key value x.storage)),
)
step-Follows blake3 (sets_code address code) s = (
  _,
  refl,
  updated (address_to_hex address) (λ x. record x { code = code })
      (λ e. record e { program = code }) s (λ x. refl),
)
step-Follows blake3 (asks_balance a) s =
    (_, refl, ap (λ x. (x, view s)) (shown-balance (find a s.accounts)))
step-Follows blake3 (asks_nonce a) s =
    (_, refl, ap (λ x. (x, view s)) (shown-nonce (find a s.accounts)))
step-Follows blake3 (asks_storage address key) s =
    (_, refl, ap (λ x. (x, view s)) (shown-cell key (find (address_to_hex address) s.accounts)))
step-Follows blake3 (asks_code address) s =
    (_, refl, ap (λ x. (x, view s)) (shown-code (find (address_to_hex address) s.accounts)))
step-Follows blake3 commits s = (_, refl, refl)
step-Follows blake3 rolls_back s = (_, refl, refl)

-- Any calls of add_account, the setters, the getters of one account, commit_state and
-- rollback_state, one after another by a thread that does not hold the mutex, return, and answer as
-- the calls on a function from addresses to balance, nonce, code and storage do; the accounts then
-- hold that function. In particular a rollback gives no account back.
pub run_answers :
    (blake3 : Bytes → Bytes) (cs : List Call) (s : State)
    → (answers : List Answer) × (s' : State) × (run blake3 cs s ≡ returned (answers, s'))
      × ((answers, view s') ≡ spec_run cs (view s))
unfolding run
run_answers blake3 [] s = ([], s, refl, refl)
run_answers blake3 (c ∷ cs) s =
    let (r, ran, first) = step-Follows blake3 c s in
    let (answers, s', rest, others) = run_answers blake3 cs r.1 in
    (
      r.0 ∷ answers,
      s',
      rw (ran, rest) refl,
      ap (λ q. (r.0 ∷ q.0, q.1)) others
          ∙ ap (λ q. (q.0 ∷ (spec_run cs q.1).0, (spec_run cs q.1).1)) first,
    )

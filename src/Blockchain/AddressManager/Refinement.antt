-- ===== src/Blockchain/AddressManager/Refinement.antt =====
-- The manager simulates its specification.
use mathlib.Core.Path.{fun_ext}
use quids_evm_cpp.Base.{
  ℕ, ◌+◌, ◌-◌, ◌%◌, ◌^◌, ◌≡◌, refl, subst, ap, Option-cases, inl, inr, ◌∙◌, Bool, true, false,
  Option, none, some, List, [], ◌∷◌, Bytes, u64_mod, list_eq, nat_eq, list_beq, ltb, if◌then◌else◌,
}
use quids_evm_cpp.Base.Dict.{Dict, find, contains, insert, erase, find-insert, find-erase}
use quids_evm_cpp.Blockchain.AddressManager.{
  Account, Impl, new_account, new_contract, debited, credited, with_accounts, modify, modify_found,
  transfer_found, account_exists, create_account, create_contract_account, delete_account, transfer,
  set_balance, deploy_code, increment_nonce, register_quantum_state, store_proof,
}
use quids_evm_cpp.Blockchain.AddressManager.Specification.{
  Call, creates, creates_contract, deletes, transfers, sets_balance, deploys_code, increments_nonce,
  registers, stores_proof, Entry, Spec, put, defined, with_entry, created, changed_found, changed,
  moved, spec_step, spec_run,
}

-- The entry of an account, and of none
abbrev pub entry : Account → Entry
entry account = record { money = account.balance; calls = account.nonce; program = account.code }

abbrev pub seen_account : Option Account → Option Entry
seen_account none = none
seen_account (some account) = some (entry account)

module _ {State Proof : Type 0} where
  abbrev pub step : Call State Proof → Impl State Proof → Bool × Impl State Proof
  step (creates a n) = create_account a n
  step (creates_contract a code n) = create_contract_account a code n
  step (deletes a) = delete_account a
  step (transfers from to n) = transfer from to n
  step (sets_balance a n) = set_balance a n
  step (deploys_code a code) = deploy_code a code
  step (increments_nonce a) = increment_nonce a
  step (registers a state) = register_quantum_state a state
  step (stores_proof a proof) = store_proof a proof

  abbrev pub run : List (Call State Proof) → Impl State Proof → List Bool × Impl State Proof
  run [] s = ([], s)
  run (c ∷ cs) s =
      let (answer, s') = step c s in let (answers, s'') = run cs s' in (answer ∷ answers, s'')

  -- What the maps hold
  abbrev pub view : Impl State Proof → Spec State Proof
  view impl = record {
    entry_of = λ a. seen_account (find a impl.accounts);
    state_of = λ a. find a impl.quantum_states;
    proof_of = λ a. find a impl.stored_proofs;
  }

  -- The answer and the view of what a call leaves
  abbrev pub seen : Bool × Impl State Proof → Bool × Spec State Proof
  seen r = (r.0, view r.1)

find-put :
    {A : Type 0} (a : Bytes) (v : A) (m : Dict Bytes A)
    → (λ b. find b (insert a v m)) ≡ put a (some v) (λ b. find b m)
find-put a v m = fun_ext λ b. find-insert b a v m

seen_if :
    (b : Bool) (x y : Option Account)
    → seen_account (if b then x else y) ≡ (if b then seen_account x else seen_account y)
seen_if true x y = refl
seen_if false x y = refl

entry-put :
    (a : Bytes) (account : Account) (m : Dict Bytes Account)
    → (λ b. seen_account (find b (insert a account m)))
      ≡ put a (some (entry account)) (λ b. seen_account (find b m))
entry-put a account m = fun_ext λ b.
    ap seen_account (find-insert b a account m) ∙ seen_if (list_beq a b) (some account) (find b m)

entry_erased :
    (a : Bytes) (m : Dict Bytes Account)
    → (λ b. seen_account (find b (erase a m))) ≡ put a none (λ b. seen_account (find b m))
entry_erased a m =
    fun_ext λ b. ap seen_account (find-erase b a m) ∙ seen_if (list_beq a b) none (find b m)

contains-defined :
    (a : Bytes) (m : Dict Bytes Account) → contains a m ≡ defined (seen_account (find a m))
contains-defined a m = elim (Option-cases (find a m)) [
  | inl missing ↦ rw (contains, missing) refl
  | inr (account, there) ↦ rw (contains, there) refl
]

module _ {State Proof : Type 0} where
  -- A write to the accounts and a write to the function
  seen_write :
      (a : Bytes) (account : Account) (impl : Impl State Proof)
      → view (with_accounts (insert a account impl.accounts) impl)
        ≡ with_entry a (some (entry account)) (view impl)
  seen_write a account impl =
      ap (λ f. record (view impl) { entry_of = f }) (entry-put a account impl.accounts)

  seen-changed :
      (a : Bytes) (change : Account → Account) (change' : Entry → Entry) (found : Option Account)
      (impl : Impl State Proof)
      → ((x : Account) → entry (change x) ≡ change' (entry x))
      → seen (modify_found a change found impl)
        ≡ changed_found a change' (seen_account found) (view impl)
  seen-changed a change change' none impl h = refl
  seen-changed a change change' (some account) impl h =
      ap (λ s. (true, s))
        (seen_write a (change account) impl
          ∙ ap (λ e. with_entry a (some e) (view impl)) (h account))

  either :
      (b c : Bool) (x y : Bool × Impl State Proof) (x' y' : Bool × Spec State Proof)
      → b ≡ c
      → seen x ≡ x'
      → seen y ≡ y'
      → seen (if b then x else y) ≡ (if c then x' else y')
  either true c x y x' y' e h k = subst (λ d. seen x ≡ (if d then x' else y')) e h
  either false c x y x' y' e h k = subst (λ d. seen y ≡ (if d then x' else y')) e k

  seen-moved :
      (from to : Bytes) (n : ℕ) (sender : Option Account) (there : Bool) (impl : Impl State Proof)
      → find from impl.accounts ≡ sender
      → seen (transfer_found from to n sender there impl)
        ≡ moved from to n (seen_account sender) there (view impl)
  seen-moved from to n none there impl at = refl
  seen-moved from to n (some sender) false impl at = refl
  seen-moved from to n (some sender) true impl at =
      let paid : Impl State Proof =
        with_accounts (insert from (debited n sender) impl.accounts) impl in
      let get : Entry → Entry = λ e. record e { money = (e.money + n) % 2 ^ 64 } in
      let first : (modify from (debited n) impl).1 ≡ paid =
        ap (λ found. (modify_found from (debited n) found impl).1) at in
      either (ltb sender.balance n) (ltb sender.balance n) (false, impl)
        (modify to (credited n) (modify from (debited n) impl).1) (false, view impl)
        (changed to get (
          with_entry from (some (record (entry sender) { money = sender.balance - n }))
            (view impl)))
        refl refl
        (ap (λ s. seen (modify to (credited n) s)) first
          ∙ (seen-changed to (credited n) get (find to paid.accounts) paid (λ x. refl)
              ∙ ap (changed to get) (seen_write from (debited n sender) impl)))

  seen_new :
      (a : Bytes) (account : Account) (e : Entry) (impl : Impl State Proof)
      → entry account ≡ e
      → seen (
          if contains a impl.accounts
          then (false, impl)
          else (true, with_accounts (insert a account impl.accounts) impl))
        ≡ created a e (view impl)
  seen_new a account e impl same =
      either (contains a impl.accounts) (defined ((view impl).entry_of a)) (false, impl)
        (true, with_accounts (insert a account impl.accounts) impl) (false, view impl)
        (true, with_entry a (some e) (view impl)) (contains-defined a impl.accounts) refl
        (ap (λ s. (true, s))
          (seen_write a account impl ∙ ap (λ e. with_entry a (some e) (view impl)) same))

  seen-step :
      (c : Call State Proof) (impl : Impl State Proof)
      → seen (step c impl) ≡ spec_step c (view impl)
  unfolding create_account create_contract_account delete_account transfer set_balance deploy_code
      increment_nonce register_quantum_state store_proof account_exists
  seen-step (creates a n) impl = seen_new a (new_account a n) _ impl refl
  seen-step (creates_contract a code n) impl = seen_new a (new_contract a code n) _ impl refl
  seen-step (deletes a) impl =
      ap
        (λ b.
          (b, record (view impl) { entry_of = λ b. seen_account (find b (erase a impl.accounts)) }))
        (contains-defined a impl.accounts)
      ∙ ap (λ f. (defined ((view impl).entry_of a), record (view impl) { entry_of = f }))
          (entry_erased a impl.accounts)
  seen-step (transfers from to n) impl =
      seen-moved from to n (find from impl.accounts) (contains to impl.accounts) impl refl
      ∙ ap (λ b. moved from to n ((view impl).entry_of from) b (view impl))
          (contains-defined to impl.accounts)
  seen-step (sets_balance a n) impl =
      seen-changed a (λ x. record x { balance = n }) (λ e. record e { money = n })
        (find a impl.accounts) impl (λ x. refl)
  seen-step (deploys_code a code) impl =
      seen-changed a (λ x. record x { code = code }) (λ e. record e { program = code })
        (find a impl.accounts) impl (λ x. refl)
  seen-step (increments_nonce a) impl =
      seen-changed a (λ x. record x { nonce = (x.nonce + 1) % u64_mod })
        (λ e. record e { calls = (e.calls + 1) % 2 ^ 64 }) (find a impl.accounts) impl (λ x. refl)
  seen-step (registers a state) impl =
      either (contains a impl.accounts) (defined ((view impl).entry_of a))
        (true, record impl { quantum_states = insert a state impl.quantum_states }) (false, impl)
        (true, record (view impl) { state_of = put a (some state) (view impl).state_of })
        (false, view impl) (contains-defined a impl.accounts)
        (ap (λ f. (true, record (view impl) { state_of = f }))
          (find-put a state impl.quantum_states))
        refl
  seen-step (stores_proof a proof) impl =
      either (contains a impl.accounts) (defined ((view impl).entry_of a))
        (true, record impl { stored_proofs = insert a proof impl.stored_proofs }) (false, impl)
        (true, record (view impl) { proof_of = put a (some proof) (view impl).proof_of })
        (false, view impl) (contains-defined a impl.accounts)
        (ap (λ f. (true, record (view impl) { proof_of = f }))
          (find-put a proof impl.stored_proofs))
        refl

  -- Any calls that change the manager, one after another, answer as the calls of a specification on
  -- three partial functions from addresses do, the first to balance, nonce and code; and the
  -- manager's three maps then hold those functions.
  pub run_simulates :
      (cs : List (Call State Proof)) (impl : Impl State Proof)
      → let (answers, impl') = run cs impl in (answers, view impl') ≡ spec_run cs (view impl)
  run_simulates [] impl = refl
  run_simulates (c ∷ cs) impl =
      let impl' : Impl State Proof = (step c impl).1 in
      ap (λ r. ((step c impl).0 ∷ r.0, r.1)) (run_simulates cs impl')
      ∙ ap (λ r. (r.0 ∷ (spec_run cs r.1).0, (spec_run cs r.1).1)) (seen-step c impl)

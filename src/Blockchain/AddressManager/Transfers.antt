-- ===== src/Blockchain/AddressManager/Transfers.antt =====
-- What a transfer moves, and what outlives an account.
use quids_evm_cpp.Base.{
  ℕ, ◌+◌, ◌-◌, ◌%◌, ◌≤◌, ◌<◌, ◌≡◌, refl, sym, Bool, true, false, not, ◌&&◌, Option, none, some,
  Bytes, u64_mod, Eq, list_eq, nat_eq, list_beq, list_beq_iff, leb, ltb, if◌then◌else◌, arith,
  Option-cases, Bool-cases, inl, inr,
}
use quids_evm_cpp.Base.Dict.{
  Dict, find, contains, insert, erase, find-insert, find-insert_self, find-erase,
}
use quids_evm_cpp.Base.Totals.{total, counted-le-total, total-insert}
use quids_evm_cpp.Blockchain.AddressManager.{
  Account, Impl, new_account, debited, credited, with_accounts, create_account, delete_account,
  transfer, get_balance, verify_quantum_state,
}

abbrev pub supply : Dict Bytes Account → ℕ
supply accounts = total (λ account. account.balance) accounts

supply-insert :
    (a : Bytes) (account : Account) (m : Dict Bytes Account)
    → supply (insert a account m) + (elim (find a m) [ none ↦ 0 | some old ↦ old.balance ])
      ≡ supply m + account.balance
supply-insert a account m = total-insert (λ account. account.balance) a account m

balance-le-supply :
    (a : Bytes) (m : Dict Bytes Account)
    → (elim (find a m) [ none ↦ 0 | some old ↦ old.balance ]) ≤ supply m
balance-le-supply a m = counted-le-total (λ account. account.balance) a m

module _ {State Proof : Type 0} (from to : Bytes) (amount : ℕ) (impl : Impl State Proof) where
  -- A transfer that is done
  done_lem :
      (sender recipient : Account)
      → find from impl.accounts ≡ some sender
      → contains to impl.accounts ≡ true
      → ltb sender.balance amount ≡ false
      → find to (insert from (debited amount sender) impl.accounts) ≡ some recipient
      → transfer from to amount impl ≡ (
        true,
        with_accounts
            (insert to
              (credited amount recipient)
              (insert from (debited amount sender) impl.accounts))
            impl,
      )
  unfolding transfer
  done_lem sender recipient there here rich found = rw (there, here, rich, there, found) refl

  -- A transfer that is refused
  refused_lem :
      (found : Option Account)
      → find from impl.accounts ≡ found
      → (contains from impl.accounts
          && contains to impl.accounts
          && leb amount (get_balance from impl))
        ≡ false
      → transfer from to amount impl ≡ (false, impl)
  unfolding transfer get_balance
  refused_lem none at h = rw at refl
  refused_lem (some sender) at h = elim (Bool-cases (contains to impl.accounts)) [
    | inl there ↦
        let poor : ltb sender.balance amount ≡ true = ground (arith, at, h, there) in
        rw (at, there, poor) refl
    | inr missing ↦ rw (at, missing) refl
  ]

  -- The accounts and the amount that a transfer asks for
  abbrev pub accepts : Bool
  accepts =
      contains from impl.accounts && contains to impl.accounts && leb amount (get_balance from impl)

  -- What the iterators of an accepted transfer stand at
  accepted_lem :
      accepts ≡ true
      → (sender : Account) × (recipient : Account) × (find from impl.accounts ≡ some sender)
        × (contains to impl.accounts ≡ true)
        × (ltb sender.balance amount ≡ false)
        × (find to (insert from (debited amount sender) impl.accounts) ≡ some recipient)
  unfolding get_balance
  accepted_lem h = elim (Option-cases (find from impl.accounts)) [
    | inl missing ↦ absurd (ground (arith, missing, h))
    | inr (sender, there) ↦ elim (Option-cases (find to impl.accounts)) [
      | inl missing ↦ absurd (ground (arith, missing, h))
      | inr (old, here) ↦ (
        sender,
        if list_beq from to then debited amount sender else old,
        there,
        rw (contains, here) refl,
        ground (arith, h, there),
        ground (arith, find-insert to from (debited amount sender) impl.accounts, here),
      )
    ]
  ]

  -- Where all balances together are a uint64_t, a transfer makes and loses no money, also to
  -- oneself; it is done exactly if both accounts are there and the sender has the amount.
  pub transfer_conserves :
      supply impl.accounts < u64_mod
      → let (done, impl') = transfer from to amount impl in
        (supply impl'.accounts ≡ supply impl.accounts) × (done ≡ accepts)
  unfolding get_balance
  transfer_conserves h = elim (Bool-cases accepts) [
    | inr refused ↦ rw (refused_lem (find from impl.accounts) refl refused) (refl, sym refused)
    | inl accepted ↦
        let (sender, recipient, there, here, rich, found) = accepted_lem accepted in
        let taken : Dict Bytes Account = insert from (debited amount sender) impl.accounts in
        rw (done_lem sender recipient there here rich found) (
          ground (
            arith,
            there,
            found,
            h,
            rich,
            balance-le-supply from impl.accounts,
            supply-insert from (debited amount sender) impl.accounts,
            balance-le-supply to taken,
            supply-insert to (credited amount recipient) taken,
          ),
          sym accepted,
        )
  ]

  -- A transfer that is done between two accounts takes the amount from the one and adds it to the
  -- other, modulo 2 ^ 64; no other balance changes, and none does where it is refused or goes to
  -- oneself.
  pub transfer_moves :
      (b : Bytes)
      → amount < u64_mod
      → get_balance b impl < u64_mod
      → get_balance b (transfer from to amount impl).1 ≡ (
          if accepts && not (list_beq from to)
          then if list_beq from b
            then get_balance b impl - amount
            else if list_beq to b
            then (get_balance b impl + amount) % u64_mod
            else get_balance b impl
          else get_balance b impl)
  unfolding get_balance
  transfer_moves b ha hb = elim (Bool-cases accepts) [
    | inr refused ↦ rw (refused_lem (find from impl.accounts) refl refused, refused) refl
    | inl accepted ↦
        let (sender, recipient, there, here, rich, found) = accepted_lem accepted in
        let taken : Dict Bytes Account = insert from (debited amount sender) impl.accounts in
        rw (done_lem sender recipient there here rich found, accepted)
          (ground (
            arith,
            there,
            found,
            rich,
            find-insert b from (debited amount sender) impl.accounts,
            find-insert to from (debited amount sender) impl.accounts,
            find-insert b to (credited amount recipient) taken,
            list_beq_iff from b,
            list_beq_iff to b,
            list_beq_iff from to,
          ))
  ]

module _ {State Proof : Type 0} ⦃e : Eq State⦄ where
  -- A quantum state that is registered for an address is accepted there as before after the
  -- account is deleted and created anew, although the account then has no code and no nonce.
  pub recreated_keeps_state :
      (a : Bytes) (balance : ℕ) (b : Bytes) (state : State) (impl : Impl State Proof)
      → let (created, impl') = create_account a balance (delete_account a impl).1 in
        (created ≡ true)
        × (find a impl'.accounts ≡ some (new_account a balance))
        × (verify_quantum_state b state impl' ≡ verify_quantum_state b state impl)
  unfolding create_account delete_account verify_quantum_state
  recreated_keeps_state a balance b state impl =
      let gone : contains a (erase a impl.accounts) ≡ false =
        ground (arith, find-erase a a impl.accounts, list_beq_iff a a) in
      rw gone (refl, find-insert_self a (new_account a balance) (erase a impl.accounts), refl)

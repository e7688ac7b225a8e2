-- ===== src/Evm/Executor/Transfers.antt =====
-- What a transaction moves between balances, and which code is accepted.
use quids_evm_cpp.Base.{
  ℕ, ◌+◌, ◌-◌, ◌%◌, ◌≤◌, ◌<◌, ◌≡◌, ◌↔◌, ◌≢◌, refl, true, some, [], ◌∷◌, Bytes, list_eq, nat_eq,
  list_beq, list_beq_iff, u64_mod, arith, leb, if◌then◌else◌, ap, not, ◌&&◌, get_elem?, zero, suc,
}
use quids_evm_cpp.Base.Dict.{Dict, insert, find-insert}
use quids_evm_cpp.Base.Totals.{total, counted-le-total, total-insert}
use quids_evm_cpp.Blockchain.Transaction.{Transaction}
use quids_evm_cpp.Evm.Opcodes.{invalid_op, selfdestruct_op}
use quids_evm_cpp.Evm.Executor.{Executor, balance, execute, get_balance, validate_code, deploy}

-- All the money there is.
abbrev pub supply : Dict Bytes ℕ → ℕ
supply balances = total (λ n. n) balances

balance-le-supply : (a : Bytes) (m : Dict Bytes ℕ) → balance a m ≤ supply m
balance-le-supply a m = counted-le-total (λ n. n) a m

supply-insert :
    (a : Bytes) (n : ℕ) (m : Dict Bytes ℕ) → supply (insert a n m) + balance a m ≡ supply m + n
supply-insert a n m = total-insert (λ n. n) a n m

balance-insert :
    (a b : Bytes) (n : ℕ) (m : Dict Bytes ℕ)
    → balance b (insert a n m) ≡ (if list_beq a b then n else balance b m)
balance-insert a b n m = ground (arith, find-insert b a n m)

module _ {Word : Type 0} (tx : Transaction) (s : Executor Word) where
  -- The maps that `execute` goes through.
  abbrev seen : Dict Bytes ℕ
  seen = insert tx.from (balance tx.from s.impl.balances) s.impl.balances

  abbrev taken : Dict Bytes ℕ
  taken = insert tx.from (balance tx.from seen - tx.value) seen

  abbrev given : Dict Bytes ℕ
  given = insert tx.to ((balance tx.to taken + tx.value) % u64_mod) taken

  balance-seen : (b : Bytes) → balance b seen ≡ balance b s.impl.balances
  balance-seen b = ground (
    arith,
    balance-insert tx.from b (balance tx.from s.impl.balances) s.impl.balances,
    list_beq_iff tx.from b,
  )

  supply-seen : supply seen ≡ supply s.impl.balances
  supply-seen =
      omega (arith, supply-insert tx.from (balance tx.from s.impl.balances) s.impl.balances)

  supply-given :
      supply s.impl.balances < u64_mod
      → tx.value ≤ balance tx.from seen
      → supply given ≡ supply s.impl.balances
  supply-given h enough = omega (
    arith,
    supply-seen,
    balance-le-supply tx.from seen,
    supply-insert tx.from (balance tx.from seen - tx.value) seen,
    balance-le-supply tx.to taken,
    supply-insert tx.to ((balance tx.to taken + tx.value) % u64_mod) taken,
  )

  -- A transaction is executed exactly if its sender has the amount. Then and otherwise no money is
  -- made or lost, as long as all balances together are a uint64_t.
  pub execute_conserves :
      supply s.impl.balances < u64_mod
      → let (done, s') = execute tx s in
        (supply s'.impl.balances ≡ supply s.impl.balances)
        × (done ≡ leb tx.value (get_balance tx.from s))
  unfolding execute get_balance
  execute_conserves h = ground (arith, supply-seen, supply-given h, balance-seen tx.from)

  -- Where sender and recipient differ and the sender has the amount, it is taken from the one and
  -- added to the other, modulo 2 ^ 64, and no third balance changes. To oneself, and where the
  -- sender lacks the amount, nothing is moved.
  pub execute_moves :
      (b : Bytes)
      → tx.value < u64_mod
      → get_balance b s < u64_mod
      → get_balance b (execute tx s).1 ≡ (
          if leb tx.value (get_balance tx.from s) && not (list_beq tx.from tx.to)
          then if list_beq tx.from b
            then get_balance b s - tx.value
            else if list_beq tx.to b
            then (get_balance b s + tx.value) % u64_mod
            else get_balance b s
          else get_balance b s)
  unfolding execute get_balance
  execute_moves b hv hb = ground (
    arith,
    balance-seen tx.from,
    balance-seen b,
    balance-insert tx.from b (balance tx.from seen - tx.value) seen,
    balance-insert tx.from tx.to (balance tx.from seen - tx.value) seen,
    balance-insert tx.to b ((balance tx.to taken + tx.value) % u64_mod) taken,
    list_beq_iff tx.from b,
    list_beq_iff tx.to b,
    list_beq_iff tx.from tx.to,
    balance-seen tx.to,
  )

-- Neither of the two bytes stands anywhere in the code.
abbrev pub IsClean : Bytes → Type 0
IsClean code =
    (i : ℕ) → (get_elem? code i ≢ some invalid_op) × (get_elem? code i ≢ some selfdestruct_op)

validate_code-IsClean : (code : Bytes) → validate_code code ≡ true → IsClean code
unfolding validate_code
validate_code-IsClean [] h i = (λ e. cc, λ e. cc)
validate_code-IsClean (b ∷ code) h zero = (λ e. ground arith, λ e. ground arith)
validate_code-IsClean (b ∷ code) h (suc i) = validate_code-IsClean code (ground arith) i

validate_code_of_clean : (code : Bytes) → IsClean code → validate_code code ≡ true
unfolding validate_code
validate_code_of_clean [] h = refl
validate_code_of_clean (b ∷ code) h =
    let rest : validate_code code ≡ true = validate_code_of_clean code (λ i. h (suc i)) in
    let not_invalid : b ≢ invalid_op = λ e. (h 0).0 (ap some e) in
    let not_selfdestruct : b ≢ selfdestruct_op = λ e. (h 0).1 (ap some e) in ground arith

-- A code is accepted exactly if it is not empty and holds neither the byte 0xfe nor the byte 0xff,
-- also where that byte is data of a PUSH.
pub deploy_iff : (code : Bytes) → (deploy code ≡ true) ↔ ((code ≢ []) × IsClean code)
unfolding deploy
deploy_iff [] = (λ h. cc, λ h. absurd (h.0 refl))
deploy_iff (b ∷ code) =
    (λ h. (λ e. cc, validate_code-IsClean (b ∷ code) h), λ h. validate_code_of_clean (b ∷ code) h.1)

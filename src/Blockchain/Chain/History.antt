-- ===== src/Blockchain/Chain/History.antt =====
-- What any sequence of calls of the chain's members keeps.
use quids_evm_cpp.Base.{
  ℕ, ◌%◌, ◌≡◌, ◌<◌, refl, List, [], ◌∷◌, ◌++◌, u64_mod, if◌then◌else◌, arith, length, length-append,
  sym, ap, ◌∙◌,
}
use mathlib.Core.List.{append_assoc, append-nil}
use quids_evm_cpp.Evm.Executor.{Executor, execute}
use quids_evm_cpp.Evm.Executor.Transfers.{supply, execute_conserves}
use quids_evm_cpp.Blockchain.Transaction.{Transaction, verify as verify_transaction}
use quids_evm_cpp.Blockchain.Block.{Block}
use quids_evm_cpp.Blockchain.Chain.{Chain, new_chain, run_transactions, add_block, add_transaction}

pub data Call : Type 0 where
  add : Block → Call
  submit : Transaction → Call

-- What a call adds to the pending transactions: one that is submitted and passes `verify`.
abbrev pub new_pending : Call → List Transaction
new_pending (add block) = []
new_pending (submit tx) = if verify_transaction tx then tx ∷ [] else []

abbrev pub submitted : List Call → List Transaction
submitted [] = []
submitted (call ∷ calls) = new_pending call ++ submitted calls

module _ {Word : Type 0} where
  abbrev pub apply : Call → Chain Word → Chain Word
  apply (add block) chain = (add_block block chain).1
  apply (submit tx) chain = (add_transaction tx chain).1

  abbrev pub run : List Call → Chain Word → Chain Word
  run [] chain = chain
  run (call ∷ calls) chain = run calls (apply call chain)

  abbrev pub money : Executor Word → ℕ
  money s = supply s.impl.balances

  transactions_conserve :
      (txs : List Transaction) (s : Executor Word)
      → money s < u64_mod
      → money (run_transactions txs s).1 ≡ money s
  unfolding run_transactions
  transactions_conserve [] s h = refl
  transactions_conserve (tx ∷ txs) s h =
      ground (arith, transactions_conserve txs (execute tx s).1, execute_conserves tx s h)

  apply-conserves :
      (call : Call) (chain : Chain Word)
      → money chain.executor < u64_mod
      → money (apply call chain).executor ≡ money chain.executor
  unfolding add_block add_transaction
  apply-conserves (add block) chain h =
      ground (arith, transactions_conserve block.transactions chain.executor h)
  apply-conserves (submit tx) chain h = ground arith

  -- The height counts the blocks that are kept.
  abbrev IsCounted : Chain Word → Type 0
  IsCounted chain = chain.current_height ≡ length chain.blocks % u64_mod

  apply-IsCounted :
      (call : Call) (chain : Chain Word) → IsCounted chain → IsCounted (apply call chain)
  unfolding add_block add_transaction
  apply-IsCounted (add block) chain h = ground (arith, h, length-append chain.blocks (block ∷ []))
  apply-IsCounted (submit tx) chain h = ground (arith, h)

  run-conserves :
      (calls : List Call) (chain : Chain Word)
      → money chain.executor < u64_mod
      → money (run calls chain).executor ≡ money chain.executor
  run-conserves [] chain h = refl
  run-conserves (call ∷ calls) chain h =
      let kept = apply-conserves call chain h in
      run-conserves calls (apply call chain) (omega (arith, kept, h)) ∙ kept

  run-IsCounted :
      (calls : List Call) (chain : Chain Word) → IsCounted chain → IsCounted (run calls chain)
  run-IsCounted [] chain h = h
  run-IsCounted (call ∷ calls) chain h =
      run-IsCounted calls (apply call chain) (apply-IsCounted call chain h)

  apply-new_pending :
      (call : Call) (chain : Chain Word)
      → (apply call chain).pending_transactions ≡ chain.pending_transactions ++ new_pending call
  unfolding add_block add_transaction
  apply-new_pending (add block) chain = ground (arith, append-nil chain.pending_transactions)
  apply-new_pending (submit tx) chain = ground (arith, append-nil chain.pending_transactions)

  run-submitted :
      (calls : List Call) (chain : Chain Word)
      → (run calls chain).pending_transactions ≡ chain.pending_transactions ++ submitted calls
  run-submitted [] chain = sym (append-nil chain.pending_transactions)
  run-submitted (call ∷ calls) chain =
      run-submitted calls (apply call chain)
      ∙ ap (λ txs. txs ++ submitted calls) (apply-new_pending call chain)
      ∙ append_assoc chain.pending_transactions (new_pending call) (submitted calls)

  -- After any calls on a new chain whose accounts hold less than 2 ^ 64 together: the height is the
  -- number of blocks modulo 2 ^ 64, no money is made or lost, whether blocks were accepted or
  -- refused, and the pending transactions are all that were submitted and verify, in their order.
  pub run_keeps :
      (calls : List Call) (s : Executor Word)
      → money s < u64_mod
      → let chain = run calls (new_chain s) in
        (chain.current_height ≡ length chain.blocks % u64_mod)
        × (money chain.executor ≡ money s)
        × (chain.pending_transactions ≡ submitted calls)
  run_keeps calls s h = (
    run-IsCounted calls (new_chain s) refl,
    run-conserves calls (new_chain s) h,
    run-submitted calls (new_chain s),
  )

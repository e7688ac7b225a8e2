-- ===== src/Blockchain/Chain/Blocks.antt =====
-- What `addBlock` accepts, and what it leaves behind.
use quids_evm_cpp.Base.{
  ℕ, ◌+◌, ◌%◌, ◌≡◌, ◌↔◌, refl, sym, ap, true, false, List, [], ◌∷◌, ◌++◌, u64_mod, if◌then◌else◌,
  arith, Bytes, empty, ◌∙◌, subst, Bool-cases, inl, inr,
}
use quids_evm_cpp.Evm.Executor.{Executor, execute}
use quids_evm_cpp.Blockchain.Transaction.{Transaction}
use quids_evm_cpp.Blockchain.Block.{Block, new_block, verify as verify_block}
use quids_evm_cpp.Blockchain.Chain.{Chain, run_transactions, add_block, last_of, get_latest_block}

-- All the transactions succeed, one after the other.
pub data Executed {Word : Type 0} : List Transaction → Executor Word → Executor Word → Type 0 where
  done : (s : Executor Word) → Executed [] s s
  next :
      {tx : Transaction} {txs : List Transaction} (s s' s'' : Executor Word)
      → execute tx s ≡ (true, s')
      → Executed txs s' s''
      → Executed (tx ∷ txs) s s''

last_of-snoc : (blocks : List Block) (b block : Block) → last_of (blocks ++ (block ∷ [])) b ≡ block
unfolding last_of
last_of-snoc [] b block = refl
last_of-snoc (first ∷ blocks) b block = last_of-snoc blocks first block

module _ {Word : Type 0} where
  run-Executed :
      (txs : List Transaction) (s s' : Executor Word)
      → Executed txs s s'
      → run_transactions txs s ≡ (true, s')
  unfolding run_transactions
  run-Executed _ s _ (done _) = refl
  run-Executed (tx ∷ txs) s s'' (next _ s' _ ran others) =
      ground (arith, ran, run-Executed txs s' s'' others)

  Executed-run :
      (txs : List Transaction) (s s' : Executor Word)
      → run_transactions txs s ≡ (true, s')
      → Executed txs s s'
  unfolding run_transactions
  Executed-run [] s s' h = subst (λ end. Executed [] s end) (ap (λ r. r.1) h) (done s)
  Executed-run (tx ∷ txs) s s' h = elim (Bool-cases (execute tx s).0) [
    | inl succeeds ↦
        next s (execute tx s).1 s' (ap (λ b. (b, (execute tx s).1)) succeeds)
          (Executed-run txs _ s' (ground (arith, h, succeeds)))
    | inr fails ↦ ground (arith, h, fails)
  ]

  -- The chain with the block at its end, over the executor `s`.
  abbrev pub extended : Block → Chain Word → Executor Word → Chain Word
  extended block chain s = record {
    current_height = (chain.current_height + 1) % u64_mod;
    executor = s;
    blocks = chain.blocks ++ (block ∷ []);
    pending_transactions = chain.pending_transactions;
  }

  add_block_of_run :
      (block : Block) (chain : Chain Word) (s : Executor Word)
      → verify_block block ≡ true
      → run_transactions block.transactions chain.executor ≡ (true, s)
      → add_block block chain ≡ (true, extended block chain s)
  unfolding add_block
  add_block_of_run block chain s verified ran = ground (arith, verified, ran)

  run_of_add_block :
      (block : Block) (chain chain' : Chain Word)
      → add_block block chain ≡ (true, chain')
      → (verify_block block ≡ true)
        × ((run_transactions block.transactions chain.executor
              ≡ (true, (run_transactions block.transactions chain.executor).1))
            × (chain'
                ≡ extended block chain (run_transactions block.transactions chain.executor).1))
  unfolding add_block
  run_of_add_block block chain chain' h = ground (arith, h)

  -- A block is accepted exactly if it verifies and its transactions succeed one after the other. It
  -- is then the chain's last block, the height is one more, modulo 2 ^ 64, the executor is what the
  -- transactions made of it, and the pending transactions stay as they were.
  pub add_block_iff :
      (block : Block) (chain chain' : Chain Word)
      → (add_block block chain ≡ (true, chain')) ↔ (
          (verify_block block ≡ true)
          × ((s : Executor Word) × (Executed block.transactions chain.executor s
                × (chain' ≡ extended block chain s))))
  add_block_iff block chain chain' = (
    λ h.
        let (verified, (ran, eq)) = run_of_add_block block chain chain' h in
        (verified, (_, (Executed-run block.transactions chain.executor _ ran, eq))),
    λ (verified, (s, (ran, eq))).
        add_block_of_run block chain s verified
          (run-Executed block.transactions chain.executor s ran)
        ∙ ap (λ c. (true, c)) (sym eq),
  )

  run_before_failure :
      (before after : List Transaction) (tx : Transaction) (s s' s'' : Executor Word)
      → Executed before s s'
      → execute tx s' ≡ (false, s'')
      → run_transactions (before ++ (tx ∷ after)) s ≡ (false, s'')
  unfolding run_transactions
  run_before_failure _ after tx s _ s'' (done _) fails = ground (arith, fails)
  run_before_failure (first ∷ before) after tx s s' s'' (next _ s1 _ ran others) fails =
      ground (arith, ran, run_before_failure before after tx s1 s' s'' others fails)

  -- Where a transaction of a verified block fails, the block is refused and the chain's records stay
  -- as they were, but the executor keeps what the transactions before it did: it is not put back.
  pub failed_block_keeps_transfers :
      (block : Block) (chain : Chain Word) (before after : List Transaction) (tx : Transaction)
      (s s' : Executor Word)
      → verify_block block ≡ true
      → block.transactions ≡ before ++ (tx ∷ after)
      → Executed before chain.executor s
      → execute tx s ≡ (false, s')
      → add_block block chain ≡ (false, record chain { executor = s' })
  unfolding add_block
  failed_block_keeps_transfers block chain before after tx s s' verified parts ran fails = ground (
    arith,
    verified,
    ap (λ txs. run_transactions txs chain.executor) parts,
    run_before_failure before after tx chain.executor s s' ran fails,
  )

  -- What `addBlock` answers, and the executor it leaves, do not depend on the block's number, time
  -- or hashes, as long as these stay nonempty: no link to the block before it is checked.
  pub add_block_unlinked :
      (block : Block) (number timestamp : ℕ) (hash prev_hash : Bytes) (chain : Chain Word)
      → empty hash ≡ empty block.hash
      → empty prev_hash ≡ empty block.prev_hash
      → let (accepted, chain') = add_block block chain in
        let (accepted', chain'') =
          add_block
            (record block {
              number = number;
              timestamp = timestamp;
              hash = hash;
              prev_hash = prev_hash;
            })
            chain in
        (accepted' ≡ accepted) × (chain''.executor ≡ chain'.executor)
  unfolding add_block verify_block
  add_block_unlinked block number timestamp hash prev_hash chain h p = ground (arith, h, p)

  -- The latest block is the one just given where it was accepted, and else the one before.
  pub get_latest_block-add_block :
      (block : Block) (chain : Chain Word)
      → let (accepted, chain') = add_block block chain in
        get_latest_block chain' ≡ (if accepted then block else get_latest_block chain)
  unfolding add_block get_latest_block
  get_latest_block-add_block block chain = ground (arith, last_of-snoc chain.blocks new_block block)

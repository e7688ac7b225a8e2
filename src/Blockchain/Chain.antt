-- ===== src/Blockchain/Chain.antt =====
-- src/blockchain/Chain.cpp and include/blockchain/Chain.hpp: the chain over its executor.
pub mod Blocks
pub mod History
mod Tests
use quids_evm_cpp.Base.{
  ℕ, ◌+◌, ◌%◌, Bool, true, false, not, List, [], ◌∷◌, ◌++◌, u64_mod, if◌then◌else◌,
}
use quids_evm_cpp.Evm.Executor.{Executor, execute}
use quids_evm_cpp.Blockchain.Transaction.{Transaction, verify as verify_transaction}
use quids_evm_cpp.Blockchain.Block.{Block, new_block, verify as verify_block}

-- `executor` is what `evm_executor_` points to and `blocks` is `chain_`, the oldest block first.
-- `accounts_` and `config_` are never read.
pub record Chain (Word : Type 0) : Type 0 where
  pub current_height : ℕ
  pub executor : Executor Word
  pub blocks : List Block
  pub pending_transactions : List Transaction

-- `back()` of the blocks behind a first one
unfoldable pub last_of : List Block → Block → Block
last_of [] block = block
last_of (b ∷ blocks) block = last_of blocks b

module _ {Word : Type 0} where
  -- The constructor, with the genesis block
  abbrev pub new_chain : Executor Word → Chain Word
  new_chain executor = record {
    current_height = 1;
    executor = executor;
    blocks = new_block ∷ [];
    pending_transactions = [];
  }

  -- The loop of `addBlock`: the executor keeps what ran before a transaction failed.
  unfoldable pub run_transactions : List Transaction → Executor Word → Bool × Executor Word
  run_transactions [] s = (true, s)
  run_transactions (tx ∷ txs) s =
      let (succeeds, s') = execute tx s in
      elim succeeds [ true ↦ run_transactions txs s' | false ↦ (false, s') ]

  -- `addBlock`
  unfoldable pub add_block : Block → Chain Word → Bool × Chain Word
  unfolding run_transactions
  add_block block chain =
      let (succeed, s) = run_transactions block.transactions chain.executor in
      let longer = record chain {
        executor = s;
        blocks = chain.blocks ++ (block ∷ []);
        current_height = (chain.current_height + 1) % u64_mod;
      } in
      if not (verify_block block)
      then (false, chain)
      else if succeed
      then (true, longer)
      else (false, record chain { executor = s })

  -- `addTransaction`
  unfoldable pub add_transaction : Transaction → Chain Word → Bool × Chain Word
  add_transaction tx chain =
      if not (verify_transaction tx)
      then (false, chain)
      else (true, record chain { pending_transactions = chain.pending_transactions ++ (tx ∷ []) })

  -- `getLatestBlock`; `chain_` is never empty.
  unfoldable pub get_latest_block : Chain Word → Block
  unfolding last_of
  get_latest_block chain = last_of chain.blocks new_block

-- ===== src/Blockchain/Chain/Tests.antt =====
-- Concrete chains, with the 256-bit integers of the model.
use quids_evm_cpp.Base.{◌%◌, ◌≡◌, ◌↔◌, refl, true, false, [], ◌∷◌, u64_mod, length, arith}
use quids_evm_cpp.Evm.Uint256.Model.{Word256}
use quids_evm_cpp.Evm.Executor.{Executor, execute}
use quids_evm_cpp.Blockchain.Transaction.{
  Transaction, new_transaction, verify as verify_transaction,
}
use quids_evm_cpp.Blockchain.Block.{Block, new_block, verify as verify_block, verify_transactions}
use quids_evm_cpp.Blockchain.Chain.{Chain, new_chain, add_block, run_transactions}
use quids_evm_cpp.Blockchain.Chain.Blocks.{Executed, extended, add_block_iff}
use quids_evm_cpp.Blockchain.Chain.History.{add, submit, run, money, submitted, run_keeps}

-- Alice, [1], has 50.
abbrev idle : Executor Word256
idle = record {
  memory = [];
  stack = [];
  storage = [];
  gas_used = 0;
  gas_limit = 0;
  impl = record { balances = (1 ∷ [], 50) ∷ []; code = []; storage = [] };
}

abbrev paid : Executor Word256
paid = record idle { impl = record (idle.impl) { balances = (1 ∷ [], 30) ∷ (2 ∷ [], 20) ∷ [] } }

abbrev payment : Transaction
payment = record (new_transaction 0 []) { from = 1 ∷ []; to = 2 ∷ []; value = 20 }

abbrev too_much : Transaction
too_much = record payment { value = 60 }

abbrev good : Block
good = record new_block { hash = 5 ∷ []; prev_hash = 4 ∷ []; transactions = payment ∷ [] }

abbrev bad : Block
bad = record good { transactions = payment ∷ too_much ∷ [] }

abbrev start : Chain Word256
start = new_chain idle

pays : execute payment idle ≡ (true, paid)
unfolding execute
pays = refl

lacks : execute too_much paid ≡ (false, paid)
unfolding execute
lacks = refl

bad_verifies : verify_block bad ≡ true
unfolding verify_block verify_transactions verify_transaction
bad_verifies = refl

good_accepted : add_block good start ≡ (true, extended good start paid)
unfolding add_block run_transactions verify_block verify_transactions verify_transaction execute
good_accepted = refl

add_block_iff_example : (add_block good start ≡ (true, extended good start paid)) ↔ (
    (verify_block good ≡ true)
    × ((s : Executor Word256) × (Executed (payment ∷ []) idle s
          × (extended good start paid ≡ extended good start s))))
add_block_iff_example = add_block_iff good start (extended good start paid)

run_keeps_example :
    let chain = run (submit payment ∷ add bad ∷ add good ∷ []) (new_chain idle) in
    (chain.current_height ≡ length chain.blocks % u64_mod)
    × (money chain.executor ≡ 50)
    × (chain.pending_transactions ≡ submitted (submit payment ∷ add bad ∷ add good ∷ []))
run_keeps_example = run_keeps (submit payment ∷ add bad ∷ add good ∷ []) idle (omega arith)

-- ===== src/Lib.antt =====
-- A verification library for the C++ node of the QUIDS chain: the contract machine, the transactions
-- and the chain's records, in models that follow the source function by function.
--
-- Parts of the program, and the files that model them (paths from the repository's root):
--
--   src/evm/EVMExecutor.cpp         Evm/Executor.antt and Evm/Opcodes.antt. `execute_contract` runs
--                                   a code over a stack, a storage and a gas counter; `execute`
--                                   moves value between balances; `deploy` checks a code.
--   src/evm/Stack.cpp               Evm/Stack.antt: the operand stack, its top at the list's head.
--   src/evm/Memory.cpp              Evm/Memory.antt: the byte memory and the price of its growth.
--   src/evm/Storage.cpp             Evm/Storage.antt: the words of each contract.
--   src/evm/Address.cpp             Evm/Address.antt: the keys of the storage and their order.
--   include/evm/uint256.hpp         Evm/Uint256.antt: the 256-bit numbers, which come from Boost.
--   src/blockchain/Transaction.cpp  Blockchain/Transaction.antt: validation, costs, hashing, bytes.
--   src/blockchain/Block.cpp        Blockchain/Block.antt: the block and its check.
--   src/blockchain/Chain.cpp        Blockchain/Chain.antt: the blocks and the pending transactions over
--                                   one executor.
--   src/rollup/StateManager.cpp     Rollup/StateManager.antt, with Accounts.antt and Access.antt under
--                                   it: the accounts of the rollup, their histories and roots, and the
--                                   mutex. Table.antt under it is a specification of the calls on them. Decoding.antt under it reads an account from its bytes.
--   src/rollup/StateTransitionProof.cpp
--                                   Rollup/TransitionProof.antt: the proof's hash and binary form.
--   src/rollup/RollupStateTransition.cpp
--                                   Rollup/Transition.antt: the check of a transition between two
--                                   states, of a sequence of transactions, and the batch hash.
--   src/rollup/EmergencyExit.cpp    Rollup/EmergencyExit.antt: proofs of an account, and leaving.
--   src/rollup/MEVProtection.cpp    Rollup/MevProtection.antt: sandwiches in a batch, and its hash.
--   src/blockchain/AddressManager.cpp
--                                   Blockchain/AddressManager.antt: the accounts of addresses, with a
--                                   specification under it.
--   src/rollup/RollupTransactionAPI.cpp
--                                   Rollup/TransactionApi.antt: batches that clients submit, their
--                                   checks, and the threads that submit at once.
--   src/rollup/BatchProcessor.cpp   Rollup/BatchProcessor.antt: the queue of transactions, and the
--                                   workers that apply batches of it to a StateManager.
--   src/rollup/ParallelProcessor.cpp
--                                   Rollup/ParallelProcessor.antt: batches of independent transactions,
--                                   and the nonces that let them through.
--   src/storage/PersistentStorage.cpp
--                                   Storage.antt: transactions, proofs and block data in a database.
--   src/rollup/ProofAggregator.cpp  Rollup/ProofAggregator.antt: the Merkle root over proofs.
--   src/rollup/OptimisticAdapter.cpp
--                                   Rollup/OptimisticAdapter.antt: proofs that can be challenged.
--   src/rollup/FraudProof.cpp       Rollup/FraudProof.antt: proofs that a transition was wrong.
--   src/rollup/L1Bridge.cpp         Rollup/L1Bridge.antt: commitments of batches.
--   src/rollup/CrossRollupBridge.cpp
--                                   Rollup/CrossRollupBridge.antt: messages between rollups.
--   src/network/P2PNode.cpp         Network/P2pNode.antt: the connections of a node to its peers.
--
-- How they interact: Chain::addBlock hands each Transaction of a block to EVMExecutor::execute, which
-- changes the balances of its `impl_`. EVMExecutor::execute_contract owns a Stack and a Storage, which
-- SLOAD, SSTORE and the PUSHes use; it keeps both from one run to the next. Storage takes an Address as
-- its key, so the order of addresses must be a total order that agrees with equality. The rollup's
-- StateManager keeps its own accounts and applies Transactions to them; RollupStateTransition applies a
-- batch to a clone of a StateManager and compares roots, and EmergencyExit is to empty an account of a
-- StateManager. BatchProcessor applies the transactions of its batches to a StateManager, and
-- OptimisticAdapter those of a proof to a new one; FraudProof compares a claimed state with what a
-- clone of the old one becomes. PersistentStorage keeps StateTransitionProofs in their binary form.
--
-- How the models are built:
--
--   - A class is a record or the list it wraps; a member function takes the state and returns it.
--     A function that throws returns a result type that carries the exception and, in the executor,
--     the state at that moment, since the C++ keeps what was written before.
--   - Unsigned integers are natural numbers with the wrap of the machine written out (`% u64_mod`).
--   - std::map and std::unordered_map are association lists, Base/Dict.antt, over a decidable equality.
--     The order of the entries is that of the iteration, which a std::unordered_map leaves open; the
--     bytes of an account are the one place where it shows.
--   - What C++ leaves undefined is the value `undefined` of `Outcome`.
--   - `execute_contract` runs on fuel: one round more than the code has bytes. Every round moves the
--     program counter forward, so this is enough, and Evm/Executor/Gas.antt proves it.
--   - The members of the rollup's StateManager lock one std::shared_mutex and call one another. The
--     models take the way in which the thread holds the mutex, and locking it again is `undefined`.
--     Every member that looks up the accounts of a transaction does so, and with it BatchProcessor,
--     OptimisticAdapter, FraudProof and RollupStateTransition: Rollup/Relocking.antt. The statements behind such a lock
--     are written out and never reached. What BatchProcessor itself does is stated over any state
--     manager.
--   - The loop of compute_proof_merkle_root runs on fuel, one round more than there are proofs. A round
--     leaves half of the hashes, so this is enough, and Rollup/ProofAggregator/Tree.antt proves it. A
--     worker of BatchProcessor runs for a number of rounds; Rollup/BatchProcessor/Delivery.antt says
--     how many empty the queue.
--   - Threads are step relations, whose runs are sequences of locked sections in any order:
--     `Rollup.BatchProcessor.Step` and `Rollup.TransactionApi.Step`. A condition variable's wait ends
--     when the environment says so.
--   - Parameters: the Boost integers (the record `Uint256`, with a concrete instance in
--     Evm/Uint256/Model.antt), BLAKE3 and SHA-256 (functions on bytes), the clock, the database (the
--     record `Database` of Storage.antt), a connection to a peer (the record `Connection` of
--     Network/P2pNode.antt), and what FraudProof computes in floating point: the test of a difference
--     and the proofs about it.
--   - EmergencyExit's encode_state is `undefined`: it asks for a state of 128 qubits, whose size the
--     constructor computes as 1 << 128 in an int.
--   - The repository's tests and the code differ in places, for example in what a transfer from an
--     empty account does; the models follow the code.
--
-- Not modelled: signatures and key generation, which call OpenSSL and Falcon; the network but for the
-- node's map of connections; the threads that execute contracts, and the lock-free queue; the quantum
-- simulation and the learning agents, which compute in floating point; the consensus, whose file does
-- not compile against its header; logging and text output.
pub mod Base
pub mod Blockchain
pub mod Evm
pub mod Network
pub mod Rollup
pub mod Storage

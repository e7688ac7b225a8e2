-- ===== src/Rollup/Relocking/Tests.antt =====
-- One transaction, given to each of the parts
use quids_evm_cpp.Base.{false, [], ◌∷◌}
use quids_evm_cpp.Blockchain.Transaction.{Transaction, new_transaction}
use quids_evm_cpp.Rollup.StateManager.{State, new_state}
use quids_evm_cpp.Rollup.BatchProcessor.{BatchProcessor}
use quids_evm_cpp.Rollup.OptimisticAdapter.{OptimisticProof}
use quids_evm_cpp.Rollup.FraudProof as Fraud
use quids_evm_cpp.Rollup.FraudProof.{InvalidTransitionProof}

abbrev tx : Transaction
tx = new_transaction 0 []

abbrev state : State
state = new_state (λ b. b)

abbrev optimistic : OptimisticProof
optimistic = record {
  zk_proof = record {
    pre_state_root = [];
    post_state_root = [];
    transactions = tx ∷ [];
    proof_data = [];
    timestamp = 0;
    batch_number = 0;
    batch_hash = [];
  };
  challenge_period_end = 9;
  has_fraud_proof = false;
}

abbrev fraud : InvalidTransitionProof
fraud = record {
  pre_state_root = [];
  post_state_root = [];
  transactions = tx ∷ [];
  pre_state = state;
  post_state = state;
  validity_proof = [];
}

abbrev waiting : BatchProcessor
waiting = record {
  config = record { max_batch_size = 2; min_batch_size = 1 };
  pending_transactions = tx ∷ [];
  should_stop = false;
}

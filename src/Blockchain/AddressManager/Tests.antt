-- ===== src/Blockchain/AddressManager/Tests.antt =====
-- Two accounts and a registered state.
use quids_evm_cpp.Base.{ℕ, ◌≡◌, refl, false, List, [], ◌∷◌, Bytes, list_eq, nat_eq, arith}
use quids_evm_cpp.Blockchain.AddressManager.{
  Impl, new_account, transfer, get_balance, is_contract_account,
}
use quids_evm_cpp.Blockchain.AddressManager.Transfers.{supply, accepts, transfer_conserves}
use quids_evm_cpp.Blockchain.AddressManager.Specification.{
  Call, creates, transfers, deletes, spec_run,
}
use quids_evm_cpp.Blockchain.AddressManager.Refinement.{run, view, run_simulates}

abbrev alice : Bytes
alice = 1 ∷ []

abbrev bob : Bytes
bob = 2 ∷ []

-- States and proofs are numbers here.
abbrev impl : Impl ℕ ℕ
impl = record {
  accounts = (alice, new_account alice 50) ∷ (bob, new_account bob 7) ∷ [];
  quantum_states = (alice, 3) ∷ [];
  stored_proofs = [];
}

moved_ten : get_balance bob (transfer alice bob 10 impl).1 ≡ 17
unfolding get_balance transfer
moved_ten = refl

no_code : is_contract_account alice impl ≡ false
unfolding is_contract_account
no_code = refl

transfer_conserves_example :
    let (done, impl') = transfer alice bob 10 impl in
    (supply impl'.accounts ≡ supply impl.accounts) × (done ≡ accepts alice bob 10 impl)
transfer_conserves_example = transfer_conserves alice bob 10 impl (omega arith)

abbrev calls : List (Call ℕ ℕ)
calls = creates alice 4 ∷ transfers alice bob 10 ∷ deletes alice ∷ []

run_simulates_example :
    let (answers, impl') = run calls impl in (answers, view impl') ≡ spec_run calls (view impl)
run_simulates_example = run_simulates calls impl

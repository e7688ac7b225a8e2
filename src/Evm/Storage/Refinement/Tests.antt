-- ===== src/Evm/Storage/Refinement/Tests.antt =====
-- A storage with words that are plain numbers.
use quids_evm_cpp.Base.{ℕ, ◌≡◌, refl, true, false, none, some, List, [], ◌∷◌, nat_eq}
use quids_evm_cpp.Evm.Address.{Address, less}
use quids_evm_cpp.Evm.Address.Order.{address_eq}
use quids_evm_cpp.Evm.Storage.{Words, load, store, contains, clear_account}
use quids_evm_cpp.Evm.Storage.Refinement.{
  Call, stores, clears_account, held, spec_run, run, run_refines,
}

abbrev alice : Address
alice = record { bytes = 1 ∷ [] }

abbrev bob : Address
bob = record { bytes = 2 ∷ [] }

abbrev history : List (Call ℕ)
history = stores alice 7 70 ∷ stores bob 7 71 ∷ clears_account bob ∷ stores alice 7 72 ∷ []

load_after : load 0 alice 7 (run [] history) ≡ 72
unfolding load run store clear_account less
load_after = refl

run_refines_example :
    let cell = spec_run (held []) history bob 7 in
    (load 0 bob 7 (run [] history) ≡ (elim cell [ none ↦ 0 | some value ↦ value ]))
    × (contains bob 7 (run [] history) ≡ (elim cell [ none ↦ false | some _ ↦ true ]))
run_refines_example = run_refines 0 [] history bob 7

abbrev single : Words ℕ
single = (alice, (7, 70) ∷ []) ∷ []

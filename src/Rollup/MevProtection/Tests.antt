-- ===== src/Rollup/MevProtection/Tests.antt =====
-- A sandwich: two transactions from [1] to [9] around one of [2].
use quids_evm_cpp.Base.{◌≡◌, refl, true, false, [], ◌∷◌}
use quids_evm_cpp.Blockchain.Transaction.{Transaction, new_transaction}
use quids_evm_cpp.Rollup.MevProtection.{sandwiched, detect_sandwich_attack}

abbrev outer : Transaction
outer = record (new_transaction 0 (7 ∷ [])) { from = 1 ∷ []; to = 9 ∷ [] }

abbrev victim : Transaction
victim = record (new_transaction 0 (8 ∷ [])) { from = 2 ∷ []; to = 9 ∷ [] }

reported : detect_sandwich_attack victim (outer ∷ victim ∷ outer ∷ []) ≡ true
unfolding detect_sandwich_attack sandwiched
reported = refl

not_at_the_end : detect_sandwich_attack victim (outer ∷ outer ∷ victim ∷ []) ≡ false
unfolding detect_sandwich_attack sandwiched
not_at_the_end = refl

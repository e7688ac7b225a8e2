-- ===== src/Rollup/StateManager/Root.antt =====
-- The root and the order of the hash table of accounts
use quids_evm_cpp.Base.{
  ◌≡◌, ◌≢◌, refl, sym, ap, ◌∙◌, true, [], ◌∷◌, Bytes, arith, Bool-cases, inl, inr,
}
use quids_evm_cpp.Base.Dict.{Dict}
use quids_evm_cpp.Evm.Address.{lexicographical_compare}
use quids_evm_cpp.Evm.Address.Order.{compare_asymm, compare_trans, compare_connected}
use quids_evm_cpp.Rollup.StateManager.Accounts.{
  Account, insert_sorted, sort_accounts, serialize_accounts, calculate_state_root,
}

-- Two tables with the same entries, a storage in an entry iterated alike: neighbours change places, as long as their keys differ.
pub data SameTable : Dict Bytes Account → Dict Bytes Account → Type 0 where
  nothing : SameTable [] []
  keep :
      (entry : Bytes × Account) {a b : Dict Bytes Account}
      → SameTable a b
      → SameTable (entry ∷ a) (entry ∷ b)
  exchange :
      (x y : Bytes × Account) (a : Dict Bytes Account)
      → x.0 ≢ y.0
      → SameTable (x ∷ y ∷ a) (y ∷ x ∷ a)
  chain : {a b c : Dict Bytes Account} → SameTable a b → SameTable b c → SameTable a c

-- Of two entries in order, the one in front may be put in first or last.
insert_ordered :
    (x y : Bytes × Account) (a : Dict Bytes Account)
    → lexicographical_compare x.0 y.0 ≡ true
    → insert_sorted x (insert_sorted y a) ≡ insert_sorted y (insert_sorted x a)
unfolding insert_sorted
insert_ordered x y [] h = ground (arith, h, compare_asymm x.0 y.0 h)
insert_ordered x y (first ∷ a) h =
    ground
      (arith, h, compare_asymm x.0 y.0 h, compare_trans first.0 x.0 y.0, insert_ordered x y a h)

insert_exchange :
    (x y : Bytes × Account) (a : Dict Bytes Account)
    → x.0 ≢ y.0
    → insert_sorted x (insert_sorted y a) ≡ insert_sorted y (insert_sorted x a)
insert_exchange x y a differ = elim (Bool-cases (lexicographical_compare x.0 y.0)) [
  | inl less ↦ insert_ordered x y a less
  | inr not_less ↦ elim (Bool-cases (lexicographical_compare y.0 x.0)) [
    | inl more ↦ sym (insert_ordered y x a more)
    | inr not_more ↦ elim (differ (compare_connected x.0 y.0 not_less not_more)) [ ]
  ]
]

sort_accounts-SameTable :
    (a b : Dict Bytes Account) → SameTable a b → sort_accounts a ≡ sort_accounts b
unfolding sort_accounts
sort_accounts-SameTable _ _ nothing = refl
sort_accounts-SameTable _ _ (keep entry {a = a} {b = b} same) =
    ap (insert_sorted entry) (sort_accounts-SameTable a b same)
sort_accounts-SameTable _ _ (exchange x y a differ) = insert_exchange x y (sort_accounts a) differ
sort_accounts-SameTable a c (chain {b = b} left right) =
    sort_accounts-SameTable a b left ∙ sort_accounts-SameTable b c right

-- Two tables of accounts that differ only in the order in which they are iterated have the same
-- root, each key coming once. An account here is its fields and its storage as it is iterated: the
-- bytes hashed hold that order too.
pub calculate_state_root-SameTable :
    (blake3 : Bytes → Bytes) (a b : Dict Bytes Account)
    → SameTable a b
    → calculate_state_root blake3 a ≡ calculate_state_root blake3 b
unfolding calculate_state_root
calculate_state_root-SameTable blake3 a b same =
    ap (λ accounts. blake3 (serialize_accounts accounts)) (sort_accounts-SameTable a b same)

-- ===== src/Evm/Address/Order/Tests.antt =====
-- The order of addresses at concrete ones.
use quids_evm_cpp.Base.{◌≡◌, refl, [], ◌∷◌, true}
use quids_evm_cpp.Evm.Address.{Address, less, hash}

abbrev one : Address
one = record { bytes = 1 ∷ 200 ∷ [] }

abbrev two : Address
two = record { bytes = 1 ∷ 201 ∷ [] }

abbrev three : Address
three = record { bytes = 2 ∷ 0 ∷ [] }

less_by_second_byte : less one two ≡ true
unfolding less
less_by_second_byte = refl

hash_two_bytes : hash one ≡ 231
unfolding hash
hash_two_bytes = refl

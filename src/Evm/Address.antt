-- ===== src/Evm/Address.antt =====
-- src/evm/Address.cpp and include/evm/Address.hpp: an account's address, and the orders on it.
pub mod Order
use quids_evm_cpp.Base.{
  ℕ, ◌+◌, ◌*◌, ◌%◌, List, [], ◌∷◌, Bool, true, false, not, Bytes, u64_mod, ltb, list_beq, nat_eq,
  if◌then◌else◌,
}

-- `bytes`, a std::array<uint8_t, 20>
pub record Address : Type 0 where
  pub bytes : Bytes

-- std::lexicographical_compare
unfoldable pub lexicographical_compare : Bytes → Bytes → Bool
lexicographical_compare [] [] = false
lexicographical_compare [] (b ∷ bs) = true
lexicographical_compare (a ∷ as') [] = false
lexicographical_compare (a ∷ as') (b ∷ bs) =
    if ltb a b then true else if ltb b a then false else lexicographical_compare as' bs

unfoldable pub equal : Address → Address → Bool
equal a b = list_beq a.bytes b.bytes

unfoldable pub less : Address → Address → Bool
unfolding lexicographical_compare
less a b = lexicographical_compare a.bytes b.bytes

unfoldable pub not_equal : Address → Address → Bool
unfolding equal
not_equal a b = not (equal a b)

unfoldable pub greater : Address → Address → Bool
unfolding less
greater a b = less b a

unfoldable pub less_equal : Address → Address → Bool
unfolding less
less_equal a b = not (less b a)

unfoldable pub greater_equal : Address → Address → Bool
unfolding less
greater_equal a b = not (less a b)

-- The loop of std::hash<evm::Address>
unfoldable pub hash_loop : ℕ → Bytes → ℕ
hash_loop h [] = h
hash_loop h (b ∷ bs) = hash_loop ((h * 31 + b) % u64_mod) bs

unfoldable pub hash : Address → ℕ
unfolding hash_loop
hash addr = hash_loop 0 addr.bytes

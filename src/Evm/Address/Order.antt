-- ===== src/Evm/Address/Order.antt =====
-- The comparisons of addresses form one strict total order that agrees with their equality, which
-- is what a std::map keyed by them relies on.
mod Tests
use quids_evm_cpp.Base.{
  ℕ, ◌≡◌, ◌↔◌, refl, ap, List, [], ◌∷◌, Bool, true, false, not, ◌&&◌, ◌||◌, nat_eq, arith, Bytes,
  Eq, ltb, list_beq, list_beq_iff, if◌then◌else◌, beq_iff,
}
use quids_evm_cpp.Evm.Address.{
  Address, lexicographical_compare, equal, less, not_equal, greater, less_equal, greater_equal,
}

compare_irrefl : (a : Bytes) → lexicographical_compare a a ≡ false
unfolding lexicographical_compare
compare_irrefl [] = refl
compare_irrefl (x ∷ a) = ground (arith, compare_irrefl a)

pub compare_asymm :
    (a b : Bytes) → lexicographical_compare a b ≡ true → lexicographical_compare b a ≡ false
unfolding lexicographical_compare
compare_asymm [] [] h = refl
compare_asymm [] (y ∷ b) h = refl
compare_asymm (x ∷ a) [] h = cc
compare_asymm (x ∷ a) (y ∷ b) h = ground (arith, compare_asymm a b)

pub compare_trans :
    (a b c : Bytes)
    → lexicographical_compare a b ≡ true
    → lexicographical_compare b c ≡ true
    → lexicographical_compare a c ≡ true
unfolding lexicographical_compare
compare_trans [] [] [] h k = h
compare_trans [] [] (z ∷ c) h k = refl
compare_trans [] (y ∷ b) [] h k = k
compare_trans [] (y ∷ b) (z ∷ c) h k = refl
compare_trans (x ∷ a) [] c h k = cc
compare_trans (x ∷ a) (y ∷ b) [] h k = k
compare_trans (x ∷ a) (y ∷ b) (z ∷ c) h k = ground (arith, compare_trans a b c)

pub compare_connected :
    (a b : Bytes)
    → lexicographical_compare a b ≡ false
    → lexicographical_compare b a ≡ false
    → a ≡ b
unfolding lexicographical_compare
compare_connected [] [] h k = refl
compare_connected [] (y ∷ b) h k = cc
compare_connected (x ∷ a) [] h k = cc
compare_connected (x ∷ a) (y ∷ b) h k = ground (arith, compare_connected a b)

compare_eq :
    (a b : Bytes)
    → list_beq a b ≡ (not (lexicographical_compare a b) && not (lexicographical_compare b a))
unfolding lexicographical_compare
compare_eq [] [] = refl
compare_eq [] (y ∷ b) = refl
compare_eq (x ∷ a) [] = refl
compare_eq (x ∷ a) (y ∷ b) = ground (arith, compare_eq a b)

bytes_ext : (a b : Address) → a.bytes ≡ b.bytes → a ≡ b
bytes_ext a b e = λ i. record { bytes = e i }

pub equal_iff : (a b : Address) → (equal a b ≡ true) ↔ (a ≡ b)
unfolding equal
equal_iff a b = (
  λ h. bytes_ext a b ((list_beq_iff a.bytes b.bytes).0 h),
  λ e. (list_beq_iff a.bytes b.bytes).1 (ap (λ (x : Address). x.bytes) e),
)

-- The key comparison of std::map<Address, …>: neither is less.
abbrev pub equivalent : Address → Address → Bool
equivalent a b = not (less a b) && not (less b a)

pub equivalent_iff : (a b : Address) → (equivalent a b ≡ true) ↔ (a ≡ b)
unfolding less
equivalent_iff a b = (
  λ h. bytes_ext a b (compare_connected a.bytes b.bytes (ground arith) (ground arith)),
  λ e.
      let e' : a.bytes ≡ b.bytes = ap (λ (x : Address). x.bytes) e in
      ground (arith, compare_irrefl a.bytes),
)

instance abbrev pub address_eq : Eq Address
address_eq = record { beq = equivalent; beq_iff = equivalent_iff }

-- The strict order is transitive, holds of no address and itself and never both ways; two
-- addresses that it does not order are equal, and operator== says so. The other comparisons are
-- the strict order's converse and their negations.
pub less_total_order :
    (a b c : Address)
    → (less a b ≡ true → less b c ≡ true → less a c ≡ true)
      × (less a a ≡ false)
      × (less a b ≡ true → less b a ≡ false)
      × (equal a b ≡ (not (less a b) && not (less b a)))
      × (less_equal a b ≡ (less a b || equal a b))
      × (greater_equal a b ≡ (greater a b || equal a b))
      × (not_equal a b ≡ (less a b || greater a b))
unfolding less equal not_equal greater less_equal greater_equal
less_total_order a b c = (
  compare_trans a.bytes b.bytes c.bytes,
  compare_irrefl a.bytes,
  compare_asymm a.bytes b.bytes,
  compare_eq a.bytes b.bytes,
  ground (arith, compare_eq a.bytes b.bytes, compare_asymm a.bytes b.bytes),
  ground (arith, compare_eq a.bytes b.bytes, compare_asymm a.bytes b.bytes),
  ground (arith, compare_eq a.bytes b.bytes, compare_asymm a.bytes b.bytes),
)

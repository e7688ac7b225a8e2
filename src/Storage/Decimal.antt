-- ===== src/Storage/Decimal.antt =====
-- std::to_string of a uint64_t, which has at most 20 digits, and that it tells numbers apart.
use quids_evm_cpp.Base.{
  ℕ, zero, suc, ◌+◌, ◌-◌, ◌*◌, ◌/◌, ◌%◌, ◌^◌, ◌<◌, ◌≡◌, refl, sym, ap, ◌∙◌, Bool-cases, inl, inr,
  [], ◌∷◌, ◌++◌, Bytes, u64_mod, ltb, if◌then◌else◌, arith,
}
use native.Mathlib.Nat.{pow-succ'}

-- The digits, on fuel: a round for a digit
unfoldable pub digits : (fuel n : ℕ) → Bytes
digits zero n = []
digits (suc fuel) n =
    let front = digits fuel (n / 10) in
    if ltb n 10 then (48 + n) ∷ [] else front ++ ((48 + n % 10) ∷ [])

unfoldable pub to_string : ℕ → Bytes
unfolding digits
to_string n = digits 20 n

-- The number that digits stand for, behind those that stand for `n`
read_digits : ℕ → Bytes → ℕ
read_digits n [] = n
read_digits n (d ∷ bytes) = read_digits (10 * n + (d - 48)) bytes

read_digits-append :
    (n : ℕ) (xs ys : Bytes) → read_digits n (xs ++ ys) ≡ read_digits (read_digits n xs) ys
unfolding read_digits
read_digits-append n [] ys = refl
read_digits-append n (d ∷ xs) ys = read_digits-append (10 * n + (d - 48)) xs ys

read_digits-digits : (fuel n : ℕ) → n < 10 ^ fuel → read_digits 0 (digits fuel n) ≡ n
unfolding digits read_digits
read_digits-digits zero n h = omega arith
read_digits-digits (suc fuel) n h = elim (Bool-cases (ltb n 10)) [
  | inl small ↦ rw small (omega arith)
  | inr large ↦
      let bound : n < 10 * 10 ^ fuel = rw (pow-succ' 10 fuel) at h in
      let front = read_digits-digits fuel (n / 10) (omega (arith, bound)) in
      rw large (
        read_digits-append 0 (digits fuel (n / 10)) ((48 + n % 10) ∷ [])
        ∙ (ap (λ k. 10 * k + (48 + n % 10 - 48)) front ∙ omega arith))
]

pub to_string-injective : (a b : ℕ) → a < u64_mod → b < u64_mod → to_string a ≡ to_string b → a ≡ b
unfolding to_string
to_string-injective a b ha hb h =
    sym (read_digits-digits 20 a (omega (arith, ha)))
    ∙ (ap (read_digits 0) h ∙ read_digits-digits 20 b (omega (arith, hb)))

-- ===== src/Evm/Executor/Push.antt =====
-- The word that a PUSH reads from the code.
use native.Mathlib.Nat.{pow-succ', pow-le-pow_right, mod-eq_of_lt}
use quids_evm_cpp.Base.{
  ℕ, zero, suc, ◌+◌, ◌*◌, ◌^◌, ◌≤◌, ◌<◌, ◌≡◌, ◌∙◌, [], ◌∷◌, arith, Bytes, AreBytes, u64_mod, length,
  get_or, take, drop, take-drop, length-take, length-drop, min, ◌-◌,
}
use quids_evm_cpp.Evm.Uint256.{Uint256, word_mod}
use quids_evm_cpp.Evm.Stack
use quids_evm_cpp.Evm.Opcodes.{verylow}
use quids_evm_cpp.Evm.Executor.{Executor, push_value, run_push, ok, goes}

-- The number that bytes spell, the highest byte first.
abbrev pub be_value : Bytes → ℕ
be_value [] = 0
be_value (b ∷ bytes) = b * 256 ^ length bytes + be_value bytes

byte_lt : (code : Bytes) (i : ℕ) → AreBytes code → get_or code i 0 < 256
byte_lt [] i h = omega arith
byte_lt (b ∷ code) zero h = h.0
byte_lt (b ∷ code) (suc i) h = byte_lt code i h.1

pow_pos : (n : ℕ) → 1 ≤ 256 ^ n
pow_pos zero = omega arith
pow_pos (suc n) = rw (pow-succ' 256 n) (omega (arith, pow_pos n))

-- With `v` so far and `m` bytes to come after this one there is room for one byte more.
room : (v m : ℕ) → (v + 1) * 256 ^ suc m ≤ word_mod → (v * 256 + 256) * 256 ^ m ≤ word_mod
room v m h =
    let h' : (v + 1) * (256 * 256 ^ m) ≤ word_mod = rw (pow-succ' 256 m) at h in omega arith

fits : (a p : ℕ) → 1 ≤ p → a * p ≤ word_mod → a ≤ word_mod
fits a p one h = grind arith

less_room : (a b p : ℕ) → b < 256 → (a + 256) * p ≤ word_mod → (a + b + 1) * p ≤ word_mod
less_room a b p hb h = grind arith

enough : (n i l : ℕ) → i + suc n ≤ l → min n (l - (i + 1)) ≡ n
enough n i l h = omega arith

regroup : (v b p w t : ℕ) → w ≡ v * 256 + b → w * p + t ≡ v * (256 * p) + (b * p + t)
regroup v b p w t e = rw e (omega arith)

module _ (W : Uint256) where
  -- The word after one more byte, while there is room for it.
  next_word :
      (w : W.Word) (b : ℕ)
      → b < 256
      → W.value w * 256 + 256 ≤ word_mod
      → W.value (W.bit_or (W.shl8 w) (W.of_u64 b)) ≡ W.value w * 256 + b
  next_word w b hb h =
      let shifted : W.value (W.shl8 w) ≡ W.value w * 256 =
        W.value-shl8 w ∙ mod-eq_of_lt (omega arith) in
      let byte : W.value (W.of_u64 b) ≡ b = W.value-of_u64 b (omega arith) in
      W.value-bit_or (W.shl8 w) (W.of_u64 b) (omega arith) (omega arith) ∙ omega arith

  push_value-be_value :
      (n i : ℕ) (code : Bytes) (w : W.Word)
      → AreBytes code
      → i + n ≤ length code
      → (W.value w + 1) * 256 ^ n ≤ word_mod
      → W.value (push_value W n i code w) ≡ W.value w * 256 ^ n + be_value (take n (drop i code))
  unfolding push_value
  push_value-be_value zero i code w bytes h room_left = omega arith
  push_value-be_value (suc n) i code w bytes h room_left =
      let b : ℕ = get_or code i 0 in
      let wide : (W.value w * 256 + 256) * 256 ^ n ≤ word_mod = room (W.value w) n room_left in
      let step : W.value (W.bit_or (W.shl8 w) (W.of_u64 b)) ≡ W.value w * 256 + b =
        next_word w b (byte_lt code i bytes) (fits _ (256 ^ n) (pow_pos n) wide) in
      rw
        (
          take-drop n i code 0 (omega arith),
          length-take n (drop (i + 1) code),
          length-drop (i + 1) code,
          enough n i (length code) h,
          pow-succ' 256 n,
        )
        (push_value-be_value n (i + 1) code _ bytes (omega arith)
            (rw step (less_room (W.value w * 256) b (256 ^ n) (byte_lt code i bytes) wide))
          ∙ regroup (W.value w) b (256 ^ n) _ _ step)

  -- A PUSH of up to 32 bytes that the code holds pushes the number that those bytes spell, the
  -- highest first, if there is gas and room on the stack; and it goes on behind them.
  pub run_push_reads :
      (n pc : ℕ) (code : Bytes) (s : Executor W.Word)
      → n ≤ 32
      → AreBytes code
      → pc + n < length code
      → s.gas_used + verylow ≤ s.gas_limit
      → s.gas_limit < u64_mod
      → length s.stack < Stack.limit
      → (w : W.Word) × (run_push W n code pc s
          ≡ ok (
            goes (pc + n + 1),
            record s { stack = w ∷ s.stack; gas_used = s.gas_used + verylow },
          ))
        × (W.value w ≡ be_value (take n (drop (pc + 1) code)))
  unfolding run_push Stack.push
  run_push_reads n pc code s small bytes inside gas limit space =
      let start : W.value (W.of_u64 0) ≡ 0 = W.value-of_u64 0 (omega arith) in
      let top : (0 + 1) * 256 ^ n ≤ word_mod =
        omega (arith, pow-le-pow_right {n = 256} (omega arith) {i = n} {j = 32} small) in
      (
        push_value W n (pc + 1) code (W.of_u64 0),
        ground arith,
        push_value-be_value n (pc + 1) code (W.of_u64 0) bytes (omega arith) (rw start top)
            ∙ rw start (omega arith),
      )

-- ===== src/Ir/Fold/Width.antt =====
-- Masks and sign extension at a width from 1 to 64, in plain arithmetic.
use native.Mathlib.Nat.{pow-suc, one-le-pow, mod-mod_of_dvd, add-mul-mod_self_left, mod-eq_of_lt}
use native.Mathlib.Nat.{pow-le-pow_right}
use native.Mathlib.Decide.{dec_lt}
use liric.Base.{ℕ, zero, suc, ◌+◌, ◌*◌, ◌-◌, ◌%◌, ◌^◌, ◌≤◌, ◌<◌, ◌≡◌, ◌∙◌, ap, sym, arith}
use liric.Base.{ltb, if◌then◌else◌, u64, sub64, bit_and, bit_xor}
use liric.Base.Bits.{bit_and_mask, bit_xor_sign_low, bit_xor_sign_high}
use liric.Ir.Integer.{mask_for_bits, to_unsigned_bits, sign_extend_bits}

pub pow_congr : (a b : ℕ) → a ≡ b → 2 ^ a ≡ 2 ^ b
pow_congr a b e = ap (λ (t : ℕ). 2 ^ t) e

pub pow_split : (w k : ℕ) → 2 ^ (w + k) ≡ 2 ^ w * 2 ^ k
pow_split w zero = pow_congr (w + 0) w (omega arith) ∙ omega arith
pow_split w (suc k) =
    pow_congr (w + suc k) (suc (w + k)) (omega arith)
    ∙ omega (arith, pow-suc 2 (w + k), pow_split w k, ap (λ (t : ℕ). 2 ^ w * t) (pow-suc 2 k))

module _ (w k : ℕ) (width : w ≡ suc k) (hi : w ≤ 64) where
  -- The width's range is twice its sign bit, and divides 2 ^ 64.
  pub half : 2 ^ w ≡ 2 * 2 ^ k
  half = pow_congr w (suc k) width ∙ omega (arith, pow-suc 2 k)

  pub word_split : 2 ^ w * 2 ^ (64 - w) ≡ 2 ^ 64
  word_split = sym (pow_split w (64 - w)) ∙ pow_congr (w + (64 - w)) 64 (omega arith)

  pub range_le : 2 ^ w ≤ 2 ^ 64
  range_le = pow-le-pow_right (omega arith) hi

  pub sign_pos : 1 ≤ 2 ^ k
  sign_pos = one-le-pow k 2 (omega arith)

  pub u64-mod : (n : ℕ) → u64 n % 2 ^ w ≡ n % 2 ^ w
  u64-mod n = mod-mod_of_dvd (2 ^ w) n ∣ (2 ^ (64 - w), sym word_split) ∣₁

  -- A multiple of the range that is a word less one range.
  pub wrap-mod : (n : ℕ) → (n + 2 ^ 64) % 2 ^ w ≡ n % 2 ^ w
  wrap-mod n = rw (← word_split) (add-mul-mod_self_left n (2 ^ w) (2 ^ (64 - w)))

  pub wrap-mod_less : (n : ℕ) → (n + 2 ^ 64 - 2 ^ w) % 2 ^ w ≡ n % 2 ^ w
  wrap-mod_less n =
      ap (λ (t : ℕ). t % 2 ^ w) less ∙ add-mul-mod_self_left n (2 ^ w) (2 ^ (64 - w) - 1)
    where
      some_more : 2 ^ (64 - w) ≡ 2 ^ (64 - w) - 1 + 1
      some_more = omega (arith, one-le-pow (64 - w) 2 (omega arith))

      less : n + 2 ^ 64 - 2 ^ w ≡ n + 2 ^ w * (2 ^ (64 - w) - 1)
      less = omega (arith, word_split, ap (λ (t : ℕ). 2 ^ w * t) some_more)

  pub mask_value : mask_for_bits w ≡ 2 ^ w - 1
  mask_value = elim (dec_lt w 64) [
    | yes h ↦ ground arith
    | no h ↦ let full : 2 ^ 64 ≡ 2 ^ w = pow_congr 64 w (omega arith) in ground (arith, full)
  ]

  pub mask_lem : (v : ℕ) → bit_and v (mask_for_bits w) ≡ v % 2 ^ w
  mask_lem v = rw mask_value (bit_and_mask w v)

  pub to_unsigned_lem : (v : ℕ) → to_unsigned_bits v w ≡ v % 2 ^ w
  unfolding to_unsigned_bits
  to_unsigned_lem v = mask_lem v

  -- Below 64 bits: the two moves by the sign bit.
  narrow :
      (x : ℕ)
      → x < 2 ^ w
      → sub64 (bit_xor x (2 ^ k)) (2 ^ k) ≡ (if ltb x (2 ^ k) then x else x + 2 ^ 64 - 2 ^ w)
  narrow x h = elim (dec_lt x (2 ^ k)) [
    | yes low ↦ ground (arith, bit_xor_sign_low k x low, half, range_le)
    | no high ↦
        let back : x ≡ x - 2 ^ k + 2 ^ k = omega arith in
        let flip : bit_xor x (2 ^ k) ≡ x - 2 ^ k =
          ap (λ (t : ℕ). bit_xor t (2 ^ k)) back
          ∙ bit_xor_sign_high k (x - 2 ^ k) (omega (arith, half)) in
        ground (arith, flip, half, range_le)
  ]

  pub sign_extend_lem :
      (x : ℕ) → x < 2 ^ w → sign_extend_bits x w ≡ (if ltb x (2 ^ k) then x else x + 2 ^ 64 - 2 ^ w)
  unfolding sign_extend_bits
  sign_extend_lem x h = elim (dec_lt w 64) [
    | yes small ↦
        let masked : bit_and x (mask_for_bits w) ≡ x = mask_lem x ∙ mod-eq_of_lt h in
        let sign : 2 ^ (w - 1) ≡ 2 ^ k = pow_congr (w - 1) k (omega arith) in
        let chosen : sign_extend_bits x w
            ≡ sub64 (bit_xor (bit_and x (mask_for_bits w)) (2 ^ (w - 1))) (2 ^ (w - 1)) =
          ground arith in
        chosen ∙ rw (masked, sign) (narrow x h)
    | no large ↦ let full : 2 ^ 64 ≡ 2 ^ w = pow_congr 64 w (omega arith) in ground (arith, full)
  ]

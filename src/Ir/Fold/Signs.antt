-- ===== src/Ir/Fold/Signs.antt =====
-- The sign, the magnitude and the C operators on sign-extended words, by the numbers they stand for.
use native.Mathlib.Nat.{mod-eq_of_lt, div-le_self, mod-le, pow-le-pow_right}
use native.Mathlib.Decide.{dec_lt}
use liric.Base.{ℕ, zero, suc, ◌+◌, ◌-◌, ◌/◌, ◌%◌, ◌^◌, ◌≤◌, ◌<◌, ◌≡◌, refl, ◌∙◌, ap, sym, arith}
use liric.Base.{true, false}
use liric.Base.Int.{pos, negsuc}
use liric.Ir.Integer.{sign_extend_bits, is_negative, magnitude, with_sign, divide_signed}
use liric.Ir.Integer.{remainder_signed, shift_right_signed}
use liric.Ir.Fold.Semantics.{signed, word, negate, quotient, remainder, floor_shift}
use liric.Ir.Fold.Width.{sign_extend_lem, half, range_le, pow_congr, u64-mod, wrap-mod_less}

-- What the code computes of a sign-extended word: its sign and its magnitude.
pub data Signs (w x e : ℕ) : Type 0 where
  low :
      signed w x ≡ pos x → e ≡ x → is_negative e ≡ false → magnitude e ≡ x → x ≤ 2 ^ w → Signs w x e
  high :
      (m : ℕ)
      → signed w x ≡ negsuc m
      → e + suc m ≡ 2 ^ 64
      → is_negative e ≡ true
      → magnitude e ≡ suc m
      → suc m < 2 ^ w + 1
      → Signs w x e

module _ (w k : ℕ) (width : w ≡ suc k) (hi : w ≤ 64) where
  sign_le : 2 ^ k ≤ 2 ^ 63
  sign_le =
      let base : 1 ≤ 2 = omega arith in let top : k ≤ 63 = omega arith in pow-le-pow_right base top

  sign_bit : 2 ^ (w - 1) ≡ 2 ^ k
  sign_bit = pow_congr (w - 1) k (omega arith)

  pub signs : (x : ℕ) → x < 2 ^ w → Signs w x (sign_extend_bits x w)
  signs x h = elim (dec_lt x (2 ^ k)) [
    | yes small ↦
        let e : sign_extend_bits x w ≡ x = ground (arith, sign_extend_lem w k width hi x h) in
        low (ground (arith, sign_bit)) e (ground (arith, e, sign_le)) (ground (arith, e, sign_le))
          (omega arith)
    | no large ↦
        let e : sign_extend_bits x w ≡ x + 2 ^ 64 - 2 ^ w =
          ground (arith, sign_extend_lem w k width hi x h) in
        high (2 ^ w - x - 1) (ground (arith, sign_bit)) (omega (arith, e, range_le w k width hi))
          (ground (arith, e, sign_le, half w k width hi, range_le w k width hi))
          (ground (arith, e, sign_le, half w k width hi, range_le w k width hi)) (omega arith)
  ]

  pub complement_lem : (q : ℕ) → q < 2 ^ w → (2 ^ 64 - 1 - q) % 2 ^ w ≡ 2 ^ w - 1 - q
  complement_lem q h =
      ap (λ (t : ℕ). t % 2 ^ w) shift
      ∙ wrap-mod_less w k width hi (2 ^ w - 1 - q)
      ∙ mod-eq_of_lt (omega arith)
    where
      shift : 2 ^ 64 - 1 - q ≡ 2 ^ w - 1 - q + 2 ^ 64 - 2 ^ w
      shift = omega (arith, range_le w k width hi)

  -- A negated magnitude of at most the range is the word of the negated number.
  pub negate_lem : (m : ℕ) → m ≤ 2 ^ w → with_sign true m % 2 ^ w ≡ word w (negate m)
  negate_lem zero h = refl
  negate_lem (suc m) h =
      u64-mod w k width hi (2 ^ 64 - suc m)
      ∙ ap (λ (t : ℕ). t % 2 ^ w) first
      ∙ complement_lem m h
      ∙ last
    where
      first : 2 ^ 64 - suc m ≡ 2 ^ 64 - 1 - m
      first = omega arith

      fits : m % 2 ^ w ≡ m
      fits = mod-eq_of_lt h

      last : 2 ^ w - 1 - m ≡ word w (negate (suc m))
      last = ground (arith, fits)

  -- The word of a number of the magnitude and the sign that the code computes.
  pub divide_lem :
      (x y e f : ℕ)
      → Signs w x e
      → Signs w y f
      → divide_signed e f % 2 ^ w ≡ word w (quotient (signed w x) (signed w y))
  divide_lem x y e f (low s d n m h) (low t c p q i) = rw (m, q, n, p, s, t) refl
  divide_lem x y e f (low s d n m h) (high b t c p q i) =
      rw (m, q, n, p, s, t) (negate_lem (x / suc b) (omega (arith, div-le_self x (suc b))))
  divide_lem x y e f (high a s d n m h) (low t c p q i) =
      rw (m, q, n, p, s, t) (negate_lem (suc a / y) (omega (arith, div-le_self (suc a) y)))
  divide_lem x y e f (high a s d n m h) (high b t c p q i) = rw (m, q, n, p, s, t) refl

  pub remainder_lem :
      (x y e f : ℕ)
      → Signs w x e
      → Signs w y f
      → remainder_signed e f % 2 ^ w ≡ word w (remainder (signed w x) (signed w y))
  remainder_lem x y e f (low s d n m h) (low t c p q i) = rw (m, q, n, s, t) refl
  remainder_lem x y e f (low s d n m h) (high b t c p q i) = rw (m, q, n, s, t) refl
  remainder_lem x y e f (high a s d n m h) (low t c p q i) =
      rw (m, q, n, s, t) (negate_lem (suc a % y) (omega (arith, mod-le (suc a) y)))
  remainder_lem x y e f (high a s d n m h) (high b t c p q i) =
      rw (m, q, n, s, t) (negate_lem (suc a % suc b) (omega (arith, mod-le (suc a) (suc b))))

  pub shift_lem :
      (x y e : ℕ)
      → Signs w x e
      → x < 2 ^ w
      → shift_right_signed e y % 2 ^ w ≡ word w (floor_shift (signed w x) y)
  shift_lem x y e (low s d n m i) h = rw (n, d, s) refl
  shift_lem x y e (high a s d n m i) h = rw (n, s, rest) last
    where
      rest : 2 ^ 64 - 1 - e ≡ a
      rest = omega arith

      small : a / 2 ^ y < 2 ^ w
      small = omega (arith, div-le_self a (2 ^ y))

      last : (2 ^ 64 - 1 - a / 2 ^ y) % 2 ^ w ≡ word w (floor_shift (negsuc a) y)
      last =
          complement_lem (a / 2 ^ y) small
          ∙ ap (λ (t : ℕ). 2 ^ w - 1 - t) (sym (mod-eq_of_lt small))

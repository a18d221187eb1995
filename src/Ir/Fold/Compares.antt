-- ===== src/Ir/Fold/Compares.antt =====
-- `fold_icmp_immediates` of src/ir.c beside the comparisons of the numbers that words stand for.
use native.Mathlib.Nat.{one-le-pow, mod-lt, pow-le-pow_right}
use liric.Base.{ℕ, suc, ◌+◌, ◌-◌, ◌%◌, ◌^◌, ◌≤◌, ◌<◌, ◌≡◌, refl, ◌∙◌, ap, arith}
use liric.Base.{not, ltb, if◌then◌else◌}
use liric.Base.Int.{ℤ, ltb_ℤ, leb_ℤ}
use liric.Ir.Inst.{IcmpPred}
use liric.Ir.Fold.{lt_signed, icmp_holds, compare_values}
use liric.Ir.Integer.{sign_extend_bits}
use liric.Ir.Fold.Semantics.{signed, eval_icmp}
use liric.Ir.Fold.Width.{sign_extend_lem, to_unsigned_lem, half, range_le, pow_congr}

module _ (w k : ℕ) (width : w ≡ suc k) (hi : w ≤ 64) where
  sign_bit : 2 ^ (w - 1) ≡ 2 ^ k
  sign_bit = pow_congr (w - 1) k (omega arith)

  sign_le : 2 ^ k ≤ 2 ^ 63
  sign_le =
      let base : 1 ≤ 2 = omega arith in let top : k ≤ 63 = omega arith in pow-le-pow_right base top

  -- The bit pattern moved by the sign bit is the number moved by it.
  moved :
      (x : ℕ)
      → x < 2 ^ w
      → (sign_extend_bits x w + 2 ^ 63) % 2 ^ 64
        ≡ (if ltb x (2 ^ k) then x + 2 ^ 63 else x + 2 ^ 63 - 2 ^ w)
  moved x h =
      ground
        (arith, sign_extend_lem w k width hi x h, half w k width hi, range_le w k width hi, sign_le)

  lt_signed_lem :
      (x y : ℕ)
      → x < 2 ^ w
      → y < 2 ^ w
      → lt_signed (sign_extend_bits x w) (sign_extend_bits y w) ≡ ltb_ℤ (signed w x) (signed w y)
  lt_signed_lem x y hx hy =
      rw (moved x hx, moved y hy) (ground (arith, sign_bit, sign_le, half w k width hi))

  not-ltb_ℤ : (a b : ℤ) → not (ltb_ℤ a b) ≡ leb_ℤ b a
  not-ltb_ℤ a b = ground arith

  holds_lem :
      (pred : IcmpPred) (x y : ℕ)
      → x < 2 ^ w
      → y < 2 ^ w
      → icmp_holds pred x y (sign_extend_bits x w) (sign_extend_bits y w) ≡ eval_icmp pred w x y
  unfolding icmp_holds eval_icmp
  holds_lem IcmpPred.sgt x y hx hy = lt_signed_lem y x hy hx
  holds_lem IcmpPred.sge x y hx hy =
      ap not (lt_signed_lem x y hx hy) ∙ not-ltb_ℤ (signed w x) (signed w y)
  holds_lem IcmpPred.slt x y hx hy = lt_signed_lem x y hx hy
  holds_lem IcmpPred.sle x y hx hy =
      ap not (lt_signed_lem y x hy hx) ∙ not-ltb_ℤ (signed w y) (signed w x)
  holds_lem IcmpPred.eq x y hx hy = refl
  holds_lem IcmpPred.ne x y hx hy = refl
  holds_lem IcmpPred.ugt x y hx hy = refl
  holds_lem IcmpPred.uge x y hx hy = refl
  holds_lem IcmpPred.ult x y hx hy = refl
  holds_lem IcmpPred.ule x y hx hy = refl

  -- At a width w from 1 to 64: each of the ten comparisons of two immediates is decided as the
  -- comparison of the unsigned or signed numbers that their w-bit words stand for.
  pub compare_values-eval_icmp :
      (pred : IcmpPred) (a b : ℕ)
      → compare_values pred w a b ≡ eval_icmp pred w (a % 2 ^ w) (b % 2 ^ w)
  unfolding compare_values
  compare_values-eval_icmp pred a b =
      rw (compare_values, to_unsigned_lem w k width hi a, to_unsigned_lem w k width hi b)
        (holds_lem pred (a % 2 ^ w) (b % 2 ^ w) (small a) (small b))
    where
      small : (n : ℕ) → n % 2 ^ w < 2 ^ w
      small n = mod-lt n (one-le-pow w 2 (omega arith))

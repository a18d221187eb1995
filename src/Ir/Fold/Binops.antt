-- ===== src/Ir/Fold/Binops.antt =====
-- `fold_int_binop_immediates` of src/ir.c beside what the instructions compute.
use native.Mathlib.Nat.{mod-eq_of_lt, div-le_self, mod-le, mod-lt, one-le-pow}
use native.Mathlib.Decide.{dec_lt}
use liric.Base.{ℕ, suc, ◌+◌, ◌-◌, ◌*◌, ◌%◌, ◌^◌, ◌≤◌, ◌<◌, ◌≡◌, refl, ◌∙◌, ap, arith}
use liric.Base.{Bool, true, false, leb, ◌==◌, ◌||◌, if◌then◌else◌, sub64, bit_and}
use liric.Base.{Option, none, some}
use liric.Ir.Inst.{Opcode}
use liric.Ir.Fold.{fold_binop, fold_values}
use liric.Ir.Integer.{sign_extend_bits, mask_for_bits}
use liric.Ir.Fold.{quotient_overflows}
use liric.Ir.Fold.Semantics.{eval_binop, division_undefined}
use liric.Ir.Fold.Width.{sign_extend_lem, to_unsigned_lem, mask_lem, range_le, pow_congr}
use liric.Ir.Fold.Width.{u64-mod, wrap-mod_less}
use liric.Ir.Fold.Signs.{signs, divide_lem, remainder_lem, shift_lem}

-- A value that the code produces, and the same word as `r`.
abbrev Agrees : ℕ → Option ℕ → ℕ → Type 0
Agrees w o r = (u : ℕ) × (o ≡ some u) × (u % 2 ^ w ≡ r)

-- Both sides test and stop, or go on; the code's test holds only where the other one does.
guarded :
    (w r : ℕ) (c d : Bool) (t u : ℕ)
    → (c ≡ false → d ≡ false)
    → u % 2 ^ w ≡ t
    → (if c then none else some t) ≡ some r
    → Agrees w (if d then none else some u) r
guarded w r true d t u both same h = absurd (cc)
guarded w r false true t u both same h = let impossible = both refl in absurd (cc)
guarded w r false false t u both same h = let e : t ≡ r = cc in (u, refl, same ∙ e)

plain : (w r t u : ℕ) → u % 2 ^ w ≡ t → some t ≡ some r → Agrees w (some u) r
plain w r t u same h = let e : t ≡ r = cc in (u, refl, same ∙ e)

module _ (w k : ℕ) (width : w ≡ suc k) (hi : w ≤ 64) where
  -- `sub64` at the width.
  sub_lem : (x y : ℕ) → y < 2 ^ w → sub64 x y % 2 ^ w ≡ (x + 2 ^ w - y) % 2 ^ w
  sub_lem x y h =
      u64-mod w k width hi (x + 2 ^ 64 - y)
      ∙ ap (λ (t : ℕ). t % 2 ^ w) shift
      ∙ wrap-mod_less w k width hi (x + 2 ^ w - y)
    where
      shift : x + 2 ^ 64 - y ≡ x + 2 ^ w - y + 2 ^ 64 - 2 ^ w
      shift = omega (arith, range_le w k width hi)

  -- The code refuses to divide only where the instruction is undefined.
  division_lem :
      (x y : ℕ)
      → x < 2 ^ w
      → y < 2 ^ w
      → division_undefined w x y ≡ false
      → sign_extend_bits y w == 0
          || quotient_overflows w (sign_extend_bits x w) (sign_extend_bits y w)
        ≡ false
  division_lem x y hx hy h = elim (dec_lt w 64) [
    | yes small ↦ ground (
      arith,
      sign_extend_lem w k width hi x hx,
      sign_extend_lem w k width hi y hy,
      range_le w k width hi,
    )
    | no large ↦
        let full : 2 ^ w ≡ 2 ^ 64 = pow_congr w 64 (omega arith) in
        let top : 2 ^ (w - 1) ≡ 2 ^ 63 = pow_congr (w - 1) 63 (omega arith) in
        ground
          (arith, sign_extend_lem w k width hi x hx, sign_extend_lem w k width hi y hy, full, top)
  ]

  fold_binop_lem :
      (op : Opcode) (x y r : ℕ)
      → x < 2 ^ w
      → y < 2 ^ w
      → eval_binop op w x y ≡ some r
      → Agrees w (fold_binop op w x y (sign_extend_bits x w) (sign_extend_bits y w)) r
  unfolding fold_binop eval_binop
  fold_binop_lem Opcode.add x y r hx hy h = plain w r _ _ (u64-mod w k width hi (x + y)) h
  fold_binop_lem Opcode.sub x y r hx hy h = plain w r _ _ (sub_lem x y hy) h
  fold_binop_lem Opcode.mul x y r hx hy h = plain w r _ _ (u64-mod w k width hi (x * y)) h
  fold_binop_lem Opcode.and x y r hx hy h = plain w r _ _ refl h
  fold_binop_lem Opcode.or x y r hx hy h = plain w r _ _ refl h
  fold_binop_lem Opcode.xor x y r hx hy h = plain w r _ _ refl h
  fold_binop_lem Opcode.shl x y r hx hy h =
      guarded w r (leb w y) (leb w y) _ _ (λ q. q) (u64-mod w k width hi (x * 2 ^ y)) h
  fold_binop_lem Opcode.lshr x y r hx hy h =
      guarded w r (leb w y) (leb w y) _ _ (λ q. q)
        (mod-eq_of_lt (omega (arith, div-le_self x (2 ^ y)))) h
  fold_binop_lem Opcode.ashr x y r hx hy h =
      guarded w r (leb w y) (leb w y) _ _ (λ q. q)
        (shift_lem w k width hi x y _ (signs w k width hi x hx) hx) h
  fold_binop_lem Opcode.sdiv x y r hx hy h =
      guarded w r (division_undefined w x y) _ _ _ (division_lem x y hx hy)
        (divide_lem w k width hi x y _ _ (signs w k width hi x hx) (signs w k width hi y hy)) h
  fold_binop_lem Opcode.srem x y r hx hy h =
      guarded w r (division_undefined w x y) _ _ _ (division_lem x y hx hy)
        (remainder_lem w k width hi x y _ _ (signs w k width hi x hx) (signs w k width hi y hy)) h
  fold_binop_lem Opcode.udiv x y r hx hy h =
      guarded w r (y == 0) (y == 0) _ _ (λ q. q) (mod-eq_of_lt (omega (arith, div-le_self x y))) h
  fold_binop_lem Opcode.urem x y r hx hy h =
      guarded w r (y == 0) (y == 0) _ _ (λ q. q) (mod-eq_of_lt (omega (arith, mod-le x y))) h
  fold_binop_lem _ x y r hx hy h = absurd (cc)

  range_pos : 0 < 2 ^ w
  range_pos = one-le-pow w 2 (omega arith)

  pub sign_extend_bits-mod : (x : ℕ) → x < 2 ^ w → sign_extend_bits x w % 2 ^ w ≡ x
  sign_extend_bits-mod x h =
      ground (arith, sign_extend_lem w k width hi x h, wrap-mod_less w k width hi x, mod-eq_of_lt h)

  -- At a width w from 1 to 64: where the instruction has a result r on the words of two
  -- immediates, the code folds them to r sign-extended from w to 64 bits.
  pub fold_values-eval_binop :
      (op : Opcode) (a b r : ℕ)
      → eval_binop op w (a % 2 ^ w) (b % 2 ^ w) ≡ some r
      → fold_values op w a b ≡ some (sign_extend_bits r w)
  unfolding fold_values
  fold_values-eval_binop op a b r h =
      rw (fold_values, to_unsigned_lem w k width hi a, to_unsigned_lem w k width hi b)
        (finish (fold_binop_lem op (a % 2 ^ w) (b % 2 ^ w) r (small a) (small b) h))
    where
      small : (n : ℕ) → n % 2 ^ w < 2 ^ w
      small n = mod-lt n range_pos

      finish :
          {o : Option ℕ}
          → Agrees w o r
          → (elim o [
            | none ↦ none
            | some u ↦ some (sign_extend_bits (bit_and u (mask_for_bits w)) w)
          ])
            ≡ some (sign_extend_bits r w)
      finish (u, e, same) = rw (e, mask_lem w k width hi u, same) refl

  pub eval_binop_bound :
      (op : Opcode) (x y r : ℕ) → x < 2 ^ w → y < 2 ^ w → eval_binop op w x y ≡ some r → r < 2 ^ w
  eval_binop_bound op x y r hx hy h = bounded (fold_binop_lem op x y r hx hy h)
    where
      bounded : {o : Option ℕ} → Agrees w o r → r < 2 ^ w
      bounded (u, e, same) = omega (arith, same, mod-lt u range_pos)

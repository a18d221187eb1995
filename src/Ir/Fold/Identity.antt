-- ===== src/Ir/Fold/Identity.antt =====
-- `fold_identity_int_binop` of src/ir.c by the values of its operands.
use native.Mathlib.Nat.{mod-eq_of_lt, one-le-pow, pow-suc, add-mod_right, div-one}
use native.Mathlib.Decide.{dec_lt}
use liric.Base.{ℕ, suc, ◌+◌, ◌-◌, ◌*◌, ◌/◌, ◌%◌, ◌^◌, ◌≤◌, ◌<◌, ◌≡◌, refl, ◌∙◌, ap, sym, arith}
use liric.Base.{Bool, true, false, leb, ◌==◌, if◌then◌else◌, bit_and, bit_or, bit_xor}
use liric.Base.{none, some, ◌⊎◌, inl, inr}
use liric.Base.Int.{pos, negsuc}
use liric.Base.Bits.{
  bit_and_mask, mask_bit_and, zero-bit_or, bit_or-zero, zero-bit_xor, bit_xor-zero,
}
use liric.Ir.Inst.{Opcode, Operand, OperandValue}
use liric.Ir.Fold.{fold_identity, neutral, is_imm, is_all_ones}
use liric.Ir.Integer.{mask_for_bits}
use liric.Ir.Fold.Semantics.{signed, word, quotient, floor_shift, eval_binop, division_undefined}
use liric.Ir.Fold.Width.{mask_lem, mask_value, half, pow_congr}

neutral-cases :
    (p q : Bool) (l r o : Operand)
    → neutral p q l r ≡ some o
    → ((p ≡ true) × (o ≡ r)) ⊎ ((q ≡ true) × (o ≡ l))
neutral-cases true q l r o h = inl (refl, (let e : r ≡ o = cc in sym e))
neutral-cases false true l r o h = inr (refl, (let e : l ≡ o = cc in sym e))
neutral-cases false false l r o h = absurd (cc)

module _ (w k : ℕ) (width : w ≡ suc k) (hi : w ≤ 64) (value : OperandValue → ℕ)
    (fits : (o : OperandValue) → value o < 2 ^ w)
    (imm : (n : ℕ) → value (OperandValue.imm_i64 n) ≡ n % 2 ^ w) where
  is_imm_lem : (o : OperandValue) (n : ℕ) → n < 2 → is_imm o n ≡ true → value o ≡ n
  is_imm_lem (OperandValue.imm_i64 m) n small h =
      let e : m ≡ n = ground arith in
      imm m
      ∙ ap (λ (t : ℕ). t % 2 ^ w) e
      ∙ mod-eq_of_lt (omega (arith, half w k width hi, one-le-pow k 2 (omega arith)))
  is_imm_lem _ n small h = absurd (cc)

  is_all_ones_lem :
      (o : OperandValue) → is_all_ones o (mask_for_bits w) ≡ true → value o ≡ 2 ^ w - 1
  is_all_ones_lem (OperandValue.imm_i64 m) h =
      let e : bit_and m (mask_for_bits w) ≡ mask_for_bits w = ground arith in
      imm m ∙ sym (mask_lem w k width hi m) ∙ e ∙ mask_value w k width hi
  is_all_ones_lem _ h = absurd (cc)

  -- Which operand it is, with what its neighbour's value then gives.
  chosen :
      (p q : Bool) (l r o : Operand) (x : ℕ)
      → neutral p q l r ≡ some o
      → (p ≡ true → value r.value ≡ x)
      → (q ≡ true → value l.value ≡ x)
      → value o.value ≡ x
  chosen p q l r o x h left right = elim (neutral-cases p q l r o h) [
    | inl (is_left, e) ↦ rw e (left is_left)
    | inr (is_right, e) ↦ rw e (right is_right)
  ]

  bit_pos : 2 ≤ 2 ^ w
  bit_pos = omega (arith, half w k width hi, one-le-pow k 2 (omega arith))

  result : (c : Bool) (t x : ℕ) → (if c then none else some t) ≡ some x → (c ≡ false) × (t ≡ x)
  result true t x h = absurd (cc)
  result false t x h = (refl, (let e : t ≡ x = cc in e))

  -- Shifting a signed number by nothing, and dividing it by one.
  shifted : (x : ℕ) → x < 2 ^ w → word w (floor_shift (signed w x) 0) ≡ x
  shifted x h =
      ground (arith, mod-eq_of_lt {n = x} {m = 2 ^ w}, mod-eq_of_lt {n = 2 ^ w - x - 1} {m = 2 ^ w})

  divided :
      (x : ℕ)
      → x < 2 ^ w
      → division_undefined w x 1 ≡ false
      → word w (quotient (signed w x) (signed w 1)) ≡ x
  divided x h defined = elim (dec_lt k 1) [
    | yes one ↦
        let range : 2 ^ w ≡ 2 = pow_congr w 1 (omega arith) in
        let sign : 2 ^ (w - 1) ≡ 1 = pow_congr (w - 1) 0 (omega arith) in
        let zero_only : x ≡ 0 = ground arith in
        rw (zero_only, range, sign) (mod-eq_of_lt {n = 0} {m = 2 ^ w} (omega (arith, bit_pos)))
    | no more ↦
        let sign : 2 ^ (w - 1) ≡ 2 * 2 ^ (k - 1) =
          pow_congr (w - 1) (suc (k - 1)) (omega arith) ∙ omega (arith, pow-suc 2 (k - 1)) in
        let one_pos : signed w 1 ≡ pos 1 =
          ground (arith, sign, one-le-pow (k - 1) 2 (omega arith)) in
        elim (dec_lt x (2 ^ (w - 1))) [
          | yes low ↦
              let s : signed w x ≡ pos x = ground arith in
              rw (one_pos, s) (ap (λ t. t % 2 ^ w) (div-one x) ∙ mod-eq_of_lt h)
          | no high ↦
              let s : signed w x ≡ negsuc (2 ^ w - x - 1) = ground arith in
              rw (one_pos, s) (ground (arith, mod-eq_of_lt {n = 2 ^ w - x - 1} {m = 2 ^ w}))
        ]
  ]

  -- An operation `f` that leaves `y` alone beside the neutral element `n`.
  units : {a n y x : ℕ} (f : ℕ → ℕ) → a ≡ n → f n ≡ y → f a ≡ x → y ≡ x
  units f e same computed = sym same ∙ ap f (sym e) ∙ computed

  is_zero : (o : OperandValue) → is_imm o 0 ≡ true → value o ≡ 0
  is_zero o p = is_imm_lem o 0 (omega arith) p

  is_one : (o : OperandValue) → is_imm o 1 ≡ true → value o ≡ 1
  is_one o p = is_imm_lem o 1 (omega arith) p

  reduced : {t : ℕ} (o : OperandValue) → t ≡ value o → t % 2 ^ w ≡ value o
  reduced o same = ap (λ t. t % 2 ^ w) same ∙ mod-eq_of_lt (fits o)

  low : (o : OperandValue) → value o % 2 ^ w ≡ value o
  low o = mod-eq_of_lt (fits o)

  -- At a width w from 1 to 64, for every valuation of operands by w-bit words that gives an
  -- immediate its own: the operand that `fold_identity_int_binop` keeps of an instruction has the
  -- result of the instruction, where it has one.
  pub fold_identity-eval_binop :
      (op : Opcode) (l r o : Operand) (x : ℕ)
      → fold_identity op (mask_for_bits w) l r ≡ some o
      → eval_binop op w (value l.value) (value r.value) ≡ some x
      → value o.value ≡ x
  unfolding fold_identity eval_binop
  fold_identity-eval_binop Opcode.add l r o x h e =
      let computed : (value l.value + value r.value) % 2 ^ w ≡ x = cc in
      chosen _ _ l r o x h
        (λ p.
          units {y = value r.value} (λ a. (a + value r.value) % 2 ^ w) (is_zero l.value p)
            (reduced r.value (omega arith)) computed)
        (λ q.
          units {y = value l.value} (λ b. (value l.value + b) % 2 ^ w) (is_zero r.value q)
            (reduced l.value (omega arith)) computed)
  fold_identity-eval_binop Opcode.sub l r o x h e =
      let computed : (value l.value + 2 ^ w - value r.value) % 2 ^ w ≡ x = cc in
      chosen false (is_imm r.value 0) l r o x h (λ p. absurd (cc))
        (λ q.
          units {y = value l.value} (λ b. (value l.value + 2 ^ w - b) % 2 ^ w) (is_zero r.value q)
            (ap (λ (t : ℕ). t % 2 ^ w) (omega arith)
              ∙ (add-mod_right (value l.value) (2 ^ w) ∙ low l.value))
            computed)
  fold_identity-eval_binop Opcode.mul l r o x h e =
      let computed : value l.value * value r.value % 2 ^ w ≡ x = cc in
      chosen _ _ l r o x h
        (λ p.
          units {y = value r.value} (λ a. a * value r.value % 2 ^ w) (is_one l.value p)
            (reduced r.value (omega arith)) computed)
        (λ q.
          units {y = value l.value} (λ b. value l.value * b % 2 ^ w) (is_one r.value q)
            (reduced l.value (omega arith)) computed)
  fold_identity-eval_binop Opcode.and l r o x h e =
      let computed : bit_and (value l.value) (value r.value) % 2 ^ w ≡ x = cc in
      chosen _ _ l r o x h
        (λ p.
          units {y = value r.value} (λ a. bit_and a (value r.value) % 2 ^ w)
            (is_all_ones_lem l.value p)
            (rw (mask_bit_and w (value r.value), low r.value) (low r.value)) computed)
        (λ q.
          units {y = value l.value} (λ b. bit_and (value l.value) b % 2 ^ w)
            (is_all_ones_lem r.value q)
            (rw (bit_and_mask w (value l.value), low l.value) (low l.value)) computed)
  fold_identity-eval_binop Opcode.or l r o x h e =
      let computed : bit_or (value l.value) (value r.value) % 2 ^ w ≡ x = cc in
      chosen _ _ l r o x h
        (λ p.
          units {y = value r.value} (λ a. bit_or a (value r.value) % 2 ^ w) (is_zero l.value p)
            (rw (zero-bit_or (value r.value)) (low r.value)) computed)
        (λ q.
          units {y = value l.value} (λ b. bit_or (value l.value) b % 2 ^ w) (is_zero r.value q)
            (rw (bit_or-zero (value l.value)) (low l.value)) computed)
  fold_identity-eval_binop Opcode.xor l r o x h e =
      let computed : bit_xor (value l.value) (value r.value) % 2 ^ w ≡ x = cc in
      chosen _ _ l r o x h
        (λ p.
          units {y = value r.value} (λ a. bit_xor a (value r.value) % 2 ^ w) (is_zero l.value p)
            (rw (zero-bit_xor (value r.value)) (low r.value)) computed)
        (λ q.
          units {y = value l.value} (λ b. bit_xor (value l.value) b % 2 ^ w) (is_zero r.value q)
            (rw (bit_xor-zero (value l.value)) (low l.value)) computed)
  fold_identity-eval_binop Opcode.shl l r o x h e =
      let computed : value l.value * 2 ^ value r.value % 2 ^ w ≡ x =
        (result (leb w (value r.value)) _ x e).1 in
      chosen false (is_imm r.value 0) l r o x h (λ p. absurd (cc))
        (λ q.
          units {y = value l.value} (λ b. value l.value * 2 ^ b % 2 ^ w) (is_zero r.value q)
            (reduced l.value (omega arith)) computed)
  fold_identity-eval_binop Opcode.lshr l r o x h e =
      let computed : value l.value / 2 ^ value r.value ≡ x =
        (result (leb w (value r.value)) _ x e).1 in
      chosen false (is_imm r.value 0) l r o x h (λ p. absurd (cc))
        (λ q.
          units {y = value l.value} (λ b. value l.value / 2 ^ b) (is_zero r.value q) (omega arith)
            computed)
  fold_identity-eval_binop Opcode.ashr l r o x h e =
      let computed : word w (floor_shift (signed w (value l.value)) (value r.value)) ≡ x =
        (result (leb w (value r.value)) _ x e).1 in
      chosen false (is_imm r.value 0) l r o x h (λ p. absurd (cc))
        (λ q.
          units {y = value l.value} (λ b. word w (floor_shift (signed w (value l.value)) b))
            (is_zero r.value q) (shifted (value l.value) (fits l.value)) computed)
  fold_identity-eval_binop Opcode.udiv l r o x h e =
      let computed : value l.value / value r.value ≡ x = (result (value r.value == 0) _ x e).1 in
      chosen false (is_imm r.value 1) l r o x h (λ p. absurd (cc))
        (λ q.
          units {y = value l.value} (λ b. value l.value / b) (is_one r.value q) (omega arith)
            computed)
  fold_identity-eval_binop Opcode.sdiv l r o x h e =
      let defined : division_undefined w (value l.value) (value r.value) ≡ false =
        (result (division_undefined w (value l.value) (value r.value)) _ x e).0 in
      let computed : word w (quotient (signed w (value l.value)) (signed w (value r.value))) ≡ x =
        (result (division_undefined w (value l.value) (value r.value)) _ x e).1 in
      chosen false (is_imm r.value 1) l r o x h (λ p. absurd (cc))
        (λ q.
          let one = is_one r.value q in
          units (λ b. word w (quotient (signed w (value l.value)) (signed w b))) one
            (divided (value l.value) (fits l.value)
              (ap (λ b. division_undefined w (value l.value) b) (sym one) ∙ defined))
            computed)
  fold_identity-eval_binop _ l r o x h e = absurd (cc)

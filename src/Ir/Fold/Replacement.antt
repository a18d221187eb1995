-- ===== src/Ir/Fold/Replacement.antt =====
-- What an instruction computes, and `try_inst_replacement` of src/ir.c. Operands have values
-- through two parameters.
use liric.Base.{ℕ, ◌-◌, ◌%◌, ◌^◌, ◌<◌, ◌≡◌, refl, ◌∙◌, ap, sym, arith}
use liric.Base.{Bool, true, false, not, ◌==◌, if◌then◌else◌, List, ◌∷◌}
use liric.Base.{Option, none, some, inl, inr}
use liric.Ir.Types.{IrType}
use liric.Ir.Inst.{Opcode, IcmpPred, OperandValue, Operand, Inst, op_imm_i64}
use liric.Ir.Fold.{fold_values, two_immediates, imm_operand, fold_pair}
use liric.Ir.Integer.{type_width_bits}
use liric.Ir.Fold.{fold_binop_operands, fold_identity, fold_identity_operands, or_else}
use liric.Ir.Integer.{sign_extend_bits}
use liric.Ir.Fold.{compare_type, bool_bit, compare_values, fold_icmp_pair}
use liric.Ir.Fold.{operand_equal, select_operands, fold_select_operands, fold_select}
use liric.Ir.Fold.{fold_icmp_immediates, fold_int_binop_immediates, fold_identity_int_binop}
use liric.Ir.Fold.{try_inst_replacement, fold_binop}
use liric.Ir.Fold.Semantics.{eval_binop, eval_icmp}
use liric.Ir.Fold.Binops.{fold_values-eval_binop, eval_binop_bound}
use liric.Ir.Fold.Identity.{fold_identity-eval_binop}
use liric.Ir.Fold.Compares.{compare_values-eval_icmp}
use liric.Ir.Fold.Immediates.{
  type_width_bits_range, same_value_lem, two_immediates_lem, or_else_lem, width_suc, bit_immediate,
  some_of, mod_fits, bit_fits, stored, stored_word, no_arithmetic,
}

-- `value w o` is the word of `o` at width `w`; `holds c` is whether a condition holds.
module _ (value : ℕ → OperandValue → ℕ) (holds : OperandValue → Bool) where
  -- What an instruction computes; `none` where this says nothing of it.
  unfoldable pub eval_operands : Opcode → IcmpPred → IrType → List Operand → Option ℕ
  eval_operands Opcode.select pred type (c ∷ x ∷ y ∷ others) =
      let w = type_width_bits type in
      some (if holds c.value then value w x.value else value w y.value)
  eval_operands Opcode.icmp pred type (l ∷ r ∷ others) =
      let w = type_width_bits (compare_type l.type type) in
      some (bool_bit (eval_icmp pred w (value w l.value) (value w r.value)))
  eval_operands op pred type (l ∷ r ∷ others) =
      let w = type_width_bits type in eval_binop op w (value w l.value) (value w r.value)
  eval_operands op pred type _ = none

  abbrev pub eval_inst : Inst → Option ℕ
  eval_inst inst = eval_operands inst.op inst.icmp_pred inst.type inst.operands

  module _ (same_type : IrType → IrType → Bool)
      (fits : (w : ℕ) (o : OperandValue) → value w o < 2 ^ w)
      (imm : (w n : ℕ) → value w (OperandValue.imm_i64 n) ≡ n % 2 ^ w)
      (condition : (n : ℕ) → holds (OperandValue.imm_i64 n) ≡ not (n == 0)) where
    Sound : Opcode → IcmpPred → IrType → List Operand → Option Operand → Type 0
    Sound op pred type operands found =
        (o : Operand) (x : ℕ)
        → found ≡ some o
        → eval_operands op pred type operands ≡ some x
        → value (type_width_bits type) o.value ≡ x

    if_some :
        (b : Bool) (x o : Operand) → (if b then some x else none) ≡ some o → (b ≡ true) × (x ≡ o)
    if_some true x o h = (refl, (let e : x ≡ o = cc in e))
    if_some false x o h = absurd (cc)

    either : {p q : ℕ} (b : Bool) → p ≡ q → p ≡ (if b then p else q)
    either true e = refl
    either false e = e

    picked :
        (w : ℕ) (b : Bool) (x y : Operand)
        → value w (if b then y else x).value ≡ (if not b then value w x.value else value w y.value)
    picked w true x y = refl
    picked w false x y = refl

    equal_sound :
        (w : ℕ) (x y : Operand)
        → operand_equal same_type x y ≡ true
        → value w x.value ≡ value w y.value
    unfolding operand_equal
    equal_sound w x y h = ap (value w) (same_value_lem x.value y.value (ground arith))

    both_sound :
        (w : ℕ) (x y o : Operand) (v : OperandValue)
        → (if operand_equal same_type x y then some x else none) ≡ some o
        → value w o.value ≡ (if holds v then value w x.value else value w y.value)
    both_sound w x y o v h =
        let (equal, e) = if_some (operand_equal same_type x y) x o h in
        ap (λ p. value w p.value) (sym e) ∙ either (holds v) (equal_sound w x y equal)

    chosen_sound :
        (w : ℕ) (c x y o : Operand) (v : OperandValue)
        → select_operands same_type c x y v ≡ some o
        → value w o.value ≡ (if holds v then value w x.value else value w y.value)
    chosen_sound w c x y o (OperandValue.imm_i64 n) h =
        let e : (if n == 0 then y else x) ≡ o = cc in
        rw (condition n) (ap (λ p. value w p.value) (sym e) ∙ picked w (n == 0) x y)
    chosen_sound w c x y o (OperandValue.vreg a) h = both_sound w x y o (OperandValue.vreg a) h
    chosen_sound w c x y o (OperandValue.imm_f64 a) h =
        both_sound w x y o (OperandValue.imm_f64 a) h
    chosen_sound w c x y o (OperandValue.block a) h = both_sound w x y o (OperandValue.block a) h
    chosen_sound w c x y o (OperandValue.global a) h = both_sound w x y o (OperandValue.global a) h
    chosen_sound w c x y o (OperandValue.null) h = both_sound w x y o (OperandValue.null) h
    chosen_sound w c x y o (OperandValue.undef) h = both_sound w x y o (OperandValue.undef) h

    select-Sound :
        (pred : IcmpPred) (type : IrType) (operands : List Operand)
        → Sound Opcode.select pred type operands (fold_select_operands same_type operands)
    unfolding Sound eval_operands
    select-Sound pred type (c ∷ x ∷ y ∷ others) o v h e =
        let w = type_width_bits type in
        let computed : (if holds c.value then value w x.value else value w y.value) ≡ v = cc in
        chosen_sound w c x y o c.value h ∙ computed
    select-Sound pred type _ o v h e = absurd (cc)

    same_comparison :
        (pred : IcmpPred) (t : IrType) (l r : OperandValue) (a b : ℕ)
        → l ≡ OperandValue.imm_i64 a
        → r ≡ OperandValue.imm_i64 b
        → compare_values pred (type_width_bits t) a b
          ≡ eval_icmp pred
              (type_width_bits t)
              (value (type_width_bits t) l)
              (value (type_width_bits t) r)
    same_comparison pred t l r a b left right =
        rw (left, right, imm (type_width_bits t) a, imm (type_width_bits t) b)
          (compare_values-eval_icmp (type_width_bits t) (type_width_bits t - 1) (width_suc t)
            (type_width_bits_range t).1 pred a b)

    icmp-Sound :
        (pred : IcmpPred) (type : IrType) (l r : Operand) (others : List Operand)
        (pair : Option (ℕ × ℕ))
        → two_immediates l.value r.value ≡ pair
        → Sound Opcode.icmp pred type (l ∷ r ∷ others) (fold_icmp_pair pred l.type type pair)
    unfolding Sound eval_operands
    icmp-Sound pred type l r others none same o v h e = absurd (cc)
    icmp-Sound pred type l r others (some (a, b)) same o v h e =
        let (left, right) = two_immediates_lem l.value r.value a b same in
        let w = type_width_bits (compare_type l.type type) in
        let bit = compare_values pred w a b in
        let found : op_imm_i64 (bool_bit bit) type ≡ o = cc in
        let computed : bool_bit (eval_icmp pred w (value w l.value) (value w r.value)) ≡ v = cc in
        ap (λ p. value (type_width_bits type) p.value) (sym found ∙ bit_immediate type bit)
        ∙ imm (type_width_bits type) (bool_bit bit)
        ∙ bit_fits type bit
        ∙ ap bool_bit
            (same_comparison pred (compare_type l.type type) l.value r.value a b left right)
        ∙ computed

    eval_pair : Opcode → IrType → OperandValue → OperandValue → Option ℕ
    eval_pair op type l r = let w = type_width_bits type in eval_binop op w (value w l) (value w r)

    -- Folded immediates, then the identities.
    folded_sound :
        (op : Opcode) (type : IrType) (l r : OperandValue) (a b : ℕ) (o : Operand) (x : ℕ)
        → l ≡ OperandValue.imm_i64 a
        → r ≡ OperandValue.imm_i64 b
        → imm_operand type (fold_values op (type_width_bits type) a b) ≡ some o
        → eval_pair op type l r ≡ some x
        → value (type_width_bits type) o.value ≡ x
    unfolding eval_pair op_imm_i64 stored
    folded_sound op type l r a b o x left right h e =
        let w = type_width_bits type in
        let words : eval_binop op w (a % 2 ^ w) (b % 2 ^ w) ≡ some x =
          rw (← imm w a, ← imm w b, ← left, ← right) e in
        let folded : fold_values op w a b ≡ some (sign_extend_bits x w) =
          fold_values-eval_binop w (w - 1) (width_suc type) (type_width_bits_range type).1 op a b x
            words in
        let found : op_imm_i64 (sign_extend_bits x w) type ≡ o =
          some_of (sym (ap (imm_operand type) folded) ∙ h) in
        let small : x < 2 ^ w =
          eval_binop_bound w (w - 1) (width_suc type) (type_width_bits_range type).1 op _ _ x
            (mod_fits type a) (mod_fits type b) words in
        ap (λ p. value w p.value) (sym found)
        ∙ imm w (stored type (sign_extend_bits x w))
        ∙ stored_word type x small

    arithmetic_sound :
        (op : Opcode) (type : IrType) (l r : Operand) (others : List Operand) (o : Operand) (x : ℕ)
        → or_else
            (fold_binop_operands op type (l ∷ r ∷ others))
            (fold_identity_operands op type (l ∷ r ∷ others))
          ≡ some o
        → eval_pair op type l.value r.value ≡ some x
        → value (type_width_bits type) o.value ≡ x
    unfolding eval_pair
    arithmetic_sound op type l r others o x h e = elim (or_else_lem _ _ o h) [
      | inl folded ↦ pair_sound (two_immediates l.value r.value) refl folded
      | inr (none_folded, kept) ↦
          let w = type_width_bits type in
          fold_identity-eval_binop w (w - 1) (width_suc type) (type_width_bits_range type).1
            (value w) (fits w) (imm w) op l r o x kept e
    ]
      where
        pair_sound :
            (pair : Option (ℕ × ℕ))
            → two_immediates l.value r.value ≡ pair
            → fold_pair op type pair ≡ some o
            → value (type_width_bits type) o.value ≡ x
        pair_sound none same found = absurd (cc)
        pair_sound (some (a, b)) same found =
            let (left, right) = two_immediates_lem l.value r.value a b same in
            folded_sound op type l.value r.value a b o x left right found e

    by_opcode :
        (op : Opcode) (dest : ℕ) (pred : IcmpPred) (type : IrType) (operands : List Operand)
        → Sound op pred type operands (
            try_inst_replacement same_type
              (record { op = op; type = type; dest = dest; operands = operands; icmp_pred = pred }))
    unfolding Sound eval_operands eval_pair try_inst_replacement fold_select fold_icmp_immediates
        fold_int_binop_immediates fold_identity_int_binop fold_values fold_binop fold_identity
    by_opcode Opcode.select dest pred type operands o x h e = elim (or_else_lem _ _ o h) [
      | inl chosen ↦ select-Sound pred type operands o x chosen e
      | inr (none_chosen, rest) ↦
          absurd (no_arithmetic Opcode.select type operands o (λ w a b. refl) (λ m l r. refl) rest)
    ]
    by_opcode Opcode.icmp dest pred type (l ∷ r ∷ others) o x h e = elim (or_else_lem _ _ o h) [
      | inl compared ↦
          icmp-Sound pred type l r others (two_immediates l.value r.value) refl o x compared e
      | inr (none_chosen, rest) ↦
          absurd
            (no_arithmetic Opcode.icmp type (l ∷ r ∷ others) o (λ w a b. refl) (λ m l r. refl) rest)
    ]
    by_opcode op dest pred type (l ∷ r ∷ others) o x h e =
        arithmetic_sound op type l r others o x h e
    by_opcode _ dest pred type _ o x h e = absurd (cc)

    -- For every valuation that gives an operand a word of each width, an immediate its own, and
    -- that lets an immediate condition hold where it is not 0, and for every comparison of types:
    -- where `try_inst_replacement` replaces an instruction by an operand and the instruction has a
    -- result (`eval_inst`), the operand has that result as its word at the width of the
    -- instruction's type.
    pub try_inst_replacement-eval_inst :
        (inst : Inst) (o : Operand) (x : ℕ)
        → try_inst_replacement same_type inst ≡ some o
        → eval_inst inst ≡ some x
        → value (type_width_bits inst.type) o.value ≡ x
    unfolding Sound
    try_inst_replacement-eval_inst inst =
        by_opcode inst.op inst.dest inst.icmp_pred inst.type inst.operands

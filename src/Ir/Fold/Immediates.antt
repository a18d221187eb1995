-- ===== src/Ir/Fold/Immediates.antt =====
-- Immediates at the width of their type: the range of the widths, what `lr_op_imm_i64` of
-- src/ir.c keeps of a word, and the chain of the replacement functions.
use native.Mathlib.Nat.{mod-lt, mod-eq_of_lt, one-le-pow, pow-suc}
use liric.Base.{ℕ, suc, ◌-◌, ◌%◌, ◌^◌, ◌≤◌, ◌<◌, ◌≡◌, ◌≢◌, refl, ap, arith}
use liric.Base.{Bool, true, false, ◌==◌, if◌then◌else◌, List, [], ◌∷◌}
use liric.Base.{Option, none, some, ◌⊎◌, inl, inr, Bool-cases}
use liric.Ir.Types.{IrType}
use liric.Ir.Inst.{Opcode, OperandValue, Operand, op_imm_i64, is_i1}
use liric.Ir.Fold.{fold_values, two_immediates, imm_operand, fold_pair}
use liric.Ir.Integer.{type_width_bits, mask_for_bits}
use liric.Ir.Fold.{fold_binop_operands, fold_identity, fold_identity_operands, or_else}
use liric.Ir.Integer.{sign_extend_bits}
use liric.Ir.Fold.{bool_bit}
use liric.Ir.Fold.{same_value}
use liric.Ir.Fold.Binops.{sign_extend_bits-mod}
use liric.Ir.Fold.Width.{sign_extend_lem, pow_congr}

-- Every type's width is from 1 to 64.
pub type_width_bits_range : (t : IrType) → (1 ≤ type_width_bits t) × (type_width_bits t ≤ 64)
unfolding type_width_bits
type_width_bits_range IrType.null = (omega arith, omega arith)
type_width_bits_range IrType.i1 = (omega arith, omega arith)
type_width_bits_range IrType.i8 = (omega arith, omega arith)
type_width_bits_range IrType.i16 = (omega arith, omega arith)
type_width_bits_range IrType.i32 = (omega arith, omega arith)
type_width_bits_range IrType.i64 = (omega arith, omega arith)
type_width_bits_range _ = ground arith

pub same_value_lem : (a b : OperandValue) → same_value a b ≡ true → a ≡ b
same_value_lem (OperandValue.vreg a) (OperandValue.vreg b) h = ap OperandValue.vreg (ground arith)
same_value_lem (OperandValue.imm_i64 a) (OperandValue.imm_i64 b) h =
    ap OperandValue.imm_i64 (ground arith)
same_value_lem (OperandValue.imm_f64 a) (OperandValue.imm_f64 b) h =
    ap OperandValue.imm_f64 (ground arith)
same_value_lem (OperandValue.block a) (OperandValue.block b) h =
    ap OperandValue.block (ground arith)
same_value_lem (OperandValue.global a) (OperandValue.global b) h =
    ap OperandValue.global (ground arith)
same_value_lem OperandValue.null OperandValue.null h = refl
same_value_lem OperandValue.undef OperandValue.undef h = refl
same_value_lem _ _ h = absurd (cc)

pub two_immediates_lem :
    (l r : OperandValue) (a b : ℕ)
    → two_immediates l r ≡ some (a, b)
    → (l ≡ OperandValue.imm_i64 a) × (r ≡ OperandValue.imm_i64 b)
two_immediates_lem (OperandValue.imm_i64 c) (OperandValue.imm_i64 d) a b h =
    let left : c ≡ a = cc in
    let right : d ≡ b = cc in (ap OperandValue.imm_i64 left, ap OperandValue.imm_i64 right)
two_immediates_lem _ _ a b h = absurd (cc)

pub or_else_lem :
    (f g : Option Operand) (o : Operand)
    → or_else f g ≡ some o
    → (f ≡ some o) ⊎ ((f ≡ none) × (g ≡ some o))
or_else_lem (some a) g o h = inl h
or_else_lem none g o h = inr (refl, h)

pub width_suc : (t : IrType) → type_width_bits t ≡ suc (type_width_bits t - 1)
width_suc t = omega (arith, type_width_bits_range t)

pub range_two : (t : IrType) → 2 ≤ 2 ^ type_width_bits t
range_two t =
    rw (width_suc t, pow-suc 2 (type_width_bits t - 1))
      (omega (arith, one-le-pow (type_width_bits t - 1) 2 (omega arith)))

-- `lr_op_imm_i64` keeps a bit, and it keeps the word of a sign-extended value.
pub bit_immediate :
    (type : IrType) (b : Bool)
    → op_imm_i64 (bool_bit b) type
      ≡ record { value = OperandValue.imm_i64 (bool_bit b); type = type; global_offset = 0 }
unfolding op_imm_i64
bit_immediate IrType.i1 true = refl
bit_immediate IrType.i1 false = refl
bit_immediate _ b = refl

pub some_of : {a b : Operand} → ◌≡◌ {A = Option Operand} (some a) (some b) → a ≡ b
some_of h = cc

pub mod_fits : (type : IrType) (n : ℕ) → n % 2 ^ type_width_bits type < 2 ^ type_width_bits type
mod_fits type n = mod-lt n (omega (arith, range_two type))

pub bit_fits : (type : IrType) (b : Bool) → bool_bit b % 2 ^ type_width_bits type ≡ bool_bit b
bit_fits type true =
    mod-eq_of_lt {n = 1} {m = 2 ^ type_width_bits type} (omega (arith, range_two type))
bit_fits type false =
    mod-eq_of_lt {n = 0} {m = 2 ^ type_width_bits type} (omega (arith, range_two type))

unfoldable pub stored : IrType → ℕ → ℕ
stored type val = if is_i1 type then (if val == 0 then 0 else 1) else val

pub i1_width : (type : IrType) → is_i1 type ≡ true → type_width_bits type ≡ 1
unfolding type_width_bits
i1_width IrType.i1 h = refl
i1_width _ h = absurd (cc)

pub stored_word :
    (type : IrType) (r : ℕ)
    → r < 2 ^ type_width_bits type
    → stored type (sign_extend_bits r (type_width_bits type)) % 2 ^ type_width_bits type ≡ r
unfolding stored
stored_word type r h = elim (Bool-cases (is_i1 type)) [
  | inl one ↦
      let one_bit : type_width_bits type ≡ 1 = i1_width type one in
      let range : 2 ^ type_width_bits type ≡ 2 = pow_congr (type_width_bits type) 1 one_bit in
      ground (
        arith,
        range,
        sign_extend_lem (type_width_bits type) 0 one_bit (type_width_bits_range type).1 r h,
      )
  | inr more ↦ rw (more) (
      sign_extend_bits-mod (type_width_bits type) (type_width_bits type - 1) (width_suc type)
        (type_width_bits_range type).1 r h)
]

-- Other opcodes fold to nothing.
pub no_arithmetic :
    (op : Opcode) (type : IrType) (operands : List Operand) (o : Operand)
    → ((w a b : ℕ) → fold_values op w a b ≡ none)
    → ((m : ℕ) (l r : Operand) → fold_identity op m l r ≡ none)
    → or_else (fold_binop_operands op type operands) (fold_identity_operands op type operands)
      ≢ some o
no_arithmetic op type [] o none_folded none_kept h = absurd (cc)
no_arithmetic op type (l ∷ []) o none_folded none_kept h = absurd (cc)
no_arithmetic op type (l ∷ r ∷ others) o none_folded none_kept h = elim (or_else_lem _ _ o h) [
  | inl folded ↦ pair_none (two_immediates l.value r.value) folded
  | inr (none_first, kept) ↦
      let z = none_kept (mask_for_bits (type_width_bits type)) l r in absurd (cc)
]
  where
    pair_none : (pair : Option (ℕ × ℕ)) → fold_pair op type pair ≢ some o
    pair_none none found = absurd (cc)
    pair_none (some (a, b)) found =
        let z = ap (imm_operand type) (none_folded (type_width_bits type) a b) in absurd (cc)

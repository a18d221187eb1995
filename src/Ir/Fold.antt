-- ===== src/Ir/Fold.antt =====
-- The constant folding and the identities of src/ir.c.
pub mod Width
pub mod Signs
pub mod Semantics
pub mod Binops
pub mod Identity
pub mod Compares
pub mod Immediates
pub mod Replacement
use liric.Base.{ℕ, zero, suc, ◌+◌, ◌*◌, ◌-◌, ◌/◌, ◌%◌, ◌^◌, bit_and, bit_or, bit_xor, List, [], ◌∷◌}
use liric.Base.{Option, none, some, Bool, true, false, not, ◌&&◌, ◌||◌, ltb, leb, ◌==◌}
use liric.Base.{if◌then◌else◌, u64, sub64, ◌<<<◌, ◌>>>◌}
use liric.Ir.Types.{IrType}
use liric.Ir.Layout.{type_size, is_null}
use liric.Ir.Integer.{
  type_width_bits, mask_for_bits, to_unsigned_bits, sign_extend_bits, is_negative, magnitude,
  with_sign, differ, shift_right_signed, divide_signed, remainder_signed,
}
use liric.Ir.Inst.{Opcode, IcmpPred, OperandValue, Operand, Inst, op_imm_i64}

-- `bits == 64 && s_lhs == INT64_MIN && s_rhs == -1`
abbrev pub quotient_overflows : ℕ → ℕ → ℕ → Bool
quotient_overflows bits a b = bits == 64 && (a == 2 ^ 63 && b == 2 ^ 64 - 1)

-- The `switch` of `fold_int_binop_immediates`, before the last mask.
unfoldable pub fold_binop : Opcode → ℕ → ℕ → ℕ → ℕ → ℕ → Option ℕ
fold_binop Opcode.add bits u_lhs u_rhs s_lhs s_rhs = some (u64 (u_lhs + u_rhs))
fold_binop Opcode.sub bits u_lhs u_rhs s_lhs s_rhs = some (sub64 u_lhs u_rhs)
fold_binop Opcode.mul bits u_lhs u_rhs s_lhs s_rhs = some (u64 (u_lhs * u_rhs))
fold_binop Opcode.and bits u_lhs u_rhs s_lhs s_rhs = some (bit_and u_lhs u_rhs)
fold_binop Opcode.or bits u_lhs u_rhs s_lhs s_rhs = some (bit_or u_lhs u_rhs)
fold_binop Opcode.xor bits u_lhs u_rhs s_lhs s_rhs = some (bit_xor u_lhs u_rhs)
fold_binop Opcode.shl bits u_lhs u_rhs s_lhs s_rhs =
    if leb bits u_rhs then none else some (u64 (u_lhs <<< u_rhs))
fold_binop Opcode.lshr bits u_lhs u_rhs s_lhs s_rhs =
    if leb bits u_rhs then none else some (u_lhs >>> u_rhs)
fold_binop Opcode.ashr bits u_lhs u_rhs s_lhs s_rhs =
    if leb bits u_rhs then none else some (shift_right_signed s_lhs u_rhs)
fold_binop Opcode.sdiv bits u_lhs u_rhs s_lhs s_rhs =
    if s_rhs == 0 || quotient_overflows bits s_lhs s_rhs
    then none
    else some (divide_signed s_lhs s_rhs)
fold_binop Opcode.srem bits u_lhs u_rhs s_lhs s_rhs =
    if s_rhs == 0 || quotient_overflows bits s_lhs s_rhs
    then none
    else some (remainder_signed s_lhs s_rhs)
fold_binop Opcode.udiv bits u_lhs u_rhs s_lhs s_rhs =
    if u_rhs == 0 then none else some (u_lhs / u_rhs)
fold_binop Opcode.urem bits u_lhs u_rhs s_lhs s_rhs =
    if u_rhs == 0 then none else some (u_lhs % u_rhs)
fold_binop _ bits u_lhs u_rhs s_lhs s_rhs = none

-- The result of two immediates `a` and `b` at a width, sign-extended.
unfoldable pub fold_values : Opcode → ℕ → ℕ → ℕ → Option ℕ
fold_values op bits a b =
    let u_lhs = to_unsigned_bits a bits in
    let u_rhs = to_unsigned_bits b bits in
    let folded =
      fold_binop op bits u_lhs u_rhs (sign_extend_bits u_lhs bits) (sign_extend_bits u_rhs bits) in
    elim folded [
      | none ↦ none
      | some u_res ↦ some (sign_extend_bits (bit_and u_res (mask_for_bits bits)) bits)
    ]

-- The values of the first two operands, where both are immediates.
abbrev pub two_immediates : OperandValue → OperandValue → Option (ℕ × ℕ)
two_immediates (OperandValue.imm_i64 a) (OperandValue.imm_i64 b) = some (a, b)
two_immediates _ _ = none

abbrev pub imm_operand : IrType → Option ℕ → Option Operand
imm_operand type none = none
imm_operand type (some v) = some (op_imm_i64 v type)

abbrev pub fold_pair : Opcode → IrType → Option (ℕ × ℕ) → Option Operand
fold_pair op type none = none
fold_pair op type (some (a, b)) = imm_operand type (fold_values op (type_width_bits type) a b)

abbrev pub fold_binop_operands : Opcode → IrType → List Operand → Option Operand
fold_binop_operands op type (l ∷ r ∷ others) = fold_pair op type (two_immediates l.value r.value)
fold_binop_operands op type _ = none

-- The replacement functions return `none` for `false`.
unfoldable pub fold_int_binop_immediates : Inst → Option Operand
fold_int_binop_immediates inst = fold_binop_operands inst.op inst.type inst.operands

-- `int64_t` order on bit patterns.
abbrev pub lt_signed : ℕ → ℕ → Bool
lt_signed a b = ltb ((a + 2 ^ 63) % 2 ^ 64) ((b + 2 ^ 63) % 2 ^ 64)

unfoldable pub icmp_holds : IcmpPred → ℕ → ℕ → ℕ → ℕ → Bool
icmp_holds IcmpPred.eq u_lhs u_rhs s_lhs s_rhs = u_lhs == u_rhs
icmp_holds IcmpPred.ne u_lhs u_rhs s_lhs s_rhs = not (u_lhs == u_rhs)
icmp_holds IcmpPred.sgt u_lhs u_rhs s_lhs s_rhs = lt_signed s_rhs s_lhs
icmp_holds IcmpPred.sge u_lhs u_rhs s_lhs s_rhs = not (lt_signed s_lhs s_rhs)
icmp_holds IcmpPred.slt u_lhs u_rhs s_lhs s_rhs = lt_signed s_lhs s_rhs
icmp_holds IcmpPred.sle u_lhs u_rhs s_lhs s_rhs = not (lt_signed s_rhs s_lhs)
icmp_holds IcmpPred.ugt u_lhs u_rhs s_lhs s_rhs = ltb u_rhs u_lhs
icmp_holds IcmpPred.uge u_lhs u_rhs s_lhs s_rhs = leb u_rhs u_lhs
icmp_holds IcmpPred.ult u_lhs u_rhs s_lhs s_rhs = ltb u_lhs u_rhs
icmp_holds IcmpPred.ule u_lhs u_rhs s_lhs s_rhs = leb u_lhs u_rhs

unfoldable pub compare_values : IcmpPred → ℕ → ℕ → ℕ → Bool
compare_values pred bits a b =
    let u_lhs = to_unsigned_bits a bits in
    let u_rhs = to_unsigned_bits b bits in
    icmp_holds pred u_lhs u_rhs (sign_extend_bits u_lhs bits) (sign_extend_bits u_rhs bits)

-- `cmp_ty = lhs->type ? lhs->type : inst->type`
abbrev pub compare_type : IrType → IrType → IrType
compare_type lhs type = if is_null lhs then type else lhs

abbrev pub bool_bit : Bool → ℕ
bool_bit b = if b then 1 else 0

abbrev pub fold_icmp_pair : IcmpPred → IrType → IrType → Option (ℕ × ℕ) → Option Operand
fold_icmp_pair pred lhs type none = none
fold_icmp_pair pred lhs type (some (a, b)) =
    let bits = type_width_bits (compare_type lhs type) in
    some (op_imm_i64 (bool_bit (compare_values pred bits a b)) type)

abbrev pub fold_icmp_operands : Inst → List Operand → Option Operand
fold_icmp_operands inst (l ∷ r ∷ others) =
    fold_icmp_pair inst.icmp_pred l.type inst.type (two_immediates l.value r.value)
fold_icmp_operands inst _ = none

abbrev pub is_icmp : Opcode → Bool
is_icmp Opcode.icmp = true
is_icmp _ = false

unfoldable pub fold_icmp_immediates : Inst → Option Operand
fold_icmp_immediates inst = if is_icmp inst.op then fold_icmp_operands inst inst.operands else none

-- `kind == LR_VAL_IMM_I64 && imm_i64 == k`
abbrev pub is_imm : OperandValue → ℕ → Bool
is_imm (OperandValue.imm_i64 v) k = v == k
is_imm _ k = false

-- `kind == LR_VAL_IMM_I64 && ((uint64_t)imm_i64 & mask) == mask`
abbrev pub is_all_ones : OperandValue → ℕ → Bool
is_all_ones (OperandValue.imm_i64 v) mask = bit_and v mask == mask
is_all_ones _ mask = false

abbrev pub neutral : Bool → Bool → Operand → Operand → Option Operand
neutral left right l r = if left then some r else if right then some l else none

-- The operand that the other one leaves unchanged; `mask` is that of the instruction's width.
unfoldable pub fold_identity : Opcode → ℕ → Operand → Operand → Option Operand
fold_identity Opcode.add mask l r = neutral (is_imm l.value 0) (is_imm r.value 0) l r
fold_identity Opcode.sub mask l r = neutral false (is_imm r.value 0) l r
fold_identity Opcode.mul mask l r = neutral (is_imm l.value 1) (is_imm r.value 1) l r
fold_identity Opcode.sdiv mask l r = neutral false (is_imm r.value 1) l r
fold_identity Opcode.udiv mask l r = neutral false (is_imm r.value 1) l r
fold_identity Opcode.and mask l r =
    neutral (is_all_ones l.value mask) (is_all_ones r.value mask) l r
fold_identity Opcode.or mask l r = neutral (is_imm l.value 0) (is_imm r.value 0) l r
fold_identity Opcode.xor mask l r = neutral (is_imm l.value 0) (is_imm r.value 0) l r
fold_identity Opcode.shl mask l r = neutral false (is_imm r.value 0) l r
fold_identity Opcode.lshr mask l r = neutral false (is_imm r.value 0) l r
fold_identity Opcode.ashr mask l r = neutral false (is_imm r.value 0) l r
fold_identity _ mask l r = none

abbrev pub fold_identity_operands : Opcode → IrType → List Operand → Option Operand
fold_identity_operands op type (l ∷ r ∷ others) =
    fold_identity op (mask_for_bits (type_width_bits type)) l r
fold_identity_operands op type _ = none

unfoldable pub fold_identity_int_binop : Inst → Option Operand
fold_identity_int_binop inst = fold_identity_operands inst.op inst.type inst.operands

abbrev pub same_value : OperandValue → OperandValue → Bool
same_value (OperandValue.vreg a) (OperandValue.vreg b) = a == b
same_value (OperandValue.imm_i64 a) (OperandValue.imm_i64 b) = a == b
same_value (OperandValue.imm_f64 a) (OperandValue.imm_f64 b) = a == b
same_value (OperandValue.block a) (OperandValue.block b) = a == b
same_value (OperandValue.global a) (OperandValue.global b) = a == b
same_value OperandValue.null OperandValue.null = true
same_value OperandValue.undef OperandValue.undef = true
same_value _ _ = false

abbrev pub is_select : Opcode → Bool
is_select Opcode.select = true
is_select _ = false

abbrev pub or_else : Option Operand → Option Operand → Option Operand
or_else (some o) other = some o
or_else none other = other

-- Types are compared by their addresses: `same_type` is that comparison.
module _ (same_type : IrType → IrType → Bool) where
  unfoldable pub operand_equal : Operand → Operand → Bool
  operand_equal a b =
      same_type a.type b.type && (a.global_offset == b.global_offset && same_value a.value b.value)

  abbrev pub select_operands : Operand → Operand → Operand → OperandValue → Option Operand
  select_operands c x y (OperandValue.imm_i64 v) = some (if v == 0 then y else x)
  select_operands c x y _ = if operand_equal x y then some x else none

  abbrev pub fold_select_operands : List Operand → Option Operand
  fold_select_operands (c ∷ x ∷ y ∷ others) = select_operands c x y c.value
  fold_select_operands _ = none

  unfoldable pub fold_select : Inst → Option Operand
  fold_select inst = if is_select inst.op then fold_select_operands inst.operands else none

  unfoldable pub try_inst_replacement : Inst → Option Operand
  try_inst_replacement inst = or_else (fold_select inst) (
      or_else (fold_icmp_immediates inst)
        (or_else (fold_int_binop_immediates inst) (fold_identity_int_binop inst)))

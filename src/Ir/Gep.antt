-- ===== src/Ir/Gep.antt =====
-- One index of a `getelementptr`: `lr_gep_analyze_step` of src/ir.c, against the index paths.
pub mod Steps
pub mod Canonical
mod Tests
use liric.Base.{ℕ, ◌+◌, ◌*◌, ◌^◌, Bool, true, false, Option, none, some, if◌then◌else◌, u32, u64}
use liric.Ir.Types.{IrType, nth_type}
use liric.Ir.Layout.{type_size, struct_field_offset, is_null}
use liric.Ir.Inst.{OperandValue, Operand}

pub record GepStep : Type 0 where
  pub is_const : Bool
  pub const_byte_offset : ℕ
  pub runtime_elem_size : ℕ
  pub runtime_signext_bytes : ℕ
  pub next_type : IrType

-- `lr_gep_index_signext_bytes`, of the operand's type.
unfoldable pub gep_index_signext_bytes : IrType → ℕ
gep_index_signext_bytes IrType.i1 = 1
gep_index_signext_bytes IrType.i8 = 1
gep_index_signext_bytes IrType.i16 = 2
gep_index_signext_bytes IrType.i32 = 4
gep_index_signext_bytes _ = 0

-- `(uint32_t)idx_op->imm_i64`, and otherwise `idx_op->vreg`: the low half of the same union, which
-- is 0 for the kinds that set no member.
abbrev pub field_number : OperandValue → ℕ
field_number (OperandValue.imm_i64 v) = u32 v
field_number (OperandValue.vreg v) = u32 v
field_number (OperandValue.imm_f64 v) = u32 v
field_number (OperandValue.block v) = u32 v
field_number (OperandValue.global v) = u32 v
field_number OperandValue.null = 0
field_number OperandValue.undef = 0

abbrev pub const_step : ℕ → IrType → GepStep
const_step offset type = record {
  is_const = true;
  const_byte_offset = offset;
  runtime_elem_size = 0;
  runtime_signext_bytes = 0;
  next_type = type;
}

-- An index that counts elements: a constant, or a size to multiply with at run time.
abbrev pub scaled_step : ℕ → IrType → IrType → OperandValue → GepStep
scaled_step elem_size type idx_type (OperandValue.imm_i64 v) = const_step (u64 (v * elem_size)) type
scaled_step elem_size type idx_type _ = record {
  is_const = false;
  const_byte_offset = 0;
  runtime_elem_size = elem_size;
  runtime_signext_bytes = gep_index_signext_bytes idx_type;
  next_type = type;
}

abbrev pub field_type : IrType → Option IrType → IrType
field_type cur none = cur
field_type cur (some t) = t

-- The indices behind the first.
abbrev pub inner_step : IrType → Operand → Option GepStep
inner_step (IrType.struct fields packed name) idx =
    let cur = IrType.struct fields packed name in
    let field = field_number idx.value in
    some (const_step (struct_field_offset cur field) (field_type cur (nth_type fields field)))
inner_step (IrType.array elem count) idx =
    some (scaled_step (type_size elem) elem idx.type idx.value)
inner_step (IrType.vector elem count) idx =
    some (scaled_step (type_size elem) elem idx.type idx.value)
inner_step _ idx = none

-- `none` is the return value `false`.
unfoldable pub gep_analyze_step : IrType → Bool → Operand → Option GepStep
gep_analyze_step cur first_index idx =
    if is_null cur
    then none
    else if first_index
    then some (scaled_step (type_size cur) cur idx.type idx.value)
    else inner_step cur idx

-- ===== src/Ir/Inst.antt =====
-- Operands and instructions of src/ir.h and include/liric/liric_ir_shared.h. An `int64_t` is its 64-bit
-- pattern, and so is a `double`.
use liric.Base.{ℕ, List, Bool, true, false, if◌then◌else◌, ◌==◌}
use liric.Ir.Types.{IrType}

pub data Opcode : Type 0 where
  ret ret_void br condbr unreachable add sub mul sdiv srem udiv urem : Opcode
  and or xor shl lshr ashr fadd fsub fmul fdiv frem fneg icmp fcmp alloca load store gep : Opcode
  call phi select sext zext trunc bitcast ptrtoint inttoptr sitofp uitofp fptosi fptoui : Opcode
  fpext fptrunc extractvalue insertvalue : Opcode

pub data IcmpPred : Type 0 where
  eq ne sgt sge slt sle ugt uge ult ule : IcmpPred

-- The kind of an operand with the member of the union that it selects.
pub data OperandValue : Type 0 where
  vreg imm_i64 imm_f64 block global : ℕ → OperandValue
  null undef : OperandValue

pub record Operand : Type 0 where
  pub value : OperandValue
  pub type : IrType
  pub global_offset : ℕ

pub record Inst : Type 0 where
  pub op : Opcode
  pub type : IrType
  pub dest : ℕ
  pub operands : List Operand
  pub icmp_pred : IcmpPred

abbrev pub is_i1 : IrType → Bool
is_i1 IrType.i1 = true
is_i1 _ = false

-- `lr_op_imm_i64`: an `i1` is brought to 0 or 1.
unfoldable pub op_imm_i64 : ℕ → IrType → Operand
op_imm_i64 val type = record {
  value = OperandValue.imm_i64 (if is_i1 type then (if val == 0 then 0 else 1) else val);
  type = type;
  global_offset = 0;
}

-- `lr_op_vreg`
abbrev pub op_vreg : ℕ → IrType → Operand
op_vreg v type = record { value = OperandValue.vreg v; type = type; global_offset = 0 }

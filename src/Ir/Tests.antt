-- ===== src/Ir/Tests.antt =====
-- Runs of the layout and folding functions, and the theorems at concrete inputs.
use native.Mathlib.Nat.{mod-lt, one-le-pow}
use liric.Base.{ℕ, ◌+◌, ◌*◌, ◌%◌, ◌^◌, ◌≤◌, ◌<◌, ◌≡◌, refl, arith, [], ◌∷◌}
use liric.Base.{none, some, Bool, false, not, ◌==◌}
use liric.Ir.Types.{IrType, IrTypes, nil, cons, nth_type, count_types}
use liric.Base.{u64, List}
use liric.Ir.Gep.{GepStep, gep_analyze_step, const_step, gep_index_signext_bytes}
use liric.Ir.Phi.{BlockPhiCopies, build_phi_copies, func_edges, phi_edges}
use liric.Ir.Phi.Copies.{build_phi_copies-copies_from, copies_from}
use liric.Ir.Phi.Counting.{edges_from}
use liric.Ir.Gep.Steps.{index_operand, gep_analyze_step-index_step, gep_analyze_step_runtime}
use liric.Ir.Inst.{Opcode, IcmpPred, OperandValue, Operand, Inst, op_imm_i64}
use liric.Ir.Layout.{
  align_up, type_size, type_align, fields_size, field_offset, struct_field_offset,
}
use liric.Ir.Layout.{aggregate_index_path, index_path, index_step}
use liric.Ir.Layout.Fields.{field_inside, fields_disjoint}
use liric.Base.{◌≢◌}
use liric.Ir.Layout.Aligned.{field_offset_aligned, vector_misaligned, odd_vector, bytes_then_vector}
use liric.Ir.Layout.Paths.{aggregate_index_path_inside, Fits}
use liric.Ir.Fold.{fold_values, compare_values, fold_identity}
use liric.Ir.Integer.{sign_extend_bits}
use liric.Ir.Fold.{try_inst_replacement, fold_select, fold_icmp_immediates}
use liric.Ir.Integer.{type_width_bits}
use liric.Ir.Fold.{fold_int_binop_immediates, fold_binop}
use liric.Ir.Integer.{to_unsigned_bits}
use liric.Ir.Fold.Semantics.{eval_binop, eval_icmp}
use liric.Ir.Fold.Binops.{fold_values-eval_binop}
use liric.Ir.Fold.Compares.{compare_values-eval_icmp}
use liric.Ir.Fold.Identity.{fold_identity-eval_binop}
use liric.Ir.Fold.Replacement.{try_inst_replacement-eval_inst, eval_operands}

-- A byte, an `i64` and an `i16`.
abbrev three_fields : IrTypes
three_fields = cons IrType.i8 (cons IrType.i64 (cons IrType.i16 nil))

three_fields_offset : field_offset three_fields false 2 0 ≡ 16
unfolding field_offset type_align type_size align_up
three_fields_offset = refl

field_inside_example :
    (0 ≤ field_offset three_fields false 1 0)
    × (field_offset three_fields false 1 0 + type_size IrType.i64
        ≤ fields_size three_fields false 0)
unfolding nth_type type_align type_size align_up
field_inside_example = field_inside three_fields false 0 1 IrType.i64 (omega arith) refl

fields_disjoint_example :
    field_offset three_fields false 0 0 + type_size IrType.i8 ≤ field_offset three_fields false 2 0
unfolding nth_type type_align type_size align_up
fields_disjoint_example =
    fields_disjoint three_fields false 0 0 2 IrType.i8 IrType.i16 (omega arith) (omega arith) refl
      refl

field_offset_aligned_example : field_offset three_fields false 1 0 % type_align IrType.i64 ≡ 0
unfolding nth_type type_align type_size align_up
field_offset_aligned_example =
    field_offset_aligned three_fields 0 1 3 IrType.i64 (omega arith) refl refl

vector_misaligned_example :
    (type_align (odd_vector 1) ≡ type_size (odd_vector 1))
    × (struct_field_offset (bytes_then_vector 3 1) 1 ≡ 4)
    × (struct_field_offset (bytes_then_vector 3 1) 1 % type_align (odd_vector 1) ≢ 0)
vector_misaligned_example =
    vector_misaligned 3 1 (omega arith) (omega arith) (omega arith) (omega arith)

-- Element 2 of an array, the second field of it.
abbrev array_of_structs : IrType
array_of_structs = IrType.array (IrType.struct three_fields false none) 4

aggregate_index_path_inside_example : 56 + type_size IrType.i64 ≤ type_size array_of_structs
unfolding Fits type_size type_align aggregate_index_path index_path index_step field_offset align_up
    nth_type count_types
aggregate_index_path_inside_example =
    aggregate_index_path_inside array_of_structs (2 ∷ 1 ∷ []) 56 IrType.i64 (omega arith)
      (omega arith) refl

-- -7 / 2 on `i8`.
fold_values-eval_binop_example : fold_values Opcode.sdiv 8 249 2 ≡ some (sign_extend_bits 253 8)
unfolding eval_binop
fold_values-eval_binop_example =
    fold_values-eval_binop 8 7 refl (omega arith) Opcode.sdiv 249 2 253 refl

compare_values-eval_icmp_example :
    compare_values IcmpPred.slt 8 255 1 ≡ eval_icmp IcmpPred.slt 8 (255 % 2 ^ 8) (1 % 2 ^ 8)
compare_values-eval_icmp_example =
    compare_values-eval_icmp 8 7 refl (omega arith) IcmpPred.slt 255 1

-- Immediates have their words; everything else is 0 here, and no other condition holds.
abbrev value : ℕ → OperandValue → ℕ
value w (OperandValue.imm_i64 n) = n % 2 ^ w
value w _ = 0

abbrev holds : OperandValue → Bool
holds (OperandValue.imm_i64 n) = not (n == 0)
holds _ = false

value_fits : (w : ℕ) (o : OperandValue) → value w o < 2 ^ w
value_fits w (OperandValue.imm_i64 n) = mod-lt n (one-le-pow w 2 (omega arith))
value_fits w _ = one-le-pow w 2 (omega arith)

abbrev operand : OperandValue → Operand
operand v = record { value = v; type = IrType.i8; global_offset = 0 }

-- `x & 255` on `i8` is `x`.
fold_identity-eval_binop_example : value 8 (OperandValue.vreg 4) ≡ 0
unfolding fold_identity eval_binop
fold_identity-eval_binop_example =
    fold_identity-eval_binop 8 7 refl (omega arith) (value 8) (value_fits 8) (λ n. refl) Opcode.and
      (operand (OperandValue.vreg 4)) (operand (OperandValue.imm_i64 255))
      (operand (OperandValue.vreg 4)) 0 refl refl

-- `200 + 100` on `i8` is 44.
abbrev add_bytes : Inst
add_bytes = record {
  op = Opcode.add;
  type = IrType.i8;
  dest = 9;
  operands = operand (OperandValue.imm_i64 200) ∷ operand (OperandValue.imm_i64 100) ∷ [];
  icmp_pred = IcmpPred.eq;
}

try_inst_replacement-eval_inst_example :
    value (type_width_bits IrType.i8) (OperandValue.imm_i64 44) ≡ 44
unfolding try_inst_replacement fold_select fold_icmp_immediates fold_int_binop_immediates
    fold_values fold_binop to_unsigned_bits sign_extend_bits op_imm_i64 type_width_bits
    eval_operands eval_binop
try_inst_replacement-eval_inst_example =
    try_inst_replacement-eval_inst value holds (λ a b. false) value_fits (λ w n. refl) (λ n. refl)
      add_bytes (operand (OperandValue.imm_i64 44)) 44 refl refl

-- The second field of the struct above, and an array's element by a register.
gep_analyze_step-index_step_example :
    gep_analyze_step
      (IrType.struct three_fields false none)
      false
      (index_operand (OperandValue.imm_i64 1) IrType.i32)
    ≡ some (const_step 8 IrType.i64)
unfolding index_step nth_type field_offset type_align type_size align_up
gep_analyze_step-index_step_example =
    gep_analyze_step-index_step (IrType.struct three_fields false none) 1 8 IrType.i64 IrType.i32
      (omega arith) refl

abbrev by_register : GepStep
by_register = record {
  is_const = false;
  const_byte_offset = 0;
  runtime_elem_size = 8;
  runtime_signext_bytes = 4;
  next_type = IrType.i64;
}

gep_analyze_step_runtime_example :
    gep_analyze_step
      (IrType.array IrType.i64 4)
      false
      (index_operand (OperandValue.imm_i64 3) IrType.i32)
    ≡ some (const_step (u64 (3 * 8)) IrType.i64)
unfolding gep_analyze_step gep_index_signext_bytes type_size
gep_analyze_step_runtime_example =
    gep_analyze_step_runtime (IrType.array IrType.i64 4) false 7 3 IrType.i32 by_register refl refl

-- A phi node of two edges.
abbrev one_phi : List Inst
one_phi =
    record {
      op = Opcode.phi;
      type = IrType.i8;
      dest = 9;
      operands =
          operand (OperandValue.imm_i64 5)
          ∷ operand (OperandValue.block 0)
          ∷ operand (OperandValue.vreg 3)
          ∷ operand (OperandValue.block 1)
          ∷ [];
      icmp_pred = IcmpPred.eq;
    }
    ∷ []

build_phi_copies-copies_from_example :
    (r : ℕ → BlockPhiCopies) × (build_phi_copies 2 one_phi ≡ some r)
    × ((p : ℕ)
        → p < 2
        → ((r p).copies ≡ copies_from p (func_edges one_phi) [])
          × ((r p).count ≡ edges_from p (func_edges one_phi)))
unfolding func_edges phi_edges
build_phi_copies-copies_from_example = build_phi_copies-copies_from 2 one_phi (omega arith)

-- ===== src/Ir/Gep/Steps.antt =====
-- `lr_gep_analyze_step` of src/ir.c with a constant beside `lr_aggregate_index_path`, and with a
-- register beside a constant.
use native.Mathlib.Nat.{mod-eq_of_lt}
use liric.Base.{ℕ, ◌*◌, ◌^◌, ◌<◌, ◌≡◌, refl, ap, Bool, true, false, Option, none, some, u64, leb}
use liric.Base.{Bool-cases, inl, inr}
use liric.Ir.Types.{IrType, nth_type}
use liric.Ir.Layout.{type_size, struct_field_offset, field_offset, index_step, element_step}
use liric.Ir.Inst.{OperandValue, Operand}
use liric.Ir.Gep.{GepStep, gep_analyze_step, const_step, scaled_step, field_type}

abbrev pub index_operand : OperandValue → IrType → Operand
index_operand v type = record { value = v; type = type; global_offset = 0 }

element-const :
    (elem : IrType) (count i off : ℕ) (leaf idx_type : IrType)
    → element_step elem count i ≡ some (off, leaf)
    → scaled_step (type_size elem) elem idx_type (OperandValue.imm_i64 i) ≡ const_step off leaf
element-const elem count i off leaf idx_type h = elim (Bool-cases (leb count i)) [
  | inl out ↦ let none_here : element_step elem count i ≡ none = rw out refl in absurd (cc)
  | inr inside ↦
      let here : element_step elem count i ≡ some (u64 (i * type_size elem), elem) =
        rw inside refl in
      let same_offset : u64 (i * type_size elem) ≡ off = cc in
      let same_type : elem ≡ leaf = cc in cc
]

-- Where `lr_aggregate_index_path` accepts an index below 2 ^ 32 in a type, a `getelementptr` step
-- by that constant adds the same offset and leads to the same type.
pub gep_analyze_step-index_step :
    (cur : IrType) (i off : ℕ) (leaf idx_type : IrType)
    → i < 2 ^ 32
    → index_step cur i ≡ some (off, leaf)
    → gep_analyze_step cur false (index_operand (OperandValue.imm_i64 i) idx_type)
      ≡ some (const_step off leaf)
unfolding gep_analyze_step index_step struct_field_offset
gep_analyze_step-index_step (IrType.struct fields packed name) i off leaf idx_type small h =
    rw (mod-eq_of_lt {n = i} {m = 2 ^ 32} small) (found (nth_type fields i) refl)
  where
    found :
        (o : Option IrType)
        → nth_type fields i ≡ o
        → some (
            const_step
              (field_offset fields packed i 0)
              (field_type (IrType.struct fields packed name) o))
          ≡ some (const_step off leaf)
    found none e =
        let nowhere : index_step (IrType.struct fields packed name) i ≡ none =
          rw (index_step, e) refl in
        absurd (cc)
    found (some t) e =
        let here : index_step (IrType.struct fields packed name) i
            ≡ some (field_offset fields packed i 0, t) =
          rw (index_step, e) refl in
        let same_offset : field_offset fields packed i 0 ≡ off = cc in
        let same_type : t ≡ leaf = cc in cc
gep_analyze_step-index_step (IrType.array elem count) i off leaf idx_type small h =
    ap some (element-const elem count i off leaf idx_type h)
gep_analyze_step-index_step (IrType.vector elem count) i off leaf idx_type small h =
    ap some (element-const elem count i off leaf idx_type h)
gep_analyze_step-index_step _ i off leaf idx_type small h = absurd (cc)

-- Where a step by a register is left to run time, a step by a constant v leads to the same type and
-- adds v times the size that the register is to be multiplied with, as a 64-bit number.
pub gep_analyze_step_runtime :
    (cur : IrType) (first_index : Bool) (r v : ℕ) (idx_type : IrType) (s : GepStep)
    → gep_analyze_step cur first_index (index_operand (OperandValue.vreg r) idx_type) ≡ some s
    → s.is_const ≡ false
    → gep_analyze_step cur first_index (index_operand (OperandValue.imm_i64 v) idx_type)
      ≡ some (const_step (u64 (v * s.runtime_elem_size)) s.next_type)
unfolding gep_analyze_step
gep_analyze_step_runtime cur first_index r v idx_type s h runtime = by_type cur first_index h
  where
    same :
        (size : ℕ) (type : IrType)
        → some (scaled_step size type idx_type (OperandValue.vreg r)) ≡ some s
        → some (const_step (u64 (v * size)) type)
          ≡ some (const_step (u64 (v * s.runtime_elem_size)) s.next_type)
    same size type e =
        let it : scaled_step size type idx_type (OperandValue.vreg r) ≡ s = cc in
        ap (λ q. some (const_step (u64 (v * q.runtime_elem_size)) q.next_type)) it

    by_type :
        (t : IrType) (first : Bool)
        → gep_analyze_step t first (index_operand (OperandValue.vreg r) idx_type) ≡ some s
        → gep_analyze_step t first (index_operand (OperandValue.imm_i64 v) idx_type)
          ≡ some (const_step (u64 (v * s.runtime_elem_size)) s.next_type)
    by_type IrType.null first e = absurd (cc)
    by_type (IrType.struct fields packed name) false e =
        let fixed : true ≡ s.is_const = cc in absurd (cc)
    by_type (IrType.array elem count) false e = same (type_size elem) elem e
    by_type (IrType.vector elem count) false e = same (type_size elem) elem e
    by_type t true e = same (type_size t) t e
    by_type _ false e = absurd (cc)

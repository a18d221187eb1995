-- ===== src/Ir/Gep/Canonical.antt =====
-- `lr_canonicalize_gep_index` of src/ir.c: an index of a `getelementptr` that is a register of a
-- narrow integer type is sign-extended by an instruction of its own.
use liric.Base.{ℕ, ◌≡◌, ◌≢◌, refl, sym, ◌∙◌, ap, ◌⊎◌, inl, inr, arith}
use liric.Base.{List, [], ◌∷◌, Option, none, some, Bool, true, false, if◌then◌else◌}
use liric.Base.{get_or, get_or-set_other, get_or-set_found, Bool-cases, ◌+◌, ◌++◌, u32}
use liric.Ir.Types.{IrType}
use liric.Ir.Layout.{type_size}
use liric.Ir.Inst.{Opcode, IcmpPred, OperandValue, Operand, Inst, op_vreg}
use liric.Ir.Finalize.{Func, FuncBlock, vreg_new, append_inst, block_append}
use liric.Ir.Gep.{GepStep, gep_analyze_step, gep_index_signext_bytes, scaled_step}

abbrev pub is_narrow_int : IrType → Bool
is_narrow_int IrType.i1 = true
is_narrow_int IrType.i8 = true
is_narrow_int IrType.i16 = true
is_narrow_int IrType.i32 = true
is_narrow_int _ = false

-- `lr_inst_create` does not set the predicate: it is what the memory held before.
module _ (held : IcmpPred) where
  unfoldable pub inst_create : Opcode → IrType → ℕ → List Operand → Inst
  inst_create op type dest ops = record {
    op = op;
    type = type;
    dest = dest;
    operands = ops;
    icmp_pred = held;
  }

  -- `some b` is a block of a function, and `none` that the block or the function is NULL.
  abbrev pub extend_index : Option ℕ → Func → Operand → Operand × Func
  extend_index none f idx_op = (idx_op, f)
  extend_index (some b) f idx_op =
      let (cast_dest, f') = vreg_new f in
      if is_narrow_int idx_op.type
      then (
        op_vreg cast_dest IrType.i64,
        block_append f' b (inst_create Opcode.sext IrType.i64 cast_dest (idx_op ∷ [])),
      )
      else (idx_op, f)

  -- With a module, whose `type_i64` is the type `i64`.
  unfoldable pub canonicalize_gep_index : Option ℕ → Func → Operand → Operand × Func
  canonicalize_gep_index b f idx_op = elim idx_op.value [
    | OperandValue.imm_i64 v ↦ (record idx_op { type = IrType.i64 }, f)
    | OperandValue.undef ↦ (record idx_op { type = IrType.i64 }, f)
    | OperandValue.vreg v ↦ extend_index b f idx_op
    | _ ↦ (idx_op, f)
  ]

wide-signext_bytes : (t : IrType) → is_narrow_int t ≡ false → gep_index_signext_bytes t ≡ 0
unfolding gep_index_signext_bytes
wide-signext_bytes IrType.i1 wide = absurd (cc)
wide-signext_bytes IrType.i8 wide = absurd (cc)
wide-signext_bytes IrType.i16 wide = absurd (cc)
wide-signext_bytes IrType.i32 wide = absurd (cc)
wide-signext_bytes _ wide = refl

scaled-signext_bytes :
    (size : ℕ) (type idx_type : IrType) (v : OperandValue)
    → gep_index_signext_bytes idx_type ≡ 0
    → (scaled_step size type idx_type v).runtime_signext_bytes ≡ 0
scaled-signext_bytes size type idx_type (OperandValue.imm_i64 n) wide = refl
scaled-signext_bytes size type idx_type _ wide = wide

-- A step by an index that needs no sign extension needs none.
step-signext_bytes :
    (cur : IrType) (first_index : Bool) (idx : Operand) (s : GepStep)
    → gep_index_signext_bytes idx.type ≡ 0
    → gep_analyze_step cur first_index idx ≡ some s
    → s.runtime_signext_bytes ≡ 0
unfolding gep_analyze_step
step-signext_bytes cur first_index idx s wide h = by_type cur first_index h
  where
    scaled :
        (size : ℕ) (type : IrType)
        → some (scaled_step size type idx.type idx.value) ≡ some s
        → s.runtime_signext_bytes ≡ 0
    scaled size type e =
        let it : scaled_step size type idx.type idx.value ≡ s = cc in
        ap (λ q. q.runtime_signext_bytes) (sym it)
        ∙ scaled-signext_bytes size type idx.type idx.value wide

    by_type :
        (t : IrType) (first : Bool)
        → gep_analyze_step t first idx ≡ some s
        → s.runtime_signext_bytes ≡ 0
    by_type IrType.null first e = absurd (cc)
    by_type (IrType.struct fields packed name) false e = cc
    by_type (IrType.array elem count) false e = scaled (type_size elem) elem e
    by_type (IrType.vector elem count) false e = scaled (type_size elem) elem e
    by_type t true e = scaled (type_size t) t e
    by_type _ false e = absurd (cc)

narrow-signext_bytes : (t : IrType) → is_narrow_int t ≡ true → gep_index_signext_bytes t ≢ 0
unfolding gep_index_signext_bytes
narrow-signext_bytes IrType.i1 narrow = λ e. absurd (omega arith)
narrow-signext_bytes IrType.i8 narrow = λ e. absurd (omega arith)
narrow-signext_bytes IrType.i16 narrow = λ e. absurd (omega arith)
narrow-signext_bytes IrType.i32 narrow = λ e. absurd (omega arith)
narrow-signext_bytes _ narrow = absurd (cc)

canonicalize-wide :
    (held : IcmpPred) (b : ℕ) (f : Func) (idx : Operand) (v : ℕ)
    → idx.value ≡ OperandValue.vreg v
    → is_narrow_int idx.type ≡ false
    → canonicalize_gep_index held (some b) f idx ≡ (idx, f)
unfolding canonicalize_gep_index
canonicalize-wide held b f idx v reg wide = rw (reg, wide) refl

canonicalize-narrow :
    (held : IcmpPred) (b : ℕ) (f : Func) (idx : Operand) (v : ℕ)
    → idx.value ≡ OperandValue.vreg v
    → is_narrow_int idx.type ≡ true
    → canonicalize_gep_index held (some b) f idx ≡ (
      op_vreg f.next_vreg IrType.i64,
      block_append
          ((vreg_new f).1)
          b
          (inst_create held Opcode.sext IrType.i64 f.next_vreg (idx ∷ [])),
    )
unfolding canonicalize_gep_index vreg_new
canonicalize-narrow held b f idx v reg narrow = rw (reg, narrow) refl

-- A `sext` to `i64` of the index alone, with a register for its result.
abbrev pub sext_of : IcmpPred → Operand → ℕ → Inst
sext_of held idx dest = record {
  op = Opcode.sext;
  type = IrType.i64;
  dest = dest;
  operands = idx ∷ [];
  icmp_pred = held;
}

-- The block with an instruction behind its others, and without its array.
abbrev pub with_last : FuncBlock → Inst → FuncBlock
with_last block inst = record { insts = block.insts ++ inst ∷ []; inst_array = none; num_insts = 0 }

-- `lr_canonicalize_gep_index` on an index that is a register, with a block of a function. Where the
-- register's type is one that a step would sign-extend, it appends to the block one instruction,
-- the `sext` to `i64` of this index to the function's next register, and gives this register with
-- the type `i64`; the number of the next register is one higher, on 32 bits. With any other type
-- the index and the function stay as they are. All other blocks of the function stay as they are,
-- and no step by the index that it gives needs a sign extension, whatever type is stepped into.
pub canonicalize_gep_index-signext_bytes :
    (held : IcmpPred) (b c : ℕ) (f : Func) (block : FuncBlock) (idx : Operand) (v : ℕ)
    (cur : IrType) (first_index : Bool) (s : GepStep)
    → get_or f.blocks b none ≡ some block
    → idx.value ≡ OperandValue.vreg v
    → b ≢ c
    → gep_analyze_step cur first_index (canonicalize_gep_index held (some b) f idx).0 ≡ some s
    → (s.runtime_signext_bytes ≡ 0)
      × (get_or (canonicalize_gep_index held (some b) f idx).1.blocks c none
          ≡ get_or f.blocks c none)
      × (((gep_index_signext_bytes idx.type ≢ 0)
            × ((canonicalize_gep_index held (some b) f idx).0 ≡ op_vreg f.next_vreg IrType.i64)
            × ((canonicalize_gep_index held (some b) f idx).1.next_vreg ≡ u32 (f.next_vreg + 1))
            × (get_or (canonicalize_gep_index held (some b) f idx).1.blocks b none
                ≡ some (with_last block (sext_of held idx f.next_vreg))))
          ⊎ ((gep_index_signext_bytes idx.type ≡ 0)
              × (canonicalize_gep_index held (some b) f idx ≡ (idx, f))))
unfolding gep_index_signext_bytes block_append vreg_new inst_create
canonicalize_gep_index-signext_bytes held b c f block idx v cur first_index s there reg other h =
    elim (Bool-cases (is_narrow_int idx.type)) [
      | inl narrow ↦
          let sext = canonicalize-narrow held b f idx v reg narrow in
          let found : get_or f.blocks b none ≢ none = λ e. absurd (cc) in
          (
            step-signext_bytes cur first_index _ s
                (ap (λ p. gep_index_signext_bytes (p.0).type) sext) h,
            ap (λ p. get_or (p.1).blocks c none) sext ∙ get_or-set_other f.blocks b c _ none other,
            inl (
              narrow-signext_bytes idx.type narrow,
              ap (λ p. p.0) sext,
              ap (λ p. (p.1).next_vreg) sext,
              ap (λ p. get_or (p.1).blocks b none) sext
                  ∙ get_or-set_found f.blocks b _ none found
                  ∙ ap (append_inst (sext_of held idx f.next_vreg)) there,
            ),
          )
      | inr wide ↦
          let same = canonicalize-wide held b f idx v reg wide in
          let none_needed = wide-signext_bytes idx.type wide in
          (
            step-signext_bytes cur first_index _ s
                (ap (λ p. gep_index_signext_bytes (p.0).type) same ∙ none_needed) h,
            ap (λ p. get_or (p.1).blocks c none) same,
            inr (none_needed, same),
          )
    ]

-- ===== src/Ir/Gep/Tests.antt =====
-- The canonical form of an index at a concrete register.
use liric.Base.{◌≡◌, ◌≢◌, refl, arith, ◌⊎◌, [], ◌∷◌, none, some, get_or, true, false}
use liric.Ir.Types.{IrType}
use liric.Ir.Layout.{type_size}
use liric.Ir.Inst.{Opcode, IcmpPred, Operand, op_vreg, op_imm_i64}
use liric.Ir.Finalize.{Func, FuncBlock, vreg_new, block_append}
use liric.Ir.Gep.{GepStep, gep_analyze_step, gep_index_signext_bytes}
use liric.Ir.Gep.Canonical.{inst_create, canonicalize_gep_index}
use liric.Ir.Gep.Canonical.{canonicalize_gep_index-signext_bytes, sext_of, with_last}

-- Two empty blocks and four registers.
abbrev two_blocks : Func
two_blocks = record {
  blocks =
      some (record { insts = []; inst_array = none; num_insts = 0 })
      ∷ some (record { insts = []; inst_array = none; num_insts = 0 })
      ∷ [];
  has_block_array = true;
  block_inst_offsets = some (0 ∷ 0 ∷ 0 ∷ []);
  linear_inst_array = none;
  num_linear_insts = 0;
  next_vreg = 4;
}

abbrev narrow_index : Operand
narrow_index = op_vreg 3 IrType.i32

-- A `sext` of the register 3 to the register 4 in the block 1.
abbrev canonical : Operand × Func
canonical = (
  op_vreg 4 IrType.i64,
  record {
    blocks =
        some (record { insts = []; inst_array = none; num_insts = 0 })
        ∷ some (record {
          insts =
              record {
                op = Opcode.sext;
                type = IrType.i64;
                dest = 4;
                operands = narrow_index ∷ [];
                icmp_pred = IcmpPred.ne;
              }
              ∷ [];
          inst_array = none;
          num_insts = 0;
        })
        ∷ [];
    has_block_array = true;
    block_inst_offsets = none;
    linear_inst_array = none;
    num_linear_insts = 0;
    next_vreg = 5;
  },
)

narrow_register : canonicalize_gep_index IcmpPred.ne (some 1) two_blocks narrow_index ≡ canonical
unfolding canonicalize_gep_index vreg_new block_append inst_create
narrow_register = refl

constant_type :
    (canonicalize_gep_index IcmpPred.ne none two_blocks (op_imm_i64 7 IrType.i8)).0
    ≡ op_imm_i64 7 IrType.i64
unfolding canonicalize_gep_index op_imm_i64
constant_type = refl

abbrev wide_step : GepStep
wide_step = record {
  is_const = false;
  const_byte_offset = 0;
  runtime_elem_size = 8;
  runtime_signext_bytes = 0;
  next_type = IrType.i64;
}

abbrev no_insts : FuncBlock
no_insts = record { insts = []; inst_array = none; num_insts = 0 }

canonicalize_gep_index-signext_bytes_example :
    (wide_step.runtime_signext_bytes ≡ 0)
    × (get_or (canonicalize_gep_index IcmpPred.ne (some 1) two_blocks narrow_index).1.blocks 0 none
        ≡ get_or two_blocks.blocks 0 none)
    × (((gep_index_signext_bytes IrType.i32 ≢ 0)
          × ((canonicalize_gep_index IcmpPred.ne (some 1) two_blocks narrow_index).0
              ≡ op_vreg 4 IrType.i64)
          × ((canonicalize_gep_index IcmpPred.ne (some 1) two_blocks narrow_index).1.next_vreg ≡ 5)
          × (get_or
                (canonicalize_gep_index IcmpPred.ne (some 1) two_blocks narrow_index).1.blocks
                1
                none
              ≡ some (with_last no_insts (sext_of IcmpPred.ne narrow_index 4))))
        ⊎ ((gep_index_signext_bytes IrType.i32 ≡ 0)
            × (canonicalize_gep_index IcmpPred.ne (some 1) two_blocks narrow_index
                ≡ (narrow_index, two_blocks))))
unfolding canonicalize_gep_index vreg_new gep_analyze_step gep_index_signext_bytes type_size
canonicalize_gep_index-signext_bytes_example =
    canonicalize_gep_index-signext_bytes IcmpPred.ne 1 0 two_blocks no_insts narrow_index 3
      (IrType.array IrType.i64 4) false wide_step refl refl (λ e. absurd (omega arith)) refl

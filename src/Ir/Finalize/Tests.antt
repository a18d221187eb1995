-- ===== src/Ir/Finalize/Tests.antt =====
-- A small function through the passes and `lr_func_finalize`, and the theorems on it.
use liric.Base.{ℕ, ◌≡◌, refl, arith, List, [], ◌∷◌, none, some, Bool, true, false}
use liric.Base.{get_or, take, drop}
use liric.Ir.Types.{IrType}
use liric.Ir.Inst.{Opcode, IcmpPred, Operand, Inst, op_imm_i64, op_vreg}
use liric.Ir.Integer.{type_width_bits, to_unsigned_bits, sign_extend_bits}
use liric.Ir.Fold.{
  try_inst_replacement, fold_select, fold_icmp_immediates, fold_int_binop_immediates,
}
use liric.Ir.Fold.{fold_identity_int_binop, fold_identity, fold_binop, fold_values}
use liric.Ir.Peephole.{
  operand_resolve, resolve_loop, resolve_operands, fold_condbr, inst_defines_dest,
}
use liric.Ir.Peephole.{inst_dead_def_eliminable, peephole_inst, peephole_block, peephole_blocks}
use liric.Ir.Peephole.{peephole_iters}
use liric.Ir.Peephole.Effects.{func_effects}
use liric.Ir.DeadCode.{dead_iters, run_func_peephole_passes, resolve_insts, resolve_blocks}
use liric.Ir.DeadCode.{
  count_operands, count_insts, count_blocks, is_dead, remove_dead, remove_dead_blocks,
}
use liric.Ir.DeadCode.Kept.{run_func_peephole_passes-func_effects}
use liric.Ir.DeadCode.Definitions.{func_defs, dead_iters-func_defs}
use liric.Ir.Finalize.{Func, block_create, block_append, func_is_finalized}
use liric.Ir.Finalize.{func_finalize, block_insts, array_insts}
use liric.Ir.Finalize.Offsets.{all_insts}
use liric.Ir.Finalize.Finalized.{func_finalize-all_insts, passed_blocks, offset_entries}

-- Types are the same where they are `i32`.
abbrev both_i32 : IrType → IrType → Bool
both_i32 IrType.i32 IrType.i32 = true
both_i32 _ _ = false

abbrev imm : ℕ → Operand
imm n = op_imm_i64 n IrType.i32

abbrev two_operands : Opcode → ℕ → Operand → Operand → Inst
two_operands op dest l r = record {
  op = op;
  type = IrType.i32;
  dest = dest;
  operands = l ∷ r ∷ [];
  icmp_pred = IcmpPred.eq;
}

abbrev ret_reg : ℕ → Inst
ret_reg v = record {
  op = Opcode.ret;
  type = IrType.i32;
  dest = 0;
  operands = op_vreg v IrType.i32 ∷ [];
  icmp_pred = IcmpPred.eq;
}

abbrev param : Operand
param = op_vreg 0 IrType.i32

-- `%1 = add 1, 2`, `%2 = mul %0, %1`, `%3 = sub %0, %0` and `ret %2`.
abbrev four_insts : List Inst
four_insts =
    two_operands Opcode.add 1 (imm 1) (imm 2)
    ∷ two_operands Opcode.mul 2 param (op_vreg 1 IrType.i32)
    ∷ two_operands Opcode.sub 3 param param
    ∷ ret_reg 2
    ∷ []

-- What is left: `%2 = mul %0, 3` and `ret %2`.
abbrev two_insts : List Inst
two_insts = two_operands Opcode.mul 2 param (imm 3) ∷ ret_reg 2 ∷ []

abbrev no_blocks : Func
no_blocks = record {
  blocks = [];
  has_block_array = false;
  block_inst_offsets = none;
  linear_inst_array = none;
  num_linear_insts = 0;
  next_vreg = 4;
}

abbrev append_all : Func → List Inst → Func
append_all f [] = f
append_all f (inst ∷ insts) = append_all (block_append f 0 inst) insts

abbrev one_block : Func
one_block = append_all ((block_create no_blocks).1) four_insts

one_block_insts : block_insts one_block.blocks ≡ some four_insts ∷ []
unfolding block_create block_append
one_block_insts = refl

passes_four : run_func_peephole_passes both_i32 4 (some four_insts ∷ []) ≡ some two_insts ∷ []
unfolding run_func_peephole_passes peephole_iters peephole_blocks peephole_block peephole_inst
    resolve_operands operand_resolve resolve_loop fold_condbr inst_defines_dest try_inst_replacement
    fold_select fold_icmp_immediates fold_int_binop_immediates fold_identity_int_binop fold_identity
    fold_binop fold_values op_imm_i64 type_width_bits to_unsigned_bits sign_extend_bits
    resolve_blocks resolve_insts dead_iters count_blocks count_insts count_operands
    remove_dead_blocks remove_dead is_dead inst_dead_def_eliminable
passes_four = refl

run_func_peephole_passes-func_effects_example :
    func_effects (run_func_peephole_passes both_i32 4 (some four_insts ∷ none ∷ []))
    ≡ func_effects (some four_insts ∷ none ∷ [])
run_func_peephole_passes-func_effects_example =
    run_func_peephole_passes-func_effects both_i32 4 (some four_insts ∷ none ∷ [])

dead_iters-func_defs_example :
    func_defs 2 (dead_iters 8 4 (some four_insts ∷ [])) ≡ func_defs 2 (some four_insts ∷ [])
unfolding dead_iters count_blocks count_insts count_operands remove_dead_blocks remove_dead is_dead
    inst_dead_def_eliminable inst_defines_dest op_imm_i64
dead_iters-func_defs_example =
    dead_iters-func_defs 8 4 (some four_insts ∷ []) 2 (omega arith) (omega arith) (ground arith)

func_finalize-all_insts_example :
    (let f' = func_finalize both_i32 one_block in
      (func_is_finalized f' ≡ true)
      × (func_finalize both_i32 f' ≡ f')
      × (block_insts f'.blocks ≡ passed_blocks both_i32 one_block)
      × (array_insts f'.linear_inst_array ≡ all_insts (passed_blocks both_i32 one_block))
      × (take 2 (
            drop
              (get_or (offset_entries f'.block_inst_offsets) 0 0)
              (array_insts f'.linear_inst_array))
          ≡ two_insts))
unfolding block_create block_append run_func_peephole_passes peephole_iters peephole_blocks
    peephole_block peephole_inst resolve_operands operand_resolve resolve_loop fold_condbr
    inst_defines_dest try_inst_replacement fold_select fold_icmp_immediates
    fold_int_binop_immediates fold_identity_int_binop fold_identity fold_binop fold_values
    op_imm_i64 type_width_bits to_unsigned_bits sign_extend_bits resolve_blocks resolve_insts
    dead_iters count_blocks count_insts count_operands remove_dead_blocks remove_dead is_dead
    inst_dead_def_eliminable
func_finalize-all_insts_example =
    func_finalize-all_insts both_i32 one_block 0 two_insts refl refl refl refl (omega arith) refl

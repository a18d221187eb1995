-- ===== src/Ir/DeadCode.antt =====
-- The last part of `run_func_peephole_passes` of src/ir.c: the operands once more, the instructions
-- whose result is not used, and the whole function.
pub mod Uses
pub mod Kept
pub mod Definitions
use liric.Base.{ℕ, zero, suc, ◌+◌, List, [], ◌∷◌, Option, none, some}
use liric.Base.{Bool, true, false, ◌&&◌, ◌||◌, ltb, ◌==◌, if◌then◌else◌, u32}
use liric.Base.{length, get_or, set, replicate}
use liric.Ir.Types.{IrType}
use liric.Ir.Inst.{OperandValue, Operand, Inst}
use liric.Ir.Peephole.{Replacements, resolve_operands, inst_dead_def_eliminable, peephole_iters}

-- `block_array`, with the instructions of each block.
abbrev pub Blocks : Type 0
Blocks = List (Option (List Inst))

unfoldable pub resolve_insts : Replacements → List Inst → List Inst
resolve_insts repl [] = []
resolve_insts repl (inst ∷ insts) =
    record inst { operands = (resolve_operands repl inst.operands).1 } ∷ resolve_insts repl insts

unfoldable pub resolve_blocks : Replacements → Blocks → Blocks
resolve_blocks repl [] = []
resolve_blocks repl (none ∷ blocks) = none ∷ resolve_blocks repl blocks
resolve_blocks repl (some insts ∷ blocks) =
    some (resolve_insts repl insts) ∷ resolve_blocks repl blocks

-- `use_counts[vreg]++`
abbrev pub count_value : OperandValue → List ℕ → List ℕ
count_value (OperandValue.vreg v) counts =
    if ltb v (length counts) then set counts v (u32 (get_or counts v 0 + 1)) else counts
count_value _ counts = counts

unfoldable pub count_operands : List Operand → List ℕ → List ℕ
count_operands [] counts = counts
count_operands (op ∷ operands) counts = count_operands operands (count_value op.value counts)

unfoldable pub count_insts : List Inst → List ℕ → List ℕ
count_insts [] counts = counts
count_insts (inst ∷ insts) counts = count_insts insts (count_operands inst.operands counts)

unfoldable pub count_blocks : Blocks → List ℕ → List ℕ
count_blocks [] counts = counts
count_blocks (none ∷ blocks) counts = count_blocks blocks counts
count_blocks (some insts ∷ blocks) counts = count_blocks blocks (count_insts insts counts)

unfoldable pub is_dead : List ℕ → Inst → Bool
is_dead counts inst =
    inst_dead_def_eliminable inst
    && (ltb inst.dest (length counts) && get_or counts inst.dest 0 == 0)

-- Whether one was removed, and the others.
unfoldable pub remove_dead : List ℕ → List Inst → Bool × List Inst
remove_dead counts [] = (false, [])
remove_dead counts (inst ∷ insts) =
    let (removed, insts') = remove_dead counts insts in
    if is_dead counts inst then (true, insts') else (removed, inst ∷ insts')

unfoldable pub remove_dead_blocks : List ℕ → Blocks → Bool × Blocks
remove_dead_blocks counts [] = (false, [])
remove_dead_blocks counts (none ∷ blocks) =
    let (removed, blocks') = remove_dead_blocks counts blocks in (removed, none ∷ blocks')
remove_dead_blocks counts (some insts ∷ blocks) =
    let (removed, insts') = remove_dead counts insts in
    let (others, blocks') = remove_dead_blocks counts blocks in
    (removed || others, some insts' ∷ blocks')

-- `for (iter = 0; iter < 8; iter++) { ... if (!removed_any) break; }`
unfoldable pub dead_iters : ℕ → ℕ → Blocks → Blocks
dead_iters zero nrepl blocks = blocks
dead_iters (suc iters) nrepl blocks =
    let counts = count_blocks blocks (replicate nrepl 0) in
    let (removed, blocks') = remove_dead_blocks counts blocks in
    let more = dead_iters iters nrepl blocks' in if removed then more else blocks'

module _ (same_type : IrType → IrType → Bool) where
  unfoldable pub run_func_peephole_passes : ℕ → Blocks → Blocks
  run_func_peephole_passes next_vreg [] = []
  run_func_peephole_passes next_vreg (b ∷ blocks) =
      let nrepl = if ltb 0 next_vreg then next_vreg else 1 in
      let (repl, blocks') = peephole_iters same_type 6 (replicate nrepl none) (b ∷ blocks) in
      dead_iters 8 nrepl (resolve_blocks repl blocks')

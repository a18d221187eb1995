-- ===== src/Ir/DeadCode/Kept.antt =====
-- What stays when src/ir.c removes instructions whose result is not used.
use liric.Base.{ℕ, zero, suc, ◌≡◌, refl, sym, ap, ◌∙◌, inl, inr}
use liric.Base.{List, [], ◌∷◌, ◌++◌, none, some, Bool-cases, and_parts}
use liric.Base.{Bool, true, false, not, ◌&&◌, ltb, if◌then◌else◌, replicate}
use liric.Base.{if_true, if_false}
use liric.Ir.Types.{IrType}
use liric.Ir.Layout.{is_null}
use liric.Ir.Inst.{IcmpPred, Opcode, Operand, Inst}
use liric.Ir.Peephole.{inst_defines_dest, inst_dead_def_eliminable, is_void, Replacements}
use liric.Ir.Peephole.{peephole_iters}
use liric.Ir.Peephole.Effects.{
  inst_of, inst_effects, block_effects, func_effects, effect_list, effect_of,
}
use liric.Ir.Peephole.Effects.{peephole_iters-func_effects}
use liric.Ir.DeadCode.{Blocks, count_blocks, is_dead, remove_dead, remove_dead_blocks, dead_iters}
use liric.Ir.DeadCode.{resolve_insts, resolve_blocks, run_func_peephole_passes}

abbrev pub removed_or_kept : Bool → Inst → List Inst → List Inst
removed_or_kept true inst insts = insts
removed_or_kept false inst insts = inst ∷ insts

pub remove_dead_cons :
    (counts : List ℕ) (inst : Inst) (insts : List Inst)
    → (remove_dead counts (inst ∷ insts)).1
      ≡ removed_or_kept (is_dead counts inst) inst (remove_dead counts insts).1
unfolding remove_dead
remove_dead_cons counts inst insts = elim (Bool-cases (is_dead counts inst)) [
  | inl h ↦ rw h refl
  | inr h ↦ rw h refl
]

dead_effect :
    (op : Opcode) (type : IrType) (dest : ℕ) (operands : List Operand) (pred : IcmpPred)
    → inst_dead_def_eliminable (inst_of op type dest operands pred) ≡ true
    → effect_of op ≡ none
unfolding inst_dead_def_eliminable inst_defines_dest
dead_effect Opcode.ret type dest operands pred h = absurd (cc)
dead_effect Opcode.ret_void type dest operands pred h = absurd (cc)
dead_effect Opcode.br type dest operands pred h = absurd (cc)
dead_effect Opcode.condbr type dest operands pred h = absurd (cc)
dead_effect Opcode.unreachable type dest operands pred h = absurd (cc)
dead_effect Opcode.store type dest operands pred h = absurd (cc)
dead_effect Opcode.call type dest operands pred h =
    let (defines, other) = and_parts (not (is_null type) && not (is_void type)) false h in
    absurd (cc)
dead_effect Opcode.alloca type dest operands pred h =
    let (defines, other) = and_parts (not (is_null type) && not (is_void type)) false h in
    absurd (cc)
dead_effect _ type dest operands pred h = refl

dead-inst_effects :
    (counts : List ℕ) (inst : Inst) → is_dead counts inst ≡ true → inst_effects inst ≡ []
unfolding is_dead
dead-inst_effects counts inst h =
    let (eliminable, unused) = and_parts (inst_dead_def_eliminable inst) _ h in
    ap (effect_list inst.dest)
      (dead_effect inst.op inst.type inst.dest inst.operands inst.icmp_pred eliminable)

remove_dead-block_effects :
    (counts : List ℕ) (insts : List Inst)
    → block_effects (remove_dead counts insts).1 ≡ block_effects insts
unfolding remove_dead
remove_dead-block_effects counts [] = refl
remove_dead-block_effects counts (inst ∷ insts) =
    ap block_effects (remove_dead_cons counts inst insts)
    ∙ by_case (is_dead counts inst) (λ h. dead-inst_effects counts inst h)
    ∙ ap (λ e. inst_effects inst ++ e) (remove_dead-block_effects counts insts)
  where
    by_case :
        (dead : Bool)
        → (dead ≡ true → inst_effects inst ≡ [])
        → block_effects (removed_or_kept dead inst (remove_dead counts insts).1)
          ≡ inst_effects inst ++ block_effects (remove_dead counts insts).1
    by_case true f = ap (λ e. e ++ block_effects (remove_dead counts insts).1) (sym (f refl))
    by_case false f = refl

remove_dead_blocks-func_effects :
    (counts : List ℕ) (blocks : Blocks)
    → func_effects (remove_dead_blocks counts blocks).1 ≡ func_effects blocks
unfolding remove_dead_blocks
remove_dead_blocks-func_effects counts [] = refl
remove_dead_blocks-func_effects counts (none ∷ blocks) =
    ap (λ bs. none ∷ bs) (remove_dead_blocks-func_effects counts blocks)
remove_dead_blocks-func_effects counts (some insts ∷ blocks) =
    ap (λ b. some b ∷ func_effects (remove_dead_blocks counts blocks).1)
      (remove_dead-block_effects counts insts)
    ∙ ap (λ bs. some (block_effects insts) ∷ bs) (remove_dead_blocks-func_effects counts blocks)

dead_iters-func_effects :
    (iters nrepl : ℕ) (blocks : Blocks)
    → func_effects (dead_iters iters nrepl blocks) ≡ func_effects blocks
unfolding dead_iters
dead_iters-func_effects zero nrepl blocks = refl
dead_iters-func_effects (suc iters) nrepl blocks =
    let counts = count_blocks blocks (replicate nrepl 0) in
    let (removed, blocks') = remove_dead_blocks counts blocks in
    let once = remove_dead_blocks-func_effects counts blocks in
    elim (Bool-cases removed) [
      | inl again ↦
          ap func_effects (if_true _ _ again) ∙ dead_iters-func_effects iters nrepl blocks' ∙ once
      | inr done ↦ ap func_effects (if_false _ _ done) ∙ once
    ]

resolve_insts-block_effects :
    (repl : Replacements) (insts : List Inst)
    → block_effects (resolve_insts repl insts) ≡ block_effects insts
unfolding resolve_insts
resolve_insts-block_effects repl [] = refl
resolve_insts-block_effects repl (inst ∷ insts) =
    ap (λ e. inst_effects inst ++ e) (resolve_insts-block_effects repl insts)

resolve_blocks-func_effects :
    (repl : Replacements) (blocks : Blocks)
    → func_effects (resolve_blocks repl blocks) ≡ func_effects blocks
unfolding resolve_blocks
resolve_blocks-func_effects repl [] = refl
resolve_blocks-func_effects repl (none ∷ blocks) =
    ap (λ bs. none ∷ bs) (resolve_blocks-func_effects repl blocks)
resolve_blocks-func_effects repl (some insts ∷ blocks) =
    ap (λ b. some b ∷ func_effects (resolve_blocks repl blocks))
      (resolve_insts-block_effects repl insts)
    ∙ ap (λ bs. some (block_effects insts) ∷ bs) (resolve_blocks-func_effects repl blocks)

-- The passes keep in every block the returns, branches, stores, calls and allocations, in their
-- order and with the register of the result, where a branch that has become unconditional
-- counts as the same; the blocks, and the entries without one, stay at their places.
pub run_func_peephole_passes-func_effects :
    (same_type : IrType → IrType → Bool) (next_vreg : ℕ) (blocks : Blocks)
    → func_effects (run_func_peephole_passes same_type next_vreg blocks) ≡ func_effects blocks
unfolding run_func_peephole_passes
run_func_peephole_passes-func_effects same_type next_vreg [] = refl
run_func_peephole_passes-func_effects same_type next_vreg (b ∷ blocks) =
    let nrepl = if ltb 0 next_vreg then next_vreg else 1 in
    let (repl, blocks') = peephole_iters same_type 6 (replicate nrepl none) (b ∷ blocks) in
    dead_iters-func_effects 8 nrepl (resolve_blocks repl blocks')
    ∙ resolve_blocks-func_effects repl blocks'
    ∙ peephole_iters-func_effects same_type 6 (replicate nrepl none) (b ∷ blocks)

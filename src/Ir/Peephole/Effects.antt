-- ===== src/Ir/Peephole/Effects.antt =====
-- The instructions that act on memory or control in a function, and that the passes of src/ir.c keep
-- them.
use liric.Base.{ℕ, zero, suc, ◌≡◌, refl, sym, ap, ◌∙◌, inl, inr, Bool-cases}
use liric.Base.{and_parts, List, [], ◌∷◌, ◌++◌, Option, none, some, ◌≢◌}
use liric.Base.{Bool, true, false, ◌&&◌, ltb, length, if_true, if_false}
use liric.Ir.Types.{IrType}
use liric.Ir.Inst.{Opcode, IcmpPred, Operand, Inst}
use liric.Ir.Fold.{try_inst_replacement, fold_values, fold_identity, fold_binop, fold_select}
use liric.Ir.Fold.{fold_icmp_immediates, fold_int_binop_immediates, fold_identity_int_binop}
use liric.Ir.Fold.Immediates.{no_arithmetic}
use liric.Ir.Peephole.{State, inst_defines_dest, fold_condbr, to_branch, known_target, is_condbr}
use liric.Ir.Peephole.{is_load, find_replacement, keep_or_remove, peephole_inst, peephole_block}
use liric.Ir.Peephole.{resolve_operands, peephole_blocks, peephole_iters, Replacements}

-- What an instruction does besides its result; both branches count as a branch.
abbrev pub effect_of : Opcode → Option Opcode
effect_of Opcode.ret = some Opcode.ret
effect_of Opcode.ret_void = some Opcode.ret_void
effect_of Opcode.br = some Opcode.br
effect_of Opcode.condbr = some Opcode.br
effect_of Opcode.unreachable = some Opcode.unreachable
effect_of Opcode.store = some Opcode.store
effect_of Opcode.call = some Opcode.call
effect_of Opcode.alloca = some Opcode.alloca
effect_of _ = none

abbrev pub effect_list : ℕ → Option Opcode → List (Opcode × ℕ)
effect_list dest none = []
effect_list dest (some e) = (e, dest) ∷ []

-- The effect with the register of the result.
abbrev pub inst_effects : Inst → List (Opcode × ℕ)
inst_effects inst = effect_list inst.dest (effect_of inst.op)

abbrev pub block_effects : List Inst → List (Opcode × ℕ)
block_effects [] = []
block_effects (inst ∷ insts) = inst_effects inst ++ block_effects insts

abbrev pub func_effects : List (Option (List Inst)) → List (Option (List (Opcode × ℕ)))
func_effects [] = []
func_effects (none ∷ blocks) = none ∷ func_effects blocks
func_effects (some insts ∷ blocks) = some (block_effects insts) ∷ func_effects blocks

abbrev pub kept_effects : Option Inst → List (Opcode × ℕ)
kept_effects none = []
kept_effects (some inst) = inst_effects inst

abbrev pub inst_of : Opcode → IrType → ℕ → List Operand → IcmpPred → Inst
inst_of op type dest operands pred = record {
  op = op;
  type = type;
  dest = dest;
  operands = operands;
  icmp_pred = pred;
}

module _ (same_type : IrType → IrType → Bool) where
  -- No call and no allocation is replaced.
  call_replacement :
      (type : IrType) (dest : ℕ) (operands : List Operand) (pred : IcmpPred) (o : Operand)
      → try_inst_replacement same_type (inst_of Opcode.call type dest operands pred) ≢ some o
  unfolding try_inst_replacement fold_select fold_icmp_immediates fold_int_binop_immediates
      fold_identity_int_binop fold_identity fold_values fold_binop
  call_replacement type dest operands pred o h =
      no_arithmetic Opcode.call type operands o (λ w a b. refl) (λ m l r. refl) h

  alloca_replacement :
      (type : IrType) (dest : ℕ) (operands : List Operand) (pred : IcmpPred) (o : Operand)
      → try_inst_replacement same_type (inst_of Opcode.alloca type dest operands pred) ≢ some o
  unfolding try_inst_replacement fold_select fold_icmp_immediates fold_int_binop_immediates
      fold_identity_int_binop fold_identity fold_values fold_binop
  alloca_replacement type dest operands pred o h =
      no_arithmetic Opcode.alloca type operands o (λ w a b. refl) (λ m l r. refl) h

  not_found :
      (s : State) (inst : Inst) (r : Option Operand) (o : Operand)
      → ((o : Operand) → r ≢ some o)
      → is_load inst.op ≡ false
      → (find_replacement same_type s inst r).0 ≢ some o
  not_found s inst none o fails other h =
      let e : none ≡ some o = ap (λ p. p.0) (sym (no_load other)) ∙ h in absurd (cc)
    where
      no_load : is_load inst.op ≡ false → find_replacement same_type s inst none ≡ (none, s)
      no_load other = rw other refl
  not_found s inst (some o') o fails other h = fails o' refl

  no_effect :
      (s : State) (op : Opcode) (type : IrType) (dest : ℕ) (operands : List Operand)
      (pred : IcmpPred) (o : Operand)
      → (let inst = inst_of op type dest operands pred in
          ((find_replacement same_type s inst (try_inst_replacement same_type inst)).0 ≡ some o)
          → inst_defines_dest inst ≡ true
          → inst_effects inst ≡ [])
  unfolding inst_defines_dest
  no_effect s Opcode.ret type dest operands pred o h d = absurd (cc)
  no_effect s Opcode.ret_void type dest operands pred o h d = absurd (cc)
  no_effect s Opcode.br type dest operands pred o h d = absurd (cc)
  no_effect s Opcode.condbr type dest operands pred o h d = absurd (cc)
  no_effect s Opcode.unreachable type dest operands pred o h d = absurd (cc)
  no_effect s Opcode.store type dest operands pred o h d = absurd (cc)
  no_effect s Opcode.call type dest operands pred o h d = absurd (
      not_found s (inst_of Opcode.call type dest operands pred) _ o
        (call_replacement type dest operands pred) refl h)
  no_effect s Opcode.alloca type dest operands pred o h d = absurd (
      not_found s (inst_of Opcode.alloca type dest operands pred) _ o
        (alloca_replacement type dest operands pred) refl h)
  no_effect s _ type dest operands pred o h d = refl

  -- An instruction that is taken out has no effect; the others stay.
  keep_or_remove-kept_effects :
      (s : State) (inst : Inst)
      → (let (found, s') =
            find_replacement same_type s inst (try_inst_replacement same_type inst) in
          kept_effects (keep_or_remove same_type s' inst found).1 ≡ inst_effects inst)
  keep_or_remove-kept_effects s inst =
      let (found, s') = find_replacement same_type s inst (try_inst_replacement same_type inst) in
      by_case s' found
        (λ o h d. no_effect s inst.op inst.type inst.dest inst.operands inst.icmp_pred o h d)
    where
      by_case :
          (s : State) (found : Option Operand)
          → ((o : Operand)
              → found ≡ some o
              → inst_defines_dest inst ≡ true
              → inst_effects inst ≡ [])
          → kept_effects (keep_or_remove same_type s inst found).1 ≡ inst_effects inst
      by_case s none pure = refl
      by_case s (some o) pure =
          elim (Bool-cases (inst_defines_dest inst && ltb inst.dest (length s.repl))) [
            | inl removed ↦
                let (d, below) =
                  and_parts (inst_defines_dest inst) (ltb inst.dest (length s.repl)) removed in
                rw removed (sym (pure o refl d))
            | inr kept ↦ rw kept refl
          ]

  fold_condbr-inst_effects : (inst : Inst) → inst_effects (fold_condbr inst).1 ≡ inst_effects inst
  unfolding fold_condbr
  fold_condbr-inst_effects inst = elim (Bool-cases (is_condbr inst.op)) [
    | inl branch ↦ rw branch (to_branch_effects (known_target inst.operands) branch)
    | inr other ↦ rw other refl
  ]
    where
      branch_effect : (op : Opcode) → is_condbr op ≡ true → effect_of op ≡ some Opcode.br
      branch_effect Opcode.condbr h = refl
      branch_effect _ h = absurd (cc)

      to_branch_effects :
          (target : Option Operand)
          → is_condbr inst.op ≡ true
          → inst_effects (to_branch inst target).1 ≡ inst_effects inst
      to_branch_effects none h = refl
      to_branch_effects (some o) h = ap (effect_list inst.dest) (sym (branch_effect inst.op h))

  -- A round keeps the effect of the instruction, whatever the registers are replaced by.
  peephole_inst-inst_effects :
      (s : State) (inst : Inst)
      → kept_effects (peephole_inst same_type s inst).1 ≡ inst_effects inst
  unfolding peephole_inst
  peephole_inst-inst_effects s inst =
      let inst' : Inst = record inst { operands = (resolve_operands s.repl inst.operands).1 } in
      keep_or_remove-kept_effects _ (fold_condbr inst').1 ∙ fold_condbr-inst_effects inst'

  peephole_block-block_effects :
      (s : State) (insts : List Inst)
      → block_effects (peephole_block same_type s insts).1 ≡ block_effects insts
  unfolding peephole_block
  peephole_block-block_effects s [] = refl
  peephole_block-block_effects s (inst ∷ insts) =
      let (s', kept) = peephole_inst same_type s inst in
      cons_effects kept _
      ∙ ap (λ e. e ++ block_effects (peephole_block same_type s' insts).1)
          (peephole_inst-inst_effects s inst)
      ∙ ap (λ e. inst_effects inst ++ e) (peephole_block-block_effects s' insts)
    where
      cons_effects :
          (kept : Option Inst) (insts : List Inst)
          → block_effects (elim kept [ none ↦ insts | some inst' ↦ inst' ∷ insts ])
            ≡ kept_effects kept ++ block_effects insts
      cons_effects none insts = refl
      cons_effects (some inst') insts = refl

  peephole_blocks-func_effects :
      (s : State) (blocks : List (Option (List Inst)))
      → func_effects (peephole_blocks same_type s blocks).1 ≡ func_effects blocks
  unfolding peephole_blocks
  peephole_blocks-func_effects s [] = refl
  peephole_blocks-func_effects s (none ∷ blocks) =
      ap (λ bs. none ∷ bs) (peephole_blocks-func_effects s blocks)
  peephole_blocks-func_effects s (some insts ∷ blocks) =
      let s' : State = record s { load_cache = [] } in
      let (s'', insts') = peephole_block same_type s' insts in
      ap (λ b. some b ∷ func_effects (peephole_blocks same_type s'' blocks).1)
        (peephole_block-block_effects s' insts)
      ∙ ap (λ bs. some (block_effects insts) ∷ bs) (peephole_blocks-func_effects s'' blocks)

  pub peephole_iters-func_effects :
      (iters : ℕ) (repl : Replacements) (blocks : List (Option (List Inst)))
      → func_effects (peephole_iters same_type iters repl blocks).1 ≡ func_effects blocks
  unfolding peephole_iters
  peephole_iters-func_effects zero repl blocks = refl
  peephole_iters-func_effects (suc iters) repl blocks =
      let start : State = record { repl = repl; load_cache = []; iter_changed = false } in
      let (s, blocks') = peephole_blocks same_type start blocks in
      let once = peephole_blocks-func_effects start blocks in
      elim (Bool-cases s.iter_changed) [
        | inl again ↦
            ap (λ (r : Replacements × List (Option (List Inst))). func_effects r.1)
              (if_true _ _ again)
            ∙ peephole_iters-func_effects iters s.repl blocks'
            ∙ once
        | inr done ↦
            ap (λ (r : Replacements × List (Option (List Inst))). func_effects r.1)
              (if_false _ _ done)
            ∙ once
      ]

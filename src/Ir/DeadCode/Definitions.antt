-- ===== src/Ir/DeadCode/Definitions.antt =====
-- The definitions of registers that are read, when src/ir.c removes instructions.
use liric.Base.{ℕ, zero, suc, ◌+◌, ◌^◌, ◌≤◌, ◌<◌, ◌≡◌, refl, sym, ap, ◌∙◌, arith, inl, inr, ◌≢◌}
use liric.Base.{List, [], ◌∷◌, ◌++◌, none, some, Bool-cases, and_parts}
use liric.Base.{Bool, true, false, ◌&&◌, ltb, ◌==◌, if◌then◌else◌, length, get_or, replicate}
use liric.Base.{if_true, if_false}
use liric.Ir.Inst.{Inst}
use liric.Ir.Peephole.{inst_defines_dest, inst_dead_def_eliminable}
use liric.Ir.DeadCode.{Blocks, count_blocks, is_dead, remove_dead, remove_dead_blocks, dead_iters}
use liric.Ir.DeadCode.Uses.{operand_uses, inst_uses, block_uses, count_blocks_used}
use liric.Ir.DeadCode.Kept.{removed_or_kept, remove_dead_cons}

and_false : {b : Bool} (a : Bool) → b ≡ false → (a && b) ≡ false
and_false true h = h
and_false false h = refl

module _ (v : ℕ) where
  abbrev pub inst_defs : Inst → List Inst
  inst_defs inst = if inst_defines_dest inst && inst.dest == v then inst ∷ [] else []

  abbrev pub block_defs : List Inst → List Inst
  block_defs [] = []
  block_defs (inst ∷ insts) = inst_defs inst ++ block_defs insts

  -- The instructions that define the register, block by block.
  abbrev pub func_defs : Blocks → List Inst
  func_defs [] = []
  func_defs (none ∷ blocks) = func_defs blocks
  func_defs (some insts ∷ blocks) = block_defs insts ++ func_defs blocks

  inst_uses_le :
      (counts : List ℕ) (insts : List Inst)
      → inst_uses v (remove_dead counts insts).1 ≤ inst_uses v insts
  unfolding remove_dead
  inst_uses_le counts [] = omega arith
  inst_uses_le counts (inst ∷ insts) =
      let le = inst_uses_le counts insts in
      let e = ap (inst_uses v) (remove_dead_cons counts inst insts) in
      omega (arith, e, by_case (is_dead counts inst) (remove_dead counts insts).1)
    where
      by_case :
          (dead : Bool) (rest : List Inst)
          → inst_uses v (removed_or_kept dead inst rest)
            ≤ operand_uses v inst.operands + inst_uses v rest
      by_case true rest = omega arith
      by_case false rest = omega arith

  block_uses_le :
      (counts : List ℕ) (blocks : Blocks)
      → block_uses v (remove_dead_blocks counts blocks).1 ≤ block_uses v blocks
  unfolding remove_dead_blocks
  block_uses_le counts [] = omega arith
  block_uses_le counts (none ∷ blocks) = block_uses_le counts blocks
  block_uses_le counts (some insts ∷ blocks) =
      omega (arith, block_uses_le counts blocks, inst_uses_le counts insts)

  dead_iters_le :
      (iters nrepl : ℕ) (blocks : Blocks)
      → block_uses v (dead_iters iters nrepl blocks) ≤ block_uses v blocks
  unfolding dead_iters
  dead_iters_le zero nrepl blocks = omega arith
  dead_iters_le (suc iters) nrepl blocks =
      let counts = count_blocks blocks (replicate nrepl 0) in
      let (removed, blocks') = remove_dead_blocks counts blocks in
      let once = block_uses_le counts blocks in
      let more = dead_iters_le iters nrepl blocks' in
      elim (Bool-cases removed) [
        | inl again ↦
            omega
              (arith, ap (block_uses v) (if_true (dead_iters iters nrepl blocks') blocks' again))
        | inr done ↦
            omega
              (arith, ap (block_uses v) (if_false (dead_iters iters nrepl blocks') blocks' done))
      ]

  -- A dead instruction does not define a register with a count.
  dead-inst_defs :
      (counts : List ℕ) (inst : Inst)
      → get_or counts v 0 ≢ 0
      → is_dead counts inst ≡ true
      → inst_defs inst ≡ []
  unfolding is_dead
  dead-inst_defs counts inst counted h =
      let (eliminable, unused) = and_parts (inst_dead_def_eliminable inst) _ h in
      let (inside, zero_count) = and_parts (ltb inst.dest (length counts)) _ unused in
      let other : inst.dest ≢ v =
        λ e. counted (ground (arith, zero_count, ap (λ i. get_or counts i 0) e)) in
      if_false _ _ (and_false (inst_defines_dest inst) (ground (arith, other)))

  block_defs_kept :
      (counts : List ℕ) (insts : List Inst)
      → get_or counts v 0 ≢ 0
      → block_defs (remove_dead counts insts).1 ≡ block_defs insts
  unfolding remove_dead
  block_defs_kept counts [] counted = refl
  block_defs_kept counts (inst ∷ insts) counted =
      ap block_defs (remove_dead_cons counts inst insts)
      ∙ by_case (is_dead counts inst) (remove_dead counts insts).1
          (dead-inst_defs counts inst counted)
      ∙ ap (λ d. inst_defs inst ++ d) (block_defs_kept counts insts counted)
    where
      by_case :
          (dead : Bool) (rest : List Inst)
          → (dead ≡ true → inst_defs inst ≡ [])
          → block_defs (removed_or_kept dead inst rest) ≡ inst_defs inst ++ block_defs rest
      by_case true rest f = ap (λ d. d ++ block_defs rest) (sym (f refl))
      by_case false rest f = refl

  func_defs_kept :
      (counts : List ℕ) (blocks : Blocks)
      → get_or counts v 0 ≢ 0
      → func_defs (remove_dead_blocks counts blocks).1 ≡ func_defs blocks
  unfolding remove_dead_blocks
  func_defs_kept counts [] counted = refl
  func_defs_kept counts (none ∷ blocks) counted = func_defs_kept counts blocks counted
  func_defs_kept counts (some insts ∷ blocks) counted =
      ap (λ d. d ++ func_defs (remove_dead_blocks counts blocks).1)
        (block_defs_kept counts insts counted)
      ∙ ap (λ d. block_defs insts ++ d) (func_defs_kept counts blocks counted)

-- Whatever the count of rounds, the removal of unused results keeps every instruction that defines a
-- register which is still read afterwards, for the registers below `nrepl` that are read less
-- than 2 ^ 32 times before.
pub dead_iters-func_defs :
    (iters nrepl : ℕ) (blocks : Blocks) (v : ℕ)
    → v < nrepl
    → block_uses v blocks < 2 ^ 32
    → block_uses v (dead_iters iters nrepl blocks) ≢ 0
    → func_defs v (dead_iters iters nrepl blocks) ≡ func_defs v blocks
unfolding dead_iters
dead_iters-func_defs zero nrepl blocks v inside few used = refl
dead_iters-func_defs (suc iters) nrepl blocks v inside few used =
    let counts = count_blocks blocks (replicate nrepl 0) in
    let (removed, blocks') = remove_dead_blocks counts blocks in
    let more = dead_iters iters nrepl blocks' in
    let less = block_uses_le v counts blocks in
    let least = dead_iters_le v (suc iters) nrepl blocks in
    let counted = count_blocks_used v nrepl blocks inside (λ z. used (nothing_left least z)) few in
    let once = func_defs_kept v counts blocks counted in
    elim (Bool-cases removed) [
      | inl again ↦
          let e = if_true more blocks' again in
          ap (func_defs v) e
          ∙ dead_iters-func_defs iters nrepl blocks' v inside (omega arith)
              (λ z. used (ap (block_uses v) e ∙ z))
          ∙ once
      | inr done ↦ ap (func_defs v) (if_false more blocks' done) ∙ once
    ]
  where
    nothing_left : {m n : ℕ} → m ≤ n → n ≡ 0 → m ≡ 0
    nothing_left le z = omega arith

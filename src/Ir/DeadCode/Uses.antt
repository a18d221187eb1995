-- ===== src/Ir/DeadCode/Uses.antt =====
-- How often a register is read, and what the removal of unused results in src/ir.c counts.
use liric.Base.{ℕ, ◌+◌, ◌%◌, ◌^◌, ◌<◌, ◌≡◌, refl, ap, ◌∙◌, arith, inl, inr}
use liric.Base.{List, [], ◌∷◌, none, some, Bool-cases, ◌≢◌, length-set, length-replicate}
use liric.Base.{true, false, ltb, ◌==◌, if◌then◌else◌, u32, length, get_or, set, replicate}
use liric.Base.{get_or-set_self, get_or-set_ne, get_or-replicate}
use liric.Ir.Inst.{OperandValue, Operand, Inst}
use liric.Ir.Peephole.{is_vreg}
use liric.Ir.DeadCode.{Blocks, count_value, count_operands, count_insts, count_blocks}

module _ (v : ℕ) where
  abbrev pub operand_uses : List Operand → ℕ
  operand_uses [] = 0
  operand_uses (op ∷ operands) = (if is_vreg op.value v then 1 else 0) + operand_uses operands

  abbrev pub inst_uses : List Inst → ℕ
  inst_uses [] = 0
  inst_uses (inst ∷ insts) = operand_uses inst.operands + inst_uses insts

  -- How often the operands of the function name the register.
  abbrev pub block_uses : Blocks → ℕ
  block_uses [] = 0
  block_uses (none ∷ blocks) = block_uses blocks
  block_uses (some insts ∷ blocks) = inst_uses insts + block_uses blocks

  -- A count that wraps at 2 ^ 32, and the rest of the reads.
  Counted : List ℕ → ℕ → List ℕ → Type 0
  Counted counts uses counts' =
      (length counts' ≡ length counts)
      × (get_or counts' v 0 % 2 ^ 32 ≡ (get_or counts v 0 + uses) % 2 ^ 32)

  value-Counted :
      (value : OperandValue) (counts : List ℕ)
      → v < length counts
      → Counted counts (if is_vreg value v then 1 else 0) (count_value value counts)
  unfolding Counted
  value-Counted (OperandValue.vreg w) counts inside = elim (Bool-cases (w == v)) [
    | inl same ↦ counted_same w counts (ground (arith, same)) same inside
    | inr other ↦ counted_other w counts other
  ]
    where
      counted_same :
          (w : ℕ) (counts : List ℕ)
          → w ≡ v
          → (w == v) ≡ true
          → v < length counts
          → Counted counts (if w == v then 1 else 0) (count_value (OperandValue.vreg w) counts)
      counted_same w counts e same inside =
          let here : ltb w (length counts) ≡ true = ground arith in
          let at = get_or-set_self counts w (u32 (get_or counts w 0 + 1)) (omega arith) in
          let old = ap (λ w. get_or counts w 0) e in
          let new = ap (λ i. get_or (set counts w (u32 (get_or counts w 0 + 1))) i 0) e in
          rw (same, here)
            (length-set counts w (u32 (get_or counts w 0 + 1)), omega (arith, at, old, new))

      counted_other :
          (w : ℕ) (counts : List ℕ)
          → (w == v) ≡ false
          → Counted counts (if w == v then 1 else 0) (count_value (OperandValue.vreg w) counts)
      counted_other w counts other =
          let x = u32 (get_or counts w 0 + 1) in
          elim (Bool-cases (ltb w (length counts))) [
            | inl here ↦
                rw (other, here)
                  (
                    length-set counts w x,
                    omega (arith, get_or-set_ne counts w v x (ground (arith, other))),
                  )
            | inr out ↦ rw (other, out) (refl, omega arith)
          ]
  value-Counted _ counts inside = (refl, omega arith)

  then-Counted :
      (counts counts' counts'' : List ℕ) (m n : ℕ)
      → Counted counts m counts'
      → Counted counts' n counts''
      → Counted counts (m + n) counts''
  unfolding Counted
  then-Counted counts counts' counts'' m n (size, count) (size', count') =
      (size' ∙ size, omega arith)

  operands-Counted :
      (operands : List Operand) (counts : List ℕ)
      → v < length counts
      → Counted counts (operand_uses operands) (count_operands operands counts)
  unfolding Counted count_operands
  operands-Counted [] counts inside = (refl, omega arith)
  operands-Counted (op ∷ operands) counts inside =
      let (size, count) = value-Counted op.value counts inside in
      then-Counted counts (count_value op.value counts) _ _ _ (size, count)
        (operands-Counted operands (count_value op.value counts) (omega arith))

  insts-Counted :
      (insts : List Inst) (counts : List ℕ)
      → v < length counts
      → Counted counts (inst_uses insts) (count_insts insts counts)
  unfolding Counted count_insts
  insts-Counted [] counts inside = (refl, omega arith)
  insts-Counted (inst ∷ insts) counts inside =
      let (size, count) = operands-Counted inst.operands counts inside in
      then-Counted counts (count_operands inst.operands counts) _ _ _ (size, count)
        (insts-Counted insts (count_operands inst.operands counts) (omega arith))

  blocks-Counted :
      (blocks : Blocks) (counts : List ℕ)
      → v < length counts
      → Counted counts (block_uses blocks) (count_blocks blocks counts)
  unfolding Counted count_blocks
  blocks-Counted [] counts inside = (refl, omega arith)
  blocks-Counted (none ∷ blocks) counts inside = blocks-Counted blocks counts inside
  blocks-Counted (some insts ∷ blocks) counts inside =
      let (size, count) = insts-Counted insts counts inside in
      then-Counted counts (count_insts insts counts) _ _ _ (size, count)
        (blocks-Counted blocks (count_insts insts counts) (omega arith))

  -- A register that is read, not 2 ^ 32 times, has a count that is not 0.
  pub count_blocks_used :
      (nrepl : ℕ) (blocks : Blocks)
      → v < nrepl
      → block_uses blocks ≢ 0
      → block_uses blocks < 2 ^ 32
      → get_or (count_blocks blocks (replicate nrepl 0)) v 0 ≢ 0
  unfolding Counted
  count_blocks_used nrepl blocks inside some_use few empty =
      let counts : List ℕ = replicate nrepl 0 in
      let size : length counts ≡ nrepl = length-replicate nrepl 0 in
      let (sizes, count) = blocks-Counted blocks counts (omega arith) in
      let zeros = get_or-replicate nrepl v in some_use (omega arith)

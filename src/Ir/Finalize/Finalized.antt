-- ===== src/Ir/Finalize/Finalized.antt =====
-- A function of src/ir.c after `lr_func_finalize`.
use liric.Base.{ℕ, zero, suc, ◌^◌, ◌≤◌, ◌<◌, ◌≡◌, refl, sym, ap, ◌∙◌, arith}
use liric.Base.{List, [], ◌∷◌, Option, none, some, if_true, if_false}
use liric.Base.{Bool, true, false, not, ◌&&◌, ◌||◌, ltb, ◌==◌, if◌then◌else◌}
use liric.Base.{u32, length-append, length, get_or, get_elem?, take, drop}
use liric.Ir.Types.{IrType}
use liric.Ir.Inst.{Inst}
use liric.Ir.Peephole.Effects.{func_effects}
use liric.Ir.DeadCode.{Blocks, run_func_peephole_passes}
use liric.Ir.DeadCode.Kept.{run_func_peephole_passes-func_effects}
use liric.Ir.Finalize.{FuncBlock, Func, num_blocks, is_some, is_empty, blocks_finalized}
use liric.Ir.Finalize.{func_is_finalized, block_insts, array_blocks, count_linear}
use liric.Ir.Finalize.{
  offsets_or_new, offsets_from, array_insts, linear_insts, fill_linear, func_finalize,
}
use liric.Ir.Finalize.Offsets.{all_insts, linear_insts-all_insts, count_linear-all_insts}
use liric.Ir.Finalize.Offsets.{offsets_from-all_insts, slice_of_block}

-- No entry is `none`.
abbrev pub present {ℓ} : {A : Type ℓ} → List (Option A) → Bool
present [] = true
present (none ∷ xs) = false
present (some x ∷ xs) = present xs

present-func_effects : (blocks : Blocks) → present (func_effects blocks) ≡ present blocks
present-func_effects [] = refl
present-func_effects (none ∷ blocks) = refl
present-func_effects (some insts ∷ blocks) = present-func_effects blocks

block_insts-array_blocks : (blocks : Blocks) → block_insts (array_blocks blocks) ≡ blocks
unfolding array_blocks
block_insts-array_blocks [] = refl
block_insts-array_blocks (none ∷ blocks) = ap (λ bs. none ∷ bs) (block_insts-array_blocks blocks)
block_insts-array_blocks (some insts ∷ blocks) =
    ap (λ bs. some insts ∷ bs) (block_insts-array_blocks blocks)

length-array_blocks : (blocks : Blocks) → length (array_blocks blocks) ≡ length blocks
unfolding array_blocks
length-array_blocks [] = refl
length-array_blocks (none ∷ blocks) = ap suc (length-array_blocks blocks)
length-array_blocks (some insts ∷ blocks) = ap suc (length-array_blocks blocks)

-- The blocks with their arrays are as `lr_func_is_finalized` wants them.
arrays_finalized :
    (blocks : Blocks)
    → length (all_insts blocks) < 2 ^ 32
    → present blocks ≡ true
    → blocks_finalized (array_blocks blocks) ≡ (true, not (is_empty (all_insts blocks)))
unfolding blocks_finalized array_blocks
arrays_finalized [] few all = refl
arrays_finalized (none ∷ blocks) few all = absurd (cc)
arrays_finalized (some [] ∷ blocks) few all = arrays_finalized blocks few all
arrays_finalized (some (i ∷ insts) ∷ blocks) few all =
    let size = length-append (i ∷ insts) (all_insts blocks) in
    let some_inst : (u32 (suc (length insts)) == 0) ≡ false = ground (arith, size) in
    rw some_inst (ap (λ (r : Bool × Bool). (r.0, true)) (arrays_finalized blocks (omega arith) all))

-- The arrays of a function whose passes have run.
abbrev arrays : Func → Blocks → Func
arrays f passed = record {
  blocks = array_blocks passed;
  has_block_array = true;
  block_inst_offsets = some (offsets_from 0 (array_blocks passed));
  linear_inst_array =
      if ltb 0 (count_linear 0 (array_blocks passed))
      then some (linear_insts (array_blocks passed))
      else none;
  num_linear_insts = count_linear 0 (array_blocks passed);
  next_vreg = f.next_vreg;
}

take_all {ℓ} : {A : Type ℓ} (xs : List A) → take (length xs) xs ≡ xs
take_all [] = refl
take_all (x ∷ xs) = ap (λ t. x ∷ t) (take_all xs)

tests :
    (no_blocks : Bool) (insts linear : List Inst) (offset : ℕ)
    → offset ≡ length insts
    → (no_blocks
        || (not (
              not (is_empty insts)
              && not (is_some (if ltb 0 (length insts) then some linear else none)))
            && not (not (not (is_empty insts)) && not (length insts == 0))
            && offset == length insts))
      ≡ true
tests true insts linear offset e = refl
tests false [] linear offset e = ground (arith, e)
tests false (i ∷ insts) linear offset e =
    let some_inst : ltb 0 (suc (length insts)) ≡ true = ground arith in
    rw some_inst (ground (arith, e))

module _ (passed : Blocks) (few : length (all_insts passed) < 2 ^ 32) where
  total_lem : count_linear 0 (array_blocks passed) ≡ length (all_insts passed)
  total_lem = count_linear-all_insts 0 passed (omega arith) ∙ omega arith

  offset_lem :
      (i : ℕ)
      → i ≤ length passed
      → get_or (offsets_from 0 (array_blocks passed)) i 0 ≡ length (all_insts (take i passed))
  offset_lem i inside = offsets_from-all_insts 0 i passed inside (omega arith) ∙ omega arith

  linear_lem : (f : Func) → array_insts (arrays f passed).linear_inst_array ≡ all_insts passed
  linear_lem f =
      by_total (all_insts passed) (count_linear 0 (array_blocks passed))
        (linear_insts-all_insts passed few) total_lem
    where
      by_total :
          (insts : List Inst) (total : ℕ)
          → linear_insts (array_blocks passed) ≡ insts
          → total ≡ length insts
          → array_insts (if ltb 0 total then some (linear_insts (array_blocks passed)) else none)
            ≡ insts
      by_total [] total e size = rw e (ground (arith, size))
      by_total (i ∷ insts) total e size =
          let some_inst : ltb 0 total ≡ true = ground (arith, size) in rw some_inst e

  last_offset :
      get_or (offsets_from 0 (array_blocks passed)) (length (array_blocks passed)) 0
      ≡ length (all_insts passed)
  last_offset =
      ap (λ n. get_or (offsets_from 0 (array_blocks passed)) n 0) (length-array_blocks passed)
      ∙ offset_lem (length passed) (omega arith)
      ∙ ap (λ bs. length (all_insts bs)) (take_all passed)

  arrays_is_finalized :
      (f : Func) → present passed ≡ true → func_is_finalized (arrays f passed) ≡ true
  unfolding func_is_finalized
  arrays_is_finalized f all =
      rw (arrays_finalized passed few all, total_lem)
        (tests (is_empty (array_blocks passed)) (all_insts passed)
          (linear_insts (array_blocks passed)) _ last_offset)

abbrev pub offset_entries : Option (List ℕ) → List ℕ
offset_entries none = []
offset_entries (some offsets) = offsets

present-block_insts :
    (blocks : List (Option FuncBlock)) → present (block_insts blocks) ≡ present blocks
present-block_insts [] = refl
present-block_insts (none ∷ blocks) = refl
present-block_insts (some b ∷ blocks) = present-block_insts blocks

length_elem :
    (blocks : Blocks) (i : ℕ) (b : Option (List Inst))
    → get_elem? blocks i ≡ some b
    → i < length blocks
length_elem [] i b h = absurd (cc)
length_elem (x ∷ blocks) zero b h = omega arith
length_elem (x ∷ blocks) (suc i) b h = omega (arith, length_elem blocks i b h)

-- The blocks after the passes.
abbrev pub passed_blocks : (IrType → IrType → Bool) → Func → Blocks
passed_blocks same_type f = run_func_peephole_passes same_type f.next_vreg (block_insts f.blocks)

module _ (same_type : IrType → IrType → Bool) (f : Func) (fresh : f.block_inst_offsets ≡ none)
    (unbuilt : f.linear_inst_array ≡ none) (some_block : is_empty f.blocks ≡ false) where
  not_finalized : func_is_finalized f ≡ false
  unfolding func_is_finalized
  not_finalized = rw (some_block, fresh) (by_case _)
    where
      by_case : (b : Bool) → (b && false) ≡ false
      by_case true = refl
      by_case false = refl

  func_finalize-arrays : func_finalize same_type f ≡ arrays f (passed_blocks same_type f)
  unfolding func_finalize
  func_finalize-arrays =
      let filled : Func = record f {
        blocks = array_blocks (passed_blocks same_type f);
        has_block_array = true;
        block_inst_offsets = offsets_or_new (num_blocks f) f.block_inst_offsets;
      } in
      if_false _ _ not_finalized ∙ if_false _ _ some_block ∙ ap (fill_linear filled) unbuilt

again :
    (same_type : IrType → IrType → Bool) (f : Func)
    → func_is_finalized f ≡ true
    → func_finalize same_type f ≡ f
unfolding func_finalize
again same_type f done = if_true _ _ done

-- Finalizing a function that is not finalized yet -- it has blocks, no number is without its block,
-- the two arrays over the function are not built, and less than 2 ^ 32 instructions are left by the
-- passes -- gives a finalized function, which a second call leaves as it is. Its blocks are those
-- after the passes, `linear_inst_array` is all their instructions in order, and the
-- instructions of block `i` stand there from the block's offset on.
pub func_finalize-all_insts :
    (same_type : IrType → IrType → Bool) (f : Func) (i : ℕ) (insts : List Inst)
    → f.block_inst_offsets ≡ none
    → f.linear_inst_array ≡ none
    → is_empty f.blocks ≡ false
    → present f.blocks ≡ true
    → length (all_insts (passed_blocks same_type f)) < 2 ^ 32
    → get_elem? (passed_blocks same_type f) i ≡ some (some insts)
    → (let f' = func_finalize same_type f in
        (func_is_finalized f' ≡ true)
        × (func_finalize same_type f' ≡ f')
        × (block_insts f'.blocks ≡ passed_blocks same_type f)
        × (array_insts f'.linear_inst_array ≡ all_insts (passed_blocks same_type f))
        × (take (length insts) (
              drop
                (get_or (offset_entries f'.block_inst_offsets) i 0)
                (array_insts f'.linear_inst_array))
            ≡ insts))
func_finalize-all_insts same_type f i insts fresh unbuilt some_block all few at =
    let passed = passed_blocks same_type f in
    let built = func_finalize-arrays same_type f fresh unbuilt some_block in
    let effects =
      run_func_peephole_passes-func_effects same_type f.next_vreg (block_insts f.blocks) in
    let all' : present passed ≡ true =
      sym (present-func_effects passed)
      ∙ ap present effects
      ∙ present-func_effects (block_insts f.blocks)
      ∙ present-block_insts f.blocks
      ∙ all in
    let done = arrays_is_finalized passed few f all' in
    let inside = length_elem passed i (some insts) at in
    let slice =
      ap (λ n. take (length insts) (drop n (array_insts (arrays f passed).linear_inst_array)))
        (offset_lem passed few i (omega arith))
      ∙ ap (λ all. take (length insts) (drop (length (all_insts (take i passed))) all))
          (linear_lem passed few f)
      ∙ slice_of_block i passed insts at in
    rw built (
      done,
      again same_type (arrays f passed) done,
      block_insts-array_blocks passed,
      linear_lem passed few f,
      slice,
    )

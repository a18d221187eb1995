-- ===== src/Ir/Finalize/Offsets.antt =====
-- The arrays that `lr_func_finalize` of src/ir.c builds.
use liric.Base.{ℕ, zero, suc, ◌+◌, ◌^◌, ◌≤◌, ◌<◌, ◌≡◌, refl, sym, ap, ◌∙◌, arith}
use liric.Base.{List, [], ◌∷◌, ◌++◌, none, some}
use liric.Base.{u32, ◌==◌, false}
use liric.Base.{length, get_or, get_elem?, take, take_whole, drop, length-append, drop-append_right}
use liric.Ir.Inst.{Inst}
use liric.Ir.DeadCode.{Blocks}
use liric.Ir.Finalize.{array_block, array_blocks, count_linear}
use liric.Ir.Finalize.{offsets_from, array_insts, linear_insts}

-- All instructions of the blocks, one block after the other.
abbrev pub all_insts : Blocks → List Inst
all_insts [] = []
all_insts (none ∷ blocks) = all_insts blocks
all_insts (some insts ∷ blocks) = insts ++ all_insts blocks

array_insts_lem :
    (insts : List Inst) → length insts < 2 ^ 32 → array_insts (array_block insts).inst_array ≡ insts
array_insts_lem [] few = refl
array_insts_lem (i ∷ insts) few =
    let some_inst : (u32 (suc (length insts)) == 0) ≡ false = ground arith in rw some_inst refl

pub linear_insts-all_insts :
    (blocks : Blocks)
    → length (all_insts blocks) < 2 ^ 32
    → linear_insts (array_blocks blocks) ≡ all_insts blocks
unfolding linear_insts array_blocks
linear_insts-all_insts [] few = refl
linear_insts-all_insts (none ∷ blocks) few = linear_insts-all_insts blocks few
linear_insts-all_insts (some insts ∷ blocks) few =
    let size = length-append insts (all_insts blocks) in
    ap (λ i. i ++ linear_insts (array_blocks blocks)) (array_insts_lem insts (omega arith))
    ∙ ap (λ rest. insts ++ rest) (linear_insts-all_insts blocks (omega arith))

pub count_linear-all_insts :
    (total : ℕ) (blocks : Blocks)
    → total + length (all_insts blocks) < 2 ^ 32
    → count_linear total (array_blocks blocks) ≡ total + length (all_insts blocks)
unfolding count_linear array_blocks
count_linear-all_insts total [] few = omega arith
count_linear-all_insts total (none ∷ blocks) few = count_linear-all_insts total blocks few
count_linear-all_insts total (some insts ∷ blocks) few =
    let size = length-append insts (all_insts blocks) in
    let e : u32 (total + u32 (length insts)) ≡ total + length insts = omega arith in
    ap (λ n. count_linear n (array_blocks blocks)) e
    ∙ count_linear-all_insts (total + length insts) blocks (omega arith)
    ∙ omega arith

-- The offset of block `i` is the count of the instructions of the blocks before it.
pub offsets_from-all_insts :
    (at i : ℕ) (blocks : Blocks)
    → i ≤ length blocks
    → at + length (all_insts blocks) < 2 ^ 32
    → get_or (offsets_from at (array_blocks blocks)) i 0 ≡ at + length (all_insts (take i blocks))
unfolding offsets_from array_blocks
offsets_from-all_insts at zero [] inside few = omega arith
offsets_from-all_insts at zero (none ∷ blocks) inside few = omega arith
offsets_from-all_insts at zero (some insts ∷ blocks) inside few = omega arith
offsets_from-all_insts at (suc i) [] inside few = absurd (omega arith)
offsets_from-all_insts at (suc i) (none ∷ blocks) inside few =
    offsets_from-all_insts at i blocks (omega arith) few
offsets_from-all_insts at (suc i) (some insts ∷ blocks) inside few =
    let size = length-append insts (all_insts blocks) in
    let size' = length-append insts (all_insts (take i blocks)) in
    let e : u32 (at + u32 (length insts)) ≡ at + length insts = omega arith in
    ap (λ n. get_or (offsets_from n (array_blocks blocks)) i 0) e
    ∙ offsets_from-all_insts (at + length insts) i blocks (omega arith) (omega arith)
    ∙ omega arith

-- The instructions of block `i` stand behind those of the blocks before it.
pub slice_of_block :
    (i : ℕ) (blocks : Blocks) (insts : List Inst)
    → get_elem? blocks i ≡ some (some insts)
    → take (length insts) (drop (length (all_insts (take i blocks))) (all_insts blocks)) ≡ insts
slice_of_block i [] insts h = absurd (cc)
slice_of_block zero (none ∷ blocks) insts h = absurd (cc)
slice_of_block zero (some b ∷ blocks) insts h =
    let e : b ≡ insts = cc in
    ap (λ n. take n (b ++ all_insts blocks)) (ap length (sym e))
    ∙ take_whole b (all_insts blocks)
    ∙ e
slice_of_block (suc i) (none ∷ blocks) insts h = slice_of_block i blocks insts h
slice_of_block (suc i) (some b ∷ blocks) insts h =
    ap (take (length insts)) (
      ap (λ n. drop n (b ++ all_insts blocks)) (length-append b (all_insts (take i blocks)))
      ∙ drop-append_right b (all_insts blocks) (length (all_insts (take i blocks))))
    ∙ slice_of_block i blocks insts h

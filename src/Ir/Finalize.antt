-- ===== src/Ir/Finalize.antt =====
-- Functions under construction and `lr_func_finalize` of src/ir.c. Entry `id` of `blocks` is the block
-- with that number, `none` where the number's block is not in the function's list.
pub mod Offsets
pub mod Finalized
mod Tests
use liric.Base.{ℕ, zero, suc, ◌+◌, List, [], ◌∷◌, ◌++◌, Option, none, some}
use liric.Base.{Bool, true, false, not, ◌&&◌, ◌||◌, ltb, ◌==◌, if◌then◌else◌, u32}
use liric.Base.{length, get_or, set, replicate}
use liric.Ir.Types.{IrType}
use liric.Ir.Inst.{Inst}
use liric.Ir.DeadCode.{Blocks, run_func_peephole_passes}

-- `lr_block_t`; `insts` is the list from `first` on.
pub record FuncBlock : Type 0 where
  pub insts : List Inst
  pub inst_array : Option (List Inst)
  pub num_insts : ℕ

-- `lr_func_t`; `none` is a NULL array.
pub record Func : Type 0 where
  pub blocks : List (Option FuncBlock)
  pub has_block_array : Bool
  pub block_inst_offsets : Option (List ℕ)
  pub linear_inst_array : Option (List Inst)
  pub num_linear_insts : ℕ
  pub next_vreg : ℕ

abbrev pub num_blocks : Func → ℕ
num_blocks f = length f.blocks

-- The number of the new block, and the function.
unfoldable pub block_create : Func → ℕ × Func
block_create f = (
  num_blocks f,
  record f {
    blocks = f.blocks ++ some (record { insts = []; inst_array = none; num_insts = 0 }) ∷ [];
    has_block_array = false;
    block_inst_offsets = none;
    linear_inst_array = none;
    num_linear_insts = 0;
  },
)

unfoldable pub vreg_new : Func → ℕ × Func
vreg_new f = (f.next_vreg, record f { next_vreg = u32 (f.next_vreg + 1) })

abbrev pub append_inst : Inst → Option FuncBlock → Option FuncBlock
append_inst inst none = none
append_inst inst (some b) =
    some (record { insts = b.insts ++ inst ∷ []; inst_array = none; num_insts = 0 })

unfoldable pub block_append : Func → ℕ → Inst → Func
block_append f id inst = record f {
  blocks = set f.blocks id (append_inst inst (get_or f.blocks id none));
  block_inst_offsets = none;
  linear_inst_array = none;
  num_linear_insts = 0;
}

abbrev pub is_some {ℓ} : {A : Type ℓ} → Option A → Bool
is_some none = false
is_some (some a) = true

abbrev pub is_empty {ℓ} : {A : Type ℓ} → List A → Bool
is_empty [] = true
is_empty (x ∷ xs) = false

-- Whether the blocks are there with their arrays, and whether one has instructions.
unfoldable pub blocks_finalized : List (Option FuncBlock) → Bool × Bool
blocks_finalized [] = (true, false)
blocks_finalized (none ∷ blocks) = (false, false)
blocks_finalized (some b ∷ blocks) =
    let (ready, has_insts) = blocks_finalized blocks in
    if not (is_empty b.insts) && not (is_some b.inst_array)
    then (false, false)
    else (ready, not (is_empty b.insts) || has_insts)

abbrev pub ends_at : Option (List ℕ) → ℕ → ℕ → Bool
ends_at none n total = false
ends_at (some offsets) n total = get_or offsets n 0 == total

unfoldable pub func_is_finalized : Func → Bool
func_is_finalized f =
    let (ready, has_insts) = blocks_finalized f.blocks in
    is_empty f.blocks
    || (f.has_block_array
        && is_some f.block_inst_offsets
        && ready
        && not (has_insts && not (is_some f.linear_inst_array))
        && not (not has_insts && not (f.num_linear_insts == 0))
        && ends_at f.block_inst_offsets (num_blocks f) f.num_linear_insts)

abbrev pub block_insts : List (Option FuncBlock) → Blocks
block_insts [] = []
block_insts (none ∷ blocks) = none ∷ block_insts blocks
block_insts (some b ∷ blocks) = some b.insts ∷ block_insts blocks

-- The instructions of a block counted and put in an array.
abbrev pub array_block : List Inst → FuncBlock
array_block insts =
    let n = u32 (length insts) in
    record { insts = insts; inst_array = if n == 0 then none else some insts; num_insts = n }

unfoldable pub array_blocks : Blocks → List (Option FuncBlock)
array_blocks [] = []
array_blocks (none ∷ blocks) = none ∷ array_blocks blocks
array_blocks (some insts ∷ blocks) = some (array_block insts) ∷ array_blocks blocks

-- `total`, from what was counted before.
unfoldable pub count_linear : ℕ → List (Option FuncBlock) → ℕ
count_linear total [] = total
count_linear total (none ∷ blocks) = count_linear total blocks
count_linear total (some b ∷ blocks) = count_linear (u32 (total + b.num_insts)) blocks

-- `block_inst_offsets`, with the last entry behind the blocks.
unfoldable pub offsets_from : ℕ → List (Option FuncBlock) → List ℕ
offsets_from at [] = at ∷ []
offsets_from at (none ∷ blocks) = at ∷ offsets_from at blocks
offsets_from at (some b ∷ blocks) = at ∷ offsets_from (u32 (at + b.num_insts)) blocks

abbrev pub array_insts : Option (List Inst) → List Inst
array_insts none = []
array_insts (some insts) = insts

-- What is written to `linear_inst_array` one after the other.
unfoldable pub linear_insts : List (Option FuncBlock) → List Inst
linear_insts [] = []
linear_insts (none ∷ blocks) = linear_insts blocks
linear_insts (some b ∷ blocks) = array_insts b.inst_array ++ linear_insts blocks

abbrev pub offsets_or_new : ℕ → Option (List ℕ) → Option (List ℕ)
offsets_or_new n none = some (replicate (n + 1) 0)
offsets_or_new n (some offsets) = some offsets

abbrev pub fill_linear : Func → Option (List Inst) → Func
fill_linear f (some insts) = f
fill_linear f none =
    let total = count_linear 0 f.blocks in
    record f {
      num_linear_insts = total;
      linear_inst_array = if ltb 0 total then some (linear_insts f.blocks) else none;
      block_inst_offsets = some (offsets_from 0 f.blocks);
    }

module _ (same_type : IrType → IrType → Bool) where
  -- The function with its passes run and its arrays built.
  abbrev pub build_arrays : Func → Func
  build_arrays f =
      let passed = run_func_peephole_passes same_type f.next_vreg (block_insts f.blocks) in
      let f' = record f {
        blocks = array_blocks passed;
        has_block_array = true;
        block_inst_offsets = offsets_or_new (num_blocks f) f.block_inst_offsets;
      } in
      fill_linear f' f.linear_inst_array

  unfoldable pub func_finalize : Func → Func
  func_finalize f =
      if func_is_finalized f then f else if is_empty f.blocks then f else build_arrays f

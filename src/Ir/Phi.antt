-- ===== src/Ir/Phi.antt =====
-- `lr_build_phi_copies` of src/ir.c: the copies that each block makes for the phi nodes behind it.
-- The arrays over the blocks are functions of the block's number, which the code compares with the
-- number of blocks first; a write behind a `copies` array is `none`.
pub mod Counting
pub mod Copies
use liric.Base.{
  ℕ, zero, suc, ◌+◌, ◌-◌, ◌^◌, Bool, true, false, List, [], ◌∷◌, ◌++◌, length, set, replicate,
}
use liric.Base.{Option, none, some, if◌then◌else◌, ltb, leb, ◌==◌, u32}
use liric.Ir.Inst.{Opcode, Operand, Inst}
use liric.Ir.Gep.{field_number}

pub record PhiCopy : Type 0 where
  pub dest_vreg : ℕ
  pub src_op : Operand

-- `copies` has an entry for each element of the array; `none` is a cleared one.
pub record BlockPhiCopies : Type 0 where
  pub copies : List (Option PhiCopy)
  pub count : ℕ
  pub fill_pos : ℕ

-- One step of the two loops: a predecessor's number and the copy to make in it.
pub record PhiEdge : Type 0 where
  pub pred_id : ℕ
  pub copy : PhiCopy

-- `for (i = 0; i + 1 < num_operands; i += 2)`
unfoldable pub phi_edges : ℕ → List Operand → List PhiEdge
phi_edges dest [] = []
phi_edges dest (src ∷ []) = []
phi_edges dest (src ∷ pred ∷ others) =
    record { pred_id = field_number pred.value; copy = record { dest_vreg = dest; src_op = src } }
    ∷ phi_edges dest others

abbrev pub inst_edges : Opcode → ℕ → List Operand → List PhiEdge
inst_edges Opcode.phi dest operands = phi_edges dest operands
inst_edges _ dest operands = []

-- The instructions of all blocks in order.
unfoldable pub func_edges : List Inst → List PhiEdge
func_edges [] = []
func_edges (i ∷ is) = inst_edges i.op i.dest i.operands ++ func_edges is

abbrev pub put : (ℕ → BlockPhiCopies) → ℕ → BlockPhiCopies → ℕ → BlockPhiCopies
put blocks i b p = if i == p then b else blocks p

abbrev pub count_edge : ℕ → (ℕ → BlockPhiCopies) → PhiEdge → ℕ → BlockPhiCopies
count_edge num_blocks blocks e p =
    if leb num_blocks e.pred_id
    then blocks p
    else put blocks e.pred_id
        (record (blocks e.pred_id) { count = u32 ((blocks e.pred_id).count + 1) }) p

unfoldable pub count_edges : ℕ → List PhiEdge → (ℕ → BlockPhiCopies) → ℕ → BlockPhiCopies
count_edges num_blocks [] blocks = blocks
count_edges num_blocks (e ∷ es) blocks = count_edges num_blocks es (count_edge num_blocks blocks e)

abbrev pub allocate : (ℕ → BlockPhiCopies) → ℕ → BlockPhiCopies
allocate blocks p =
    let b = blocks p in
    if b.count == 0 then b else record b { copies = replicate b.count none; fill_pos = b.count }

-- `slot = --fill_pos[pred_id]`, a `uint32_t`
abbrev pub fill_block : BlockPhiCopies → PhiCopy → Option BlockPhiCopies
fill_block b copy =
    let slot = u32 (b.fill_pos + 2 ^ 32 - 1) in
    if ltb slot (length b.copies)
    then some (record b { copies = set b.copies slot (some copy); fill_pos = slot })
    else none

abbrev pub fill_edge : ℕ → (ℕ → BlockPhiCopies) → PhiEdge → Option (ℕ → BlockPhiCopies)
fill_edge num_blocks blocks e =
    if leb num_blocks e.pred_id then some blocks else elim (fill_block (blocks e.pred_id) e.copy) [
      | none ↦ none
      | some b ↦ some (put blocks e.pred_id b)
    ]

unfoldable pub fill_edges : ℕ → List PhiEdge → (ℕ → BlockPhiCopies) → Option (ℕ → BlockPhiCopies)
fill_edges num_blocks [] blocks = some blocks
fill_edges num_blocks (e ∷ es) blocks = elim (fill_edge num_blocks blocks e) [
  | none ↦ none
  | some blocks' ↦ fill_edges num_blocks es blocks'
]

abbrev pub no_copies : ℕ → BlockPhiCopies
no_copies p = record { copies = []; count = 0; fill_pos = 0 }

unfoldable pub build_phi_copies : ℕ → List Inst → Option (ℕ → BlockPhiCopies)
build_phi_copies num_blocks insts =
    let edges = func_edges insts in
    fill_edges num_blocks edges (allocate (count_edges num_blocks edges no_copies))

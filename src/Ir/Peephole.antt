-- ===== src/Ir/Peephole.antt =====
-- The passes of `run_func_peephole_passes` of src/ir.c. A block is the list of its instructions, and a
-- function the list of its `block_array`, where `none` is a NULL entry.
pub mod Effects
use liric.Base.{ℕ, zero, suc, ◌+◌, List, [], ◌∷◌, ◌++◌, Option, none, some}
use liric.Base.{Bool, true, false, not, ◌&&◌, ◌||◌, ltb, ◌==◌, if◌then◌else◌}
use liric.Base.{length, get_or, set, replicate}
use liric.Ir.Types.{IrType}
use liric.Ir.Layout.{is_null}
use liric.Ir.Inst.{Opcode, OperandValue, Operand, Inst, op_vreg}
use liric.Ir.Fold.{operand_equal, try_inst_replacement}

-- `lr_opt_replacement_t`, for each of the `nrepl` registers: `none` is one that is not known.
abbrev pub Replacements : Type 0
Replacements = List (Option Operand)

abbrev pub is_vreg : OperandValue → ℕ → Bool
is_vreg (OperandValue.vreg v) w = v == w
is_vreg _ w = false

-- The operand that stands for a register, if there is another one.
abbrev pub replacement_of : Replacements → OperandValue → Option Operand
replacement_of repl (OperandValue.vreg v) = elim (get_or repl v none) [
  | none ↦ none
  | some next ↦ if is_vreg next.value v then none else some next
]
replacement_of repl _ = none

-- The loop of `operand_resolve`, at most `nrepl + 1` times, with `changed`.
unfoldable pub resolve_loop : ℕ → Replacements → Bool → Operand → Bool × Operand
resolve_loop zero repl changed op = (changed, op)
resolve_loop (suc guard) repl changed op = elim (replacement_of repl op.value) [
  | none ↦ (changed, op)
  | some next ↦ resolve_loop guard repl true next
]

unfoldable pub operand_resolve : Replacements → Operand → Bool × Operand
operand_resolve repl op = resolve_loop (suc (length repl)) repl false op

-- Whether one of them changed, and the operands.
unfoldable pub resolve_operands : Replacements → List Operand → Bool × List Operand
resolve_operands repl [] = (false, [])
resolve_operands repl (op ∷ operands) =
    let (changed, op') = operand_resolve repl op in
    let (others, operands') = resolve_operands repl operands in (changed || others, op' ∷ operands')

abbrev pub is_void : IrType → Bool
is_void IrType.void = true
is_void _ = false

unfoldable pub inst_defines_dest : Inst → Bool
inst_defines_dest inst = elim inst.op [
  | Opcode.ret ↦ false
  | Opcode.ret_void ↦ false
  | Opcode.br ↦ false
  | Opcode.condbr ↦ false
  | Opcode.unreachable ↦ false
  | Opcode.store ↦ false
  | _ ↦ not (is_null inst.type) && not (is_void inst.type)
]

abbrev pub is_alloca_or_call : Opcode → Bool
is_alloca_or_call Opcode.alloca = true
is_alloca_or_call Opcode.call = true
is_alloca_or_call _ = false

unfoldable pub inst_dead_def_eliminable : Inst → Bool
inst_dead_def_eliminable inst = inst_defines_dest inst && not (is_alloca_or_call inst.op)

abbrev pub is_condbr : Opcode → Bool
is_condbr Opcode.condbr = true
is_condbr _ = false

-- The target of a branch on a constant.
abbrev pub known_target : List Operand → Option Operand
known_target (c ∷ x ∷ y ∷ others) = elim c.value [
  | OperandValue.imm_i64 n ↦ some (if n == 0 then y else x)
  | _ ↦ none
]
known_target _ = none

-- A conditional branch on a constant becomes a branch; whether it did.
abbrev pub to_branch : Inst → Option Operand → Bool × Inst
to_branch inst none = (false, inst)
to_branch inst (some target) = (true, record inst { op = Opcode.br; operands = target ∷ [] })

unfoldable pub fold_condbr : Inst → Bool × Inst
fold_condbr inst =
    if is_condbr inst.op then to_branch inst (known_target inst.operands) else (false, inst)

-- `lr_load_cache_entry_t`
pub record LoadEntry : Type 0 where
  pub ptr : Operand
  pub load_type : IrType
  pub value_vreg : ℕ

-- What the loop over the instructions of a block changes.
pub record State : Type 0 where
  pub repl : Replacements
  pub load_cache : List LoadEntry
  pub iter_changed : Bool

abbrev pub clears_loads : Opcode → Bool
clears_loads Opcode.store = true
clears_loads Opcode.call = true
clears_loads _ = false

abbrev pub is_load : Opcode → Bool
is_load Opcode.load = true
is_load _ = false

-- `if (replacement.type == NULL && kind is one of these) replacement.type = inst->type;`
abbrev pub takes_type : OperandValue → Bool
takes_type (OperandValue.block b) = false
takes_type (OperandValue.global g) = false
takes_type _ = true

abbrev pub with_type : IrType → Operand → Operand
with_type type o = if is_null o.type && takes_type o.value then record o { type = type } else o

-- The replacement of a removed instruction is noted, unless it is the register itself.
abbrev pub note_replacement : Replacements → Inst → Operand → Replacements
note_replacement repl inst o =
    if is_vreg o.value inst.dest then repl else set repl inst.dest (some (with_type inst.type o))

module _ (same_type : IrType → IrType → Bool) where
  abbrev pub find_load : List LoadEntry → IrType → Operand → Option Operand
  find_load [] type ptr = none
  find_load (entry ∷ cache) type ptr =
      let later = find_load cache type ptr in
      if same_type entry.load_type type && operand_equal same_type entry.ptr ptr
      then some (op_vreg entry.value_vreg type)
      else later

  -- A load of a known address is replaced; another is noted while there is room.
  abbrev pub cache_load : State → Inst → Operand → Option Operand → Option Operand × State
  cache_load s inst ptr (some o) = (some o, s)
  cache_load s inst ptr none = (
    none,
    if ltb (length s.load_cache) (length s.repl)
        then record s {
          load_cache =
              s.load_cache
              ++ record { ptr = ptr; load_type = inst.type; value_vreg = inst.dest } ∷ [];
        }
        else s,
  )

  abbrev pub load_operands : State → Inst → List Operand → Option Operand × State
  load_operands s inst [] = (none, s)
  load_operands s inst (ptr ∷ others) = cache_load s inst ptr (find_load s.load_cache inst.type ptr)

  -- The replacement of an instruction whose operands are resolved.
  abbrev pub find_replacement : State → Inst → Option Operand → Option Operand × State
  find_replacement s inst (some o) = (some o, s)
  find_replacement s inst none =
      if is_load inst.op && inst_defines_dest inst
      then load_operands s inst inst.operands
      else (none, s)

  abbrev pub forget_loads : State → Inst → State
  forget_loads s inst = if clears_loads inst.op then record s { load_cache = [] } else s

  abbrev pub keep_or_remove : State → Inst → Option Operand → State × Option Inst
  keep_or_remove s inst none = (forget_loads s inst, some inst)
  keep_or_remove s inst (some o) =
      if inst_defines_dest inst && ltb inst.dest (length s.repl)
      then (record s { repl = note_replacement s.repl inst o; iter_changed = true }, none)
      else (s, some inst)

  -- One round of the loop over a block; `none` is an instruction that is taken out.
  unfoldable pub peephole_inst : State → Inst → State × Option Inst
  peephole_inst s inst =
      let (resolved, operands) = resolve_operands s.repl inst.operands in
      let (branched, inst') = fold_condbr (record inst { operands = operands }) in
      let s' = record s { iter_changed = s.iter_changed || resolved || branched } in
      let (found, s'') = find_replacement s' inst' (try_inst_replacement same_type inst') in
      keep_or_remove s'' inst' found

  unfoldable pub peephole_block : State → List Inst → State × List Inst
  peephole_block s [] = (s, [])
  peephole_block s (inst ∷ insts) =
      let (s', kept) = peephole_inst s inst in
      let (s'', insts') = peephole_block s' insts in
      (s'', elim kept [ none ↦ insts' | some inst' ↦ inst' ∷ insts' ])

  unfoldable pub peephole_blocks :
      State → List (Option (List Inst)) → State × List (Option (List Inst))
  peephole_blocks s [] = (s, [])
  peephole_blocks s (none ∷ blocks) =
      let (s', blocks') = peephole_blocks s blocks in (s', none ∷ blocks')
  peephole_blocks s (some insts ∷ blocks) =
      let (s', insts') = peephole_block (record s { load_cache = [] }) insts in
      let (s'', blocks') = peephole_blocks s' blocks in (s'', some insts' ∷ blocks')

  -- `for (iter = 0; iter < 6; iter++) { ... if (!iter_changed) break; }`
  unfoldable pub peephole_iters :
      ℕ → Replacements → List (Option (List Inst)) → Replacements × List (Option (List Inst))
  peephole_iters zero repl blocks = (repl, blocks)
  peephole_iters (suc iters) repl blocks =
      let start : State = record { repl = repl; load_cache = []; iter_changed = false } in
      let (s, blocks') = peephole_blocks start blocks in
      let more = peephole_iters iters s.repl blocks' in
      if s.iter_changed then more else (s.repl, blocks')

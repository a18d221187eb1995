-- ===== src/Wasm/Sections.antt =====
-- The section decoders of src/wasm_decode.c. Arrays come from the arena cleared; allocation is
-- taken to succeed. A round of a loop gives the entry that it fills. Where the source returns
-- from the middle of a loop it has set `failed`, which ends the model's loop too.
pub mod Safety
pub mod Body
pub mod Bodies
pub mod Entries
pub mod Counts
use liric.Base.{ℕ, zero, suc, ◌+◌, ◌-◌, ◌^◌, List, [], ◌∷◌, Option, none, some, Bool, true, false}
use liric.Base.{ltb, ◌==◌, not, if◌then◌else◌, u32, u64, sub64, bit_and}
use liric.Wasm.Cursor.{Cursor, Reader, ◌>>=◌, ◌>>◌, return, unless_failed, each, Message}
use liric.Wasm.Cursor.{cur_u8, cur_u32, cur_i32, cur_i64, cur_bytes, cur_name, cur_err}
use liric.Wasm.Module.{FuncType, Import, Export, LocalGroup, Code, Memory, Global, DataSegment}
use liric.Wasm.Module.{WasmModule}

-- `if (x & mask)`
abbrev pub has_bit : ℕ → ℕ → Bool
has_bit x mask = not (bit_and x mask == 0)

-- `(int64_t)` of an `int32_t`, on bit patterns.
abbrev pub widen_i32 : ℕ → ℕ
widen_i32 v = if ltb v (2 ^ 31) then v else v + 2 ^ 64 - 2 ^ 32

abbrev pub bad_form : Reader FuncType
bad_form = do
  cur_err Message.expected_functype
  return (record { params = []; num_params = 0; results = []; num_results = 0 })

abbrev pub good_form : Reader FuncType
good_form = do
  np ← cur_u32
  params ← each np cur_u8
  nr ← cur_u32
  results ← each nr cur_u8
  return (record { params = params; num_params = np; results = results; num_results = nr })

unfoldable pub decode_functype : Reader FuncType
decode_functype = do form ← cur_u8; if form == 0x60 then good_form else bad_form

-- `count = cur_u32(c); if (c->failed) return;`, then the loop, then what the arrays of `m` become.
abbrev pub section :
    {A : Type 0} → Reader A → (ℕ → List A → WasmModule) → WasmModule → Reader WasmModule
section item store m = do
  count ← cur_u32
  unless_failed m (do entries ← each count item; return (store count entries))

unfoldable pub decode_type_section : WasmModule → Reader WasmModule
decode_type_section m = section decode_functype (λ n ts. record m { types = ts; num_types = n }) m

-- What follows the kind byte; the value is `type_idx`.
abbrev pub import_rest : ℕ → Reader ℕ
import_rest kind =
    if kind == 0
    then cur_u32
    else if kind == 1
    then (do cur_u8; cur_u32; return 0)
    else if kind == 2
    then (do flags ← cur_u8; cur_u32; if has_bit flags 1 then (do cur_u32; return 0) else return 0)
    else if kind == 3
    then (do cur_u8; cur_u8; return 0)
    else (do cur_err Message.unknown_import_kind; return 0)

unfoldable pub decode_import : Reader Import
decode_import = do
  module_name ← cur_name
  name ← cur_name
  kind ← cur_u8
  type_idx ← import_rest kind
  return (record { module_name = module_name; name = name; kind = kind; type_idx = type_idx })

-- How often the loop runs `m->num_func_imports++`.
abbrev pub count_funcs : List Import → ℕ
count_funcs [] = 0
count_funcs (i ∷ imports) = let rest = count_funcs imports in if i.kind == 0 then rest + 1 else rest

unfoldable pub decode_import_section : WasmModule → Reader WasmModule
decode_import_section m =
    section decode_import
      (λ n imports. record m {
        imports = imports;
        num_imports = n;
        num_func_imports = u32 (m.num_func_imports + count_funcs imports);
      })
      m

unfoldable pub decode_function_section : WasmModule → Reader WasmModule
decode_function_section m =
    section cur_u32 (λ n indices. record m { func_type_indices = indices; num_funcs = n }) m

unfoldable pub decode_memory : Reader Memory
decode_memory = do
  flags ← cur_u8
  low ← cur_u32
  if has_bit flags 1
      then (do
        high ← cur_u32
        return (record { min_pages = low; max_pages = high; has_max = true }))
      else return (record { min_pages = low; max_pages = 0; has_max = false })

unfoldable pub decode_memory_section : WasmModule → Reader WasmModule
decode_memory_section m =
    section decode_memory (λ n memories. record m { memories = memories; num_memories = n }) m

-- An `int32_t` or `int64_t` initial value, widened to 64 bits; any other opcode gives 0.
abbrev pub init_value : ℕ → Reader ℕ
init_value op =
    if op == 0x41
    then (do v ← cur_i32; return (widen_i32 v))
    else if op == 0x42
    then cur_i64
    else return 0

abbrev pub expect_end : {A : Type 0} → Message → A → Reader A
expect_end msg a = do end ← cur_u8; if end == 0x0b then return a else (do cur_err msg; return a)

unfoldable pub decode_global : Reader Global
decode_global = do
  type ← cur_u8
  flag ← cur_u8
  op ← cur_u8
  init ← init_value op
  expect_end Message.expected_end_init
      (record { type = type; mutable = not (flag == 0); init_i64 = init })

unfoldable pub decode_global_section : WasmModule → Reader WasmModule
decode_global_section m =
    section decode_global (λ n globals. record m { globals = globals; num_globals = n }) m

unfoldable pub decode_export : Reader Export
decode_export = do
  name ← cur_name
  kind ← cur_u8
  index ← cur_u32
  return (record { name = name; kind = kind; index = index })

unfoldable pub decode_export_section : WasmModule → Reader WasmModule
decode_export_section m =
    section decode_export (λ n exports. record m { exports = exports; num_exports = n }) m

unfoldable pub decode_local_group : Reader LocalGroup
decode_local_group = do
  count ← cur_u32
  type ← cur_u8
  return (record { count = count; type = type })

abbrev pub tell : Reader ℕ
tell c = some (c.pos, c)

-- `c->pos = p`, which is not checked against `c->len`.
abbrev pub seek : ℕ → Reader (Unit {0})
seek p c = some (tt, record c { pos = p })

-- What follows the local groups; the body runs from the cursor to the stated end.
abbrev pub code_end : ℕ → ℕ → ℕ → List LocalGroup → Reader Code
code_end body_size body_start n groups = do
  body ← tell
  seek (u64 (body_start + body_size))
  return (record {
    local_groups = groups;
    num_local_groups = n;
    body = body;
    body_len = sub64 body_size (sub64 body body_start);
  })

abbrev pub code_rest : ℕ → ℕ → Reader Code
code_rest body_size body_start = do
  n ← cur_u32
  groups ← each n decode_local_group
  code_end body_size body_start n groups

unfoldable pub decode_code : Reader Code
decode_code = do body_size ← cur_u32; body_start ← tell; code_rest body_size body_start

unfoldable pub decode_code_section : WasmModule → Reader WasmModule
decode_code_section m = section decode_code (λ n codes. record m { codes = codes; num_codes = n }) m

-- The offset expression of an active segment; a passive one leaves `offset` at 0.
abbrev pub active_offset : Reader ℕ
active_offset = do
  op ← cur_u8
  offset ← (if op == 0x41 then cur_i32 else return 0)
  expect_end Message.expected_end_offset offset

abbrev segment_rest : ℕ → ℕ → Reader DataSegment
segment_rest memory_idx offset = do
  size ← cur_u32
  bytes ← cur_bytes size
  return (record { memory_idx = memory_idx; offset = offset; bytes = bytes; size = size })

unfoldable pub decode_data_segment : Reader DataSegment
decode_data_segment = do
  flags ← cur_u32
  memory_idx ← (if has_bit flags 2 then cur_u32 else return 0)
  offset ← (if has_bit flags 1 then return 0 else active_offset)
  segment_rest memory_idx offset

unfoldable pub decode_data_section : WasmModule → Reader WasmModule
decode_data_section m =
    section decode_data_segment (λ n segments. record m { data_segments = segments; num_data = n })
      m

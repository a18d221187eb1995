-- ===== src/Wasm/Decode.antt =====
-- `lr_wasm_decode` of src/wasm_decode.c: the header and the loop over the sections.
pub mod Termination
pub mod Framing
pub mod Counts
pub mod Overread
pub mod Safety
use liric.Base.{ℕ, zero, suc, ◌+◌, ◌^◌, List, Option, none, some, Bool, true, false}
use liric.Base.{ltb, ◌==◌, not, ◌&&◌, ◌||◌, if◌then◌else◌, u64, length}
use liric.Wasm.Cursor.{Cursor, Reader, return, Message, cur_u8, cur_u32, cur_u32_le, cur_err}
use liric.Wasm.Module.{WasmModule, empty_module}
use liric.Wasm.Sections.{decode_type_section, decode_import_section, decode_function_section}
use liric.Wasm.Sections.{decode_memory_section, decode_global_section, decode_export_section}
use liric.Wasm.Sections.{decode_code_section, decode_data_section}

-- `rejected` is NULL, with what was written to the error buffer; `fault` is a read behind the end
-- of the input. `out_of_fuel` is no result of the C function.
pub data Outcome : Type 0 where
  decoded : WasmModule → Outcome
  rejected : Option (Message × ℕ) → Outcome
  fault out_of_fuel : Outcome

abbrev pub wasm_magic : ℕ
wasm_magic = 0x6d736100

abbrev pub wasm_version : ℕ
wasm_version = 1

-- The `switch` on the section id; an unknown section is skipped.
unfoldable pub decode_section : ℕ → WasmModule → Reader WasmModule
decode_section id m =
    if id == 1
    then decode_type_section m
    else if id == 2
    then decode_import_section m
    else if id == 3
    then decode_function_section m
    else if id == 5
    then decode_memory_section m
    else if id == 6
    then decode_global_section m
    else if id == 7
    then decode_export_section m
    else if id == 10
    then decode_code_section m
    else if id == 11
    then decode_data_section m
    else return m

-- What one round of the section loop comes to: the loop ends, or goes on at the section's end.
pub data Round : Type 0 where
  stop : Outcome → Round
  next : WasmModule → Cursor → Round

abbrev pub after_section : Cursor → Option (WasmModule × Cursor) → Round
after_section c none = stop fault
after_section c (some (m, sc)) =
    if sc.failed then stop (rejected sc.err) else next m (record c { err = sc.err })

-- The section's cursor ends at `sec_end`, which is not checked against the input's length.
abbrev pub read_section : ℕ → ℕ → WasmModule → Cursor → Round
read_section id sec_len m c =
    let sec_end = u64 (c.pos + sec_len) in
    after_section (record c { pos = sec_end })
      (decode_section id m (record c { len = sec_end; failed = false }))

abbrev pub with_length : ℕ → WasmModule → Option (ℕ × Cursor) → Round
with_length id m none = stop fault
with_length id m (some (sec_len, c)) =
    if c.failed then stop (rejected c.err) else read_section id sec_len m c

abbrev pub with_id : WasmModule → Option (ℕ × Cursor) → Round
with_id m none = stop fault
with_id m (some (id, c)) = with_length id m (cur_u32 c)

unfoldable pub decode_round : WasmModule → Cursor → Round
decode_round m c = with_id m (cur_u8 c)

unfoldable pub decode_sections : ℕ → WasmModule → Cursor → Outcome
decode_sections zero m c = out_of_fuel
decode_sections (suc fuel) m c = elim (ltb c.pos c.len) [
  | false ↦ decoded m
  | true ↦ elim (decode_round m c) [ stop r ↦ r | next m' c' ↦ decode_sections fuel m' c' ]
]

-- `fail_header` is `cur_err` and `return NULL`.
abbrev pub fail_header : Message → Cursor → Outcome
fail_header msg c = rejected (some (msg, c.pos))

abbrev pub check_version : ℕ → Option (ℕ × Cursor) → Outcome
check_version fuel none = fault
check_version fuel (some (version, c)) =
    if c.failed || not (version == wasm_version)
    then fail_header Message.unsupported_version c
    else decode_sections fuel empty_module c

abbrev pub check_magic : ℕ → Option (ℕ × Cursor) → Outcome
check_magic fuel none = fault
check_magic fuel (some (magic, c)) =
    if c.failed || not (magic == wasm_magic)
    then fail_header Message.invalid_magic c
    else check_version fuel (cur_u32_le c)

abbrev pub start : List ℕ → Cursor
start bytes = record { bytes = bytes; len = length bytes; pos = 0; failed = false; err = none }

-- Every round takes two bytes at least, so the input's length is enough fuel.
unfoldable pub decode : List ℕ → Outcome
decode bytes = check_magic (length bytes) (cur_u32_le (start bytes))

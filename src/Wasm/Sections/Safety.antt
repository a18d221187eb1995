-- ===== src/Wasm/Sections/Safety.antt =====
-- The reads of the section decoders of src/wasm_decode.c, but for the code section.
use liric.Base.{ℕ, ◌<◌, ◌^◌, List, Option, none, some, if◌then◌else◌, ◌==◌}
use liric.Wasm.Cursor.{Cursor, Reader, ◌>>=◌, return, each, Message}
use liric.Wasm.Cursor.{cur_u8, cur_u32, cur_i32, cur_bytes, cur_name, cur_err}
use liric.Wasm.Safety.{Safe, Kept, Any, Safe->>=, Safe-if, Safe-unless_failed, cur_err-Safe}
use liric.Wasm.Safety.{cur_u8-Safe, cur_u32-Safe, cur_i32-Safe, cur_i64-Safe, cur_bytes-Safe}
use liric.Wasm.Safety.{cur_name-Safe, each-Safe, IsU32, Moved-refl}
use liric.Wasm.Module.{WasmModule}
use liric.Wasm.Sections.{
  section, decode_functype, decode_type_section, decode_import, decode_memory, decode_global,
}
use liric.Wasm.Sections.{
  decode_export, decode_data_segment, has_bit, import_rest, init_value, expect_end,
}
use liric.Wasm.Sections.{
  active_offset, decode_import_section, decode_function_section, decode_memory_section,
  decode_global_section,
}
use liric.Wasm.Sections.{decode_export_section, decode_data_section}

-- A composition whose first reader gives any value, and one whose first gives a `uint32_t`.
then-Any :
    {A B : Type 0} (m : Reader A) (f : A → Reader B)
    → Safe Any m
    → ((a : A) → Safe Any (f a))
    → Safe Any (m >>= f)
then-Any m f h k = Safe->>= Any Any m f h (λ a _. k a)

then_u32 :
    {B : Type 0} (f : ℕ → Reader B)
    → ((n : ℕ) → n < 2 ^ 32 → Safe Any (f n))
    → Safe Any (cur_u32 >>= f)
then_u32 f k = Safe->>= IsU32 Any cur_u32 f cur_u32-Safe k

cur_u32-Any : Safe Any cur_u32
cur_u32-Any c p = go (cur_u32 c) (cur_u32-Safe c p)
  where
    go : (r : Option (ℕ × Cursor)) → Kept IsU32 c r → Kept {A = ℕ} Any c r
    go none k = k
    go (some (v, d)) (_, k) = (tt, k)

u8_then : {B : Type 0} (f : ℕ → Reader B) → ((n : ℕ) → Safe Any (f n)) → Safe Any (cur_u8 >>= f)
u8_then f k = then-Any cur_u8 f cur_u8-Safe k

err_then :
    {B : Type 0} (msg : Message) (f : Unit {0} → Reader B)
    → ((u : Unit {0}) → Safe Any (f u))
    → Safe Any (cur_err msg >>= f)
err_then msg f k = then-Any (cur_err msg) f (cur_err-Safe msg) k

section-Safe :
    {A : Type 0} (item : Reader A) (store : ℕ → List A → WasmModule) (m : WasmModule)
    → Safe Any item
    → Safe Any (section item store m)
section-Safe item store m h = then_u32 _ (λ n _.
    Safe-unless_failed m _
      (then-Any (each n item) _ (each-Safe Any n item h) (λ entries c p. (tt, Moved-refl p))))

decode_functype-Safe : Safe Any decode_functype
unfolding decode_functype
decode_functype-Safe = u8_then _ (λ form.
    Safe-if Any (form == 0x60) _ _
      (then_u32 _ (λ np _.
        then-Any (each np cur_u8) _ (each-Safe Any np cur_u8 cur_u8-Safe) (λ params.
          then_u32 _ (λ nr _.
            then-Any (each nr cur_u8) _ (each-Safe Any nr cur_u8 cur_u8-Safe)
              (λ results c p. (tt, Moved-refl p))))))
      (err_then Message.expected_functype _ (λ _ c p. (tt, Moved-refl p))))

import_rest-Safe : (kind : ℕ) → Safe Any (import_rest kind)
import_rest-Safe kind = Safe-if Any (kind == 0) _ _ cur_u32-Any (
    Safe-if Any (kind == 1) _ _ (u8_then _ (λ _. then_u32 _ (λ _ _ c p. (tt, Moved-refl p)))) (
      Safe-if Any (kind == 2) _ _
        (u8_then _ (λ flags. then_u32 _ (λ _ _.
          Safe-if Any (has_bit flags 1) _ _ (then_u32 _ (λ _ _ c p. (tt, Moved-refl p)))
            (λ c p. (tt, Moved-refl p)))))
        (Safe-if Any (kind == 3) _ _ (u8_then _ (λ _. u8_then _ (λ _ c p. (tt, Moved-refl p))))
          (err_then Message.unknown_import_kind _ (λ _ c p. (tt, Moved-refl p))))))

decode_import-Safe : Safe Any decode_import
unfolding decode_import
decode_import-Safe = then-Any cur_name _ cur_name-Safe (λ module_name.
    then-Any cur_name _ cur_name-Safe (λ name. u8_then _ (λ kind.
      then-Any (import_rest kind) _ (import_rest-Safe kind) (λ _ c p. (tt, Moved-refl p)))))

decode_memory-Safe : Safe Any decode_memory
unfolding decode_memory
decode_memory-Safe = u8_then _ (λ flags. then_u32 _ (λ low _.
    Safe-if Any (has_bit flags 1) _ _ (then_u32 _ (λ _ _ c p. (tt, Moved-refl p)))
      (λ c p. (tt, Moved-refl p))))

init_value-Safe : (op : ℕ) → Safe Any (init_value op)
init_value-Safe op =
    Safe-if Any (op == 0x41) _ _ (then-Any cur_i32 _ cur_i32-Safe (λ _ c p. (tt, Moved-refl p)))
      (Safe-if Any (op == 0x42) _ _ cur_i64-Safe (λ c p. (tt, Moved-refl p)))

expect_end-Safe : {A : Type 0} (msg : Message) (a : A) → Safe Any (expect_end msg a)
expect_end-Safe msg a = u8_then _ (λ end.
    Safe-if Any (end == 0x0b) _ _ (λ c p. (tt, Moved-refl p))
      (err_then msg _ (λ _ c p. (tt, Moved-refl p))))

decode_global-Safe : Safe Any decode_global
unfolding decode_global
decode_global-Safe = u8_then _ (λ type. u8_then _ (λ flag. u8_then _ (λ op.
    then-Any (init_value op) _ (init_value-Safe op)
      (λ init. expect_end-Safe Message.expected_end_init _))))

decode_export-Safe : Safe Any decode_export
unfolding decode_export
decode_export-Safe =
    then-Any cur_name _ cur_name-Safe
      (λ name. u8_then _ (λ kind. then_u32 _ (λ index _ c p. (tt, Moved-refl p))))

active_offset-Safe : Safe Any active_offset
active_offset-Safe = u8_then _ (λ op.
    then-Any (if op == 0x41 then cur_i32 else return 0) _
      (Safe-if Any (op == 0x41) _ _ cur_i32-Safe (λ c p. (tt, Moved-refl p)))
      (λ offset. expect_end-Safe Message.expected_end_offset offset))

decode_data_segment-Safe : Safe Any decode_data_segment
unfolding decode_data_segment
decode_data_segment-Safe = then_u32 _ (λ flags _.
    then-Any (if has_bit flags 2 then cur_u32 else return 0) _
      (Safe-if Any (has_bit flags 2) _ _ cur_u32-Any (λ c p. (tt, Moved-refl p)))
      (λ memory_idx.
        then-Any (if has_bit flags 1 then return 0 else active_offset) _
          (Safe-if Any (has_bit flags 1) _ _ (λ c p. (tt, Moved-refl p)) active_offset-Safe)
          (λ offset. then_u32 _ (λ size h.
            then-Any (cur_bytes size) _ (cur_bytes-Safe size h) (λ _ c p. (tt, Moved-refl p))))))

-- Every section decoder but that of the code section, on any input and any module.
pub record SectionsSafe (m : WasmModule) : Type 0 where
  pub type_section : Safe Any (decode_type_section m)
  pub import_section : Safe Any (decode_import_section m)
  pub function_section : Safe Any (decode_function_section m)
  pub memory_section : Safe Any (decode_memory_section m)
  pub global_section : Safe Any (decode_global_section m)
  pub export_section : Safe Any (decode_export_section m)
  pub data_section : Safe Any (decode_data_section m)

-- From a cursor that stands inside the input the type, import, function, memory, global, export
-- and data sections read no byte behind it, and leave the cursor further on within its bounds.
pub sections_safe : (m : WasmModule) → SectionsSafe m
unfolding decode_type_section decode_import_section decode_function_section decode_memory_section
    decode_global_section decode_export_section decode_data_section
sections_safe m = record {
  type_section = section-Safe decode_functype _ m decode_functype-Safe;
  import_section = section-Safe decode_import _ m decode_import-Safe;
  function_section = section-Safe cur_u32 _ m cur_u32-Any;
  memory_section = section-Safe decode_memory _ m decode_memory-Safe;
  global_section = section-Safe decode_global _ m decode_global-Safe;
  export_section = section-Safe decode_export _ m decode_export-Safe;
  data_section = section-Safe decode_data_segment _ m decode_data_segment-Safe;
}

-- ===== src/Wasm/Tests.antt =====
-- Runs of the decoder on small inputs, and the theorems at concrete inputs.
use Prim.Native.Nat.{min}
use liric.Base.{ℕ, ◌^◌, ◌≡◌, ◌≢◌, refl, arith, List, [], ◌∷◌, ◌++◌, some}
use liric.Base.{length, ◌-◌}
use liric.Wasm.Leb.{value, malformed, read_leb_u32, read_leb_i32, read_leb_i64}
use liric.Wasm.Leb.Unsigned.{read_leb_u32-groups, read_leb_u32-encode}
use liric.Wasm.Leb.Unsigned.{answer_u32, leb_groups, encode_u32}
use liric.Wasm.Leb.Signed.{read_leb_i32-groups, read_leb_i32_unterminated, sign_extend_groups}
use liric.Wasm.Cursor.{Cursor, Message, cur_err, cur_u32_le, cur_u8, cur_u32, each}
use liric.Wasm.Module.{WasmModule, empty_module}
use liric.Wasm.Sections.{decode_code_section, decode_type_section, decode_function_section}
use liric.Wasm.Sections.{decode_functype, decode_code}
use liric.Wasm.Sections.Safety.{sections_safe, SectionsSafe}
use liric.Wasm.Sections.Bodies.{code_section-Kept}
use liric.Wasm.Safety.{Kept, Any}
use liric.Wasm.Decode.{Outcome, decode, start, decode_sections, decode_round, decode_section}
use liric.Wasm.Decode.Termination.{IsInput, decode-ne-out_of_fuel}
use liric.Wasm.Decode.Framing.{sections_fit, codes_fit}
use liric.Wasm.Decode.Safety.{decode-ne-fault}
use liric.Wasm.Decode.Overread.{decode_overread, header}
use liric.Wasm.Decode.Counts.{decode-CountsMatch}
use liric.Wasm.Sections.Counts.{CountsMatch}

-- 624485 in three groups, and -123456 as a signed number.
abbrev three_groups : List ℕ
three_groups = 0xe5 ∷ 0x8e ∷ 0x26 ∷ []

abbrev signed_groups : List ℕ
signed_groups = 0xc0 ∷ 0xbb ∷ 0x78 ∷ []

read_three_groups : read_leb_u32 three_groups 3 ≡ value 624485 3
unfolding read_leb_u32
read_three_groups = refl

read_signed_groups : read_leb_i32 signed_groups 3 ≡ value (2 ^ 32 - 123456) 3
unfolding read_leb_i32
read_signed_groups = refl

read_signed_groups64 : read_leb_i64 signed_groups 3 ≡ value (2 ^ 64 - 123456) 3
unfolding read_leb_i64
read_signed_groups64 = refl

read_leb_u32-groups_example :
    read_leb_u32 three_groups 3 ≡ answer_u32 (leb_groups (min 5 3) three_groups)
read_leb_u32-groups_example = read_leb_u32-groups three_groups 3 (omega arith) (omega arith)

read_leb_u32-encode_example :
    read_leb_u32 (encode_u32 4 624485 ++ (7 ∷ [])) 4 ≡ value 624485 (length (encode_u32 4 624485))
read_leb_u32-encode_example =
    read_leb_u32-encode 624485 4 (7 ∷ []) (omega arith) (omega arith) (omega arith) (omega arith)

read_leb_i32-groups_example : read_leb_i32 signed_groups 3 ≡ value (sign_extend_groups 3 1973696) 3
read_leb_i32-groups_example = read_leb_i32-groups signed_groups 3 1973696 3 (omega arith) refl

read_leb_i32_unterminated_example :
    (read_leb_u32 (0x80 ∷ 0xff ∷ []) 2 ≡ malformed)
    × ((v : ℕ) × (read_leb_i32 (0x80 ∷ 0xff ∷ []) 2 ≡ value v 2))
read_leb_i32_unterminated_example =
    read_leb_i32_unterminated (0x80 ∷ 0xff ∷ []) (omega arith) (omega arith) (omega arith)

-- A function type, a function, and its empty body.
abbrev small_module : List ℕ
small_module = header (1 ∷ 4 ∷ 1 ∷ 0x60 ∷ 0 ∷ 0 ∷ 3 ∷ 2 ∷ 1 ∷ 0 ∷ 10 ∷ 4 ∷ 1 ∷ 2 ∷ 0 ∷ 0x0b ∷ [])

small_module-IsInput : IsInput small_module
small_module-IsInput = record { size_fits = omega arith; octets = omega arith }

sections_safe_example : SectionsSafe empty_module
sections_safe_example = sections_safe empty_module

decode-ne-out_of_fuel_example : decode small_module ≢ Outcome.out_of_fuel
decode-ne-out_of_fuel_example = decode-ne-out_of_fuel small_module small_module-IsInput

decode-ne-fault_example : decode small_module ≢ Outcome.fault
unfolding sections_fit codes_fit read_leb_u32
decode-ne-fault_example = decode-ne-fault small_module small_module-IsInput refl

decode_overread_example : decode (header (1 ∷ 5 ∷ [])) ≡ Outcome.fault
decode_overread_example = decode_overread 1 5 refl (omega arith) (omega arith)

-- The code section's body of the module above.
abbrev at_code_section : Cursor
at_code_section = record (start small_module) { pos = 20 }

code_section-Kept_example :
    Kept Any at_code_section (decode_code_section empty_module at_code_section)
unfolding codes_fit read_leb_u32
code_section-Kept_example =
    code_section-Kept empty_module at_code_section
      (record {
        ahead = omega arith;
        inside = omega arith;
        small = omega arith;
        octets = omega arith;
      })
      refl

abbrev decoded_module : WasmModule
decoded_module = record empty_module {
  types = record { num_params = 0; params = []; num_results = 0; results = [] } ∷ [];
  num_types = 1;
  func_type_indices = 0 ∷ [];
  num_funcs = 1;
  codes = record { local_groups = []; num_local_groups = 0; body = 23; body_len = 1 } ∷ [];
  num_codes = 1;
}

decode-small_module : decode small_module ≡ Outcome.decoded decoded_module
unfolding decode cur_u32_le decode_sections decode_round cur_u8 cur_u32 read_leb_u32 decode_section
    decode_type_section decode_function_section decode_code_section each decode_functype decode_code
decode-small_module = refl

decode-CountsMatch_example : CountsMatch decoded_module
decode-CountsMatch_example = decode-CountsMatch small_module decoded_module decode-small_module

-- A wrong magic number.
decode_bad_magic :
    decode (1 ∷ 0x61 ∷ 0x73 ∷ 0x6d ∷ 1 ∷ 0 ∷ 0 ∷ 0 ∷ [])
    ≡ Outcome.rejected (some (Message.invalid_magic, 4))
unfolding decode cur_u32_le cur_err
decode_bad_magic = refl

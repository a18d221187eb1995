-- ===== src/Wasm/Decode/Overread.antt =====
-- Inputs of `lr_wasm_decode` of src/wasm_decode.c that end right behind a section's header.
use liric.Base.{
  ℕ, ◌+◌, ◌<◌, ◌≡◌, refl, arith, List, [], ◌∷◌, Bool, true, false, ◌||◌, ◌==◌, none, some,
}
use liric.Base.Bits.{bit_and_single, bit_and_mask, bit_or_shifted}
use liric.Base.{u32, bit_and, ◌<<<◌, if◌then◌else◌}
use liric.Wasm.Cursor.{Reader, ◌>>=◌}
use liric.Wasm.Sections.{
  section, decode_type_section, decode_import_section, decode_function_section,
}
use liric.Wasm.Sections.{decode_memory_section, decode_global_section, decode_export_section}
use liric.Wasm.Sections.{decode_code_section, decode_data_section}
use liric.Wasm.Leb.{fault, value, read_leb_u32}
use liric.Wasm.Cursor.{Cursor, cur_u8, cur_u32, cur_u32_le}
use liric.Wasm.Module.{WasmModule, empty_module}
use liric.Wasm.Decode.{
  Outcome, decode, decode_sections, decode_round, decode_section, start, with_length, after_section,
  stop,
}
use liric.Base.{ltb, suc, ap, ◌∙◌, u64, sub64}
use liric.Wasm.Cursor.{take_leb}

-- The ids that the `switch` has a case for.
abbrev is_decoded : ℕ → Bool
is_decoded id =
    id == 1
    || (id == 2 || (id == 3 || (id == 5 || (id == 6 || (id == 7 || (id == 10 || id == 11))))))

abbrev pub header : List ℕ → List ℕ
header rest = 0 ∷ 0x61 ∷ 0x73 ∷ 0x6d ∷ 1 ∷ 0 ∷ 0 ∷ 0 ∷ rest

behind : (n : ℕ) → 0 < n → read_leb_u32 [] n ≡ fault
unfolding read_leb_u32
behind n h = ground arith

one_byte : (n len : ℕ) → n < 128 → 0 < len → read_leb_u32 (n ∷ []) len ≡ value n 1
unfolding read_leb_u32
one_byte n len h k = ground (
  arith,
  bit_and_single 7 n,
  bit_and_mask 7 n,
  bit_or_shifted 0 n 0 (u32 (bit_and n 0x7f <<< 0)) (omega arith),
)

module _ (m : WasmModule) (c : Cursor) (stuck : cur_u32 c ≡ none) where
  section-none :
      {A : Type 0} (item : Reader A) (store : ℕ → List A → WasmModule)
      → section item store m c ≡ none
  section-none item store = rw (stuck, ◌>>=◌) refl

  pick :
      (b others : Bool) (x y : Reader WasmModule)
      → (b || others) ≡ true
      → x c ≡ none
      → (others ≡ true → y c ≡ none)
      → (if b then x else y) c ≡ none
  pick true others x y e p q = p
  pick false others x y e p q = q e

  decode_section-none : (id : ℕ) → is_decoded id ≡ true → decode_section id m c ≡ none
  unfolding decode_section decode_type_section decode_import_section decode_function_section
      decode_memory_section decode_global_section decode_export_section decode_code_section
      decode_data_section
  decode_section-none id e = pick (id == 1) _ _ _ e (section-none _ _) (λ e2.
      pick (id == 2) _ _ _ e2 (section-none _ _) (λ e3.
        pick (id == 3) _ _ _ e3 (section-none _ _) (λ e5.
          pick (id == 5) _ _ _ e5 (section-none _ _) (λ e6.
            pick (id == 6) _ _ _ e6 (section-none _ _) (λ e7.
              pick (id == 7) _ _ _ e7 (section-none _ _) (λ e10.
                pick (id == 10) _ _ _ e10 (section-none _ _)
                  (λ e11. rw e11 (section-none _ _))))))))

sections_stop_at :
    (fuel : ℕ) (m : WasmModule) (c : Cursor) (o : Outcome)
    → ltb c.pos c.len ≡ true
    → decode_round m c ≡ stop o
    → decode_sections (suc fuel) m c ≡ o
unfolding decode_sections
sections_stop_at fuel m c o e f = rw (e, decode_sections) (rw (f, decode_sections) refl)

module _ (id n : ℕ) (known : is_decoded id ≡ true) (lo : 0 < n) (hi : n < 128) where
  abbrev at : ℕ → Cursor
  at pos = record (start (header (id ∷ n ∷ []))) { pos = pos }

  size_read : cur_u32 (at 9) ≡ some (n, at 10)
  unfolding cur_u32
  size_read = ap (λ r. take_leb r (at 9)) (one_byte n 1 hi (omega arith))

  abbrev inside : Cursor
  inside = record (at 10) { len = u64 (10 + n); failed = false }

  body_stuck : cur_u32 inside ≡ none
  unfolding cur_u32
  body_stuck = ap (λ r. take_leb r inside) (behind (sub64 (u64 (10 + n)) 10) (omega arith))

  round_stops : decode_round empty_module (at 8) ≡ stop Outcome.fault
  unfolding decode_round cur_u8
  round_stops =
      ap (with_length id empty_module) size_read
      ∙ ap (after_section (record (at 10) { pos = u64 (10 + n) }))
          (decode_section-none empty_module inside body_stuck id known)

  sections_stop : decode_sections 10 empty_module (at 8) ≡ Outcome.fault
  sections_stop = sections_stop_at 9 empty_module (at 8) Outcome.fault refl round_stops

-- On an input that ends behind the header of one of the sections that are decoded, with a stated
-- size from 1 to 127, `lr_wasm_decode` reads behind the end of the input.
pub decode_overread :
    (id n : ℕ)
    → is_decoded id ≡ true
    → 0 < n
    → n < 128
    → decode (header (id ∷ n ∷ [])) ≡ Outcome.fault
unfolding decode cur_u32_le
decode_overread id n known lo hi = sections_stop id n known lo hi

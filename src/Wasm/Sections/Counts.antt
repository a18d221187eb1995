-- ===== src/Wasm/Sections/Counts.antt =====
-- The count fields that each section of src/wasm_decode.c sets beside its array.
use liric.Base.{ℕ, ◌≡◌, List, Option, none, some, length}
use liric.Base.{Bool, true, false}
use liric.Wasm.Cursor.{Cursor, Reader, ◌>>=◌, return, unless_failed, each, cur_u32}
use liric.Wasm.Module.{WasmModule}
use liric.Wasm.Sections.Entries.{Good, Filled, each-Filled, Anything, any_Good}
use liric.Wasm.Sections.Entries.{
  FuncTypeMatches, CodeMatches, decode_functype-Good, decode_code-Good,
}
use liric.Base.{All}
use liric.Wasm.Sections.{section, decode_functype, decode_import, decode_memory, decode_global}
use liric.Wasm.Sections.{decode_export, decode_code, decode_data_segment}
use liric.Wasm.Sections.{decode_type_section, decode_import_section, decode_function_section}
use liric.Wasm.Sections.{decode_memory_section, decode_global_section, decode_export_section}
use liric.Wasm.Sections.{decode_code_section, decode_data_section}

-- The count field of each array of the module is its length, and so are those of the parameters and
-- results of each function type and of the groups of locals of each body.
pub record CountsMatch (m : WasmModule) : Type 0 where
  pub types_match : m.num_types ≡ length m.types
  pub imports_match : m.num_imports ≡ length m.imports
  pub funcs_match : m.num_funcs ≡ length m.func_type_indices
  pub exports_match : m.num_exports ≡ length m.exports
  pub codes_match : m.num_codes ≡ length m.codes
  pub memories_match : m.num_memories ≡ length m.memories
  pub globals_match : m.num_globals ≡ length m.globals
  pub data_match : m.num_data ≡ length m.data_segments
  pub type_entries : All FuncTypeMatches m.types
  pub code_entries : All CodeMatches m.codes

-- What a reader of a section gives back when it has not failed.
abbrev pub Matches : Option (WasmModule × Cursor) → Type 0
Matches none = Unit {0}
Matches (some (m, c)) = c.failed ≡ false → CountsMatch m

module _ {A : Type 0} (P : A → Type 0) (item : Reader A) (good : (c : Cursor) → Good P (item c))
    (store : ℕ → List A → WasmModule) (m : WasmModule) where
  section-Matches :
      CountsMatch m
      → ((n : ℕ) (entries : List A)
          → n ≡ length entries
          → All P entries
          → CountsMatch (store n entries))
      → (c : Cursor) → Matches (section item store m c)
  section-Matches old fresh c = counted (cur_u32 c)
    where
      stored :
          (n : ℕ) (r : Option (List A × Cursor))
          → Filled P n r
          → Matches (elim r [ none ↦ none | some (entries, d) ↦ some (store n entries, d) ])
      stored n none h = tt
      stored n (some (entries, d)) h = λ e. let (size, all) = h e in fresh n entries size all

      go :
          (n : ℕ) (d : Cursor) (b : Bool)
          → Matches (elim b [
            | true ↦ some (m, d)
            | false ↦ ◌>>=◌ (each n item) (λ entries. return (store n entries)) d
          ])
      go n d true = λ _. old
      go n d false = stored n (each n item d) (each-Filled P item good n d)

      counted :
          (r : Option (ℕ × Cursor))
          → Matches (elim r [
            | none ↦ none
            | some (n, d) ↦
                unless_failed m (each n item >>= (λ entries. return (store n entries))) d
          ])
      counted none = tt
      counted (some (n, d)) = go n d d.failed

module _ (m : WasmModule) (c : Cursor) (h : CountsMatch m) where
  pub decode_type_section-Matches : Matches (decode_type_section m c)
  unfolding decode_type_section
  decode_type_section-Matches =
      section-Matches FuncTypeMatches decode_functype decode_functype-Good _ m h
        (λ n entries e all. record {
          types_match = e;
          imports_match = h.imports_match;
          funcs_match = h.funcs_match;
          exports_match = h.exports_match;
          codes_match = h.codes_match;
          memories_match = h.memories_match;
          globals_match = h.globals_match;
          data_match = h.data_match;
          type_entries = all;
          code_entries = h.code_entries;
        })
        c

  pub decode_import_section-Matches : Matches (decode_import_section m c)
  unfolding decode_import_section
  decode_import_section-Matches =
      section-Matches Anything decode_import (λ d. any_Good (decode_import d)) _ m h
        (λ n entries e all. record {
          types_match = h.types_match;
          imports_match = e;
          funcs_match = h.funcs_match;
          exports_match = h.exports_match;
          codes_match = h.codes_match;
          memories_match = h.memories_match;
          globals_match = h.globals_match;
          data_match = h.data_match;
          type_entries = h.type_entries;
          code_entries = h.code_entries;
        })
        c

  pub decode_function_section-Matches : Matches (decode_function_section m c)
  unfolding decode_function_section
  decode_function_section-Matches =
      section-Matches Anything cur_u32 (λ d. any_Good (cur_u32 d)) _ m h
        (λ n entries e all. record {
          types_match = h.types_match;
          imports_match = h.imports_match;
          funcs_match = e;
          exports_match = h.exports_match;
          codes_match = h.codes_match;
          memories_match = h.memories_match;
          globals_match = h.globals_match;
          data_match = h.data_match;
          type_entries = h.type_entries;
          code_entries = h.code_entries;
        })
        c

  pub decode_memory_section-Matches : Matches (decode_memory_section m c)
  unfolding decode_memory_section
  decode_memory_section-Matches =
      section-Matches Anything decode_memory (λ d. any_Good (decode_memory d)) _ m h
        (λ n entries e all. record {
          types_match = h.types_match;
          imports_match = h.imports_match;
          funcs_match = h.funcs_match;
          exports_match = h.exports_match;
          codes_match = h.codes_match;
          memories_match = e;
          globals_match = h.globals_match;
          data_match = h.data_match;
          type_entries = h.type_entries;
          code_entries = h.code_entries;
        })
        c

  pub decode_global_section-Matches : Matches (decode_global_section m c)
  unfolding decode_global_section
  decode_global_section-Matches =
      section-Matches Anything decode_global (λ d. any_Good (decode_global d)) _ m h
        (λ n entries e all. record {
          types_match = h.types_match;
          imports_match = h.imports_match;
          funcs_match = h.funcs_match;
          exports_match = h.exports_match;
          codes_match = h.codes_match;
          memories_match = h.memories_match;
          globals_match = e;
          data_match = h.data_match;
          type_entries = h.type_entries;
          code_entries = h.code_entries;
        })
        c

  pub decode_export_section-Matches : Matches (decode_export_section m c)
  unfolding decode_export_section
  decode_export_section-Matches =
      section-Matches Anything decode_export (λ d. any_Good (decode_export d)) _ m h
        (λ n entries e all. record {
          types_match = h.types_match;
          imports_match = h.imports_match;
          funcs_match = h.funcs_match;
          exports_match = e;
          codes_match = h.codes_match;
          memories_match = h.memories_match;
          globals_match = h.globals_match;
          data_match = h.data_match;
          type_entries = h.type_entries;
          code_entries = h.code_entries;
        })
        c

  pub decode_code_section-Matches : Matches (decode_code_section m c)
  unfolding decode_code_section
  decode_code_section-Matches =
      section-Matches CodeMatches decode_code decode_code-Good _ m h
        (λ n entries e all. record {
          types_match = h.types_match;
          imports_match = h.imports_match;
          funcs_match = h.funcs_match;
          exports_match = h.exports_match;
          codes_match = e;
          memories_match = h.memories_match;
          globals_match = h.globals_match;
          data_match = h.data_match;
          type_entries = h.type_entries;
          code_entries = all;
        })
        c

  pub decode_data_section-Matches : Matches (decode_data_section m c)
  unfolding decode_data_section
  decode_data_section-Matches =
      section-Matches Anything decode_data_segment (λ d. any_Good (decode_data_segment d)) _ m h
        (λ n entries e all. record {
          types_match = h.types_match;
          imports_match = h.imports_match;
          funcs_match = h.funcs_match;
          exports_match = h.exports_match;
          codes_match = h.codes_match;
          memories_match = h.memories_match;
          globals_match = h.globals_match;
          data_match = e;
          type_entries = h.type_entries;
          code_entries = h.code_entries;
        })
        c

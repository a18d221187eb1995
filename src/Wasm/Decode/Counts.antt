-- ===== src/Wasm/Decode/Counts.antt =====
-- The count fields through the loop of `lr_wasm_decode` of src/wasm_decode.c.
use liric.Base.{ℕ, zero, suc, ◌+◌, ◌≡◌, refl, List, Option, none, some, length}
use liric.Base.{Bool, true, false, ltb, if◌then◌else◌, ◌==◌, not, ◌||◌}
use liric.Wasm.Cursor.{Cursor, Reader, cur_u8, cur_u32, cur_u32_le}
use liric.Wasm.Module.{WasmModule, empty_module}
use liric.Wasm.Decode.{Outcome, decoded, rejected, Round, stop, next, start, decode_section}
use liric.Wasm.Decode.{after_section, with_length, with_id, decode_round, decode_sections, decode}
use liric.Wasm.Decode.{check_magic, check_version, fail_header, read_section, wasm_magic}
use liric.Wasm.Decode.{wasm_version}
use liric.Base.{u64}
use liric.Wasm.Cursor.{Message}
use liric.Wasm.Decode.Termination.{Bool-split}
use liric.Wasm.Sections.Counts.{
  CountsMatch, Matches, decode_type_section-Matches, decode_import_section-Matches,
  decode_function_section-Matches, decode_memory_section-Matches, decode_global_section-Matches,
  decode_export_section-Matches, decode_code_section-Matches, decode_data_section-Matches,
}

decode_section-Matches :
    (id : ℕ) (m : WasmModule) (c : Cursor) → CountsMatch m → Matches (decode_section id m c)
unfolding decode_section
decode_section-Matches id m c h = split 1 _ _ (decode_type_section-Matches m c h) (
    split 2 _ _ (decode_import_section-Matches m c h) (
      split 3 _ _ (decode_function_section-Matches m c h) (
        split 5 _ _ (decode_memory_section-Matches m c h) (
          split 6 _ _ (decode_global_section-Matches m c h) (
            split 7 _ _ (decode_export_section-Matches m c h) (
              split 10 _ _ (decode_code_section-Matches m c h)
                (split 11 _ _ (decode_data_section-Matches m c h) (λ _. h))))))))
  where
    split :
        (k : ℕ) (x y : Reader WasmModule)
        → Matches (x c)
        → Matches (y c)
        → Matches ((if id == k then x else y) c)
    split k x y p q = Bool-split (λ (r : Reader WasmModule). Matches (r c)) (id == k) x y p q

abbrev MatchesRound : Round → Type 0
MatchesRound (stop (decoded m)) = ⊥
MatchesRound (stop (rejected e)) = Unit {0}
MatchesRound (stop Outcome.fault) = Unit {0}
MatchesRound (stop Outcome.out_of_fuel) = Unit {0}
MatchesRound (next m c) = CountsMatch m

after-Matches :
    (c : Cursor) (r : Option (WasmModule × Cursor)) → Matches r → MatchesRound (after_section c r)
after-Matches c none h = tt
after-Matches c (some (m, d)) h = go d.failed refl
  where
    go :
        (b : Bool)
        → d.failed ≡ b
        → MatchesRound (if b then stop (rejected d.err) else next m (record c { err = d.err }))
    go true e = tt
    go false e = h e

decode_round-Matches :
    (m : WasmModule) (c : Cursor) → CountsMatch m → MatchesRound (decode_round m c)
unfolding decode_round
decode_round-Matches m c h = first (cur_u8 c)
  where
    second : (id : ℕ) (r : Option (ℕ × Cursor)) → MatchesRound (with_length id m r)
    second id none = tt
    second id (some (n, d)) =
        Bool-split MatchesRound d.failed (stop (rejected d.err)) (read_section id n m d) tt (
          after-Matches (record d { pos = u64 (d.pos + n) })
            (decode_section id m (record d { len = u64 (d.pos + n); failed = false }))
            (decode_section-Matches id m (record d { len = u64 (d.pos + n); failed = false }) h))

    first : (r : Option (ℕ × Cursor)) → MatchesRound (with_id m r)
    first none = tt
    first (some (id, d)) = second id (cur_u32 d)

-- A module that is returned.
abbrev MatchesOutcome : Outcome → Type 0
MatchesOutcome (decoded m) = CountsMatch m
MatchesOutcome (rejected e) = Unit {0}
MatchesOutcome Outcome.fault = Unit {0}
MatchesOutcome Outcome.out_of_fuel = Unit {0}

decode_sections-Matches :
    (fuel : ℕ) (m : WasmModule) (c : Cursor)
    → CountsMatch m
    → MatchesOutcome (decode_sections fuel m c)
unfolding decode_sections
decode_sections-Matches zero m c h = tt
decode_sections-Matches (suc fuel) m c h =
    go (λ m' d h'. decode_sections-Matches fuel m' d h') (ltb c.pos c.len)
  where
    after :
        ((m' : WasmModule) (d : Cursor)
          → CountsMatch m'
          → MatchesOutcome (decode_sections fuel m' d))
        → (r : Round) → MatchesRound r
        → MatchesOutcome (elim r [ stop o ↦ o | next m' d ↦ decode_sections fuel m' d ])
    after ih (stop (decoded m')) k = absurd k
    after ih (stop (rejected e)) k = tt
    after ih (stop Outcome.fault) k = tt
    after ih (stop Outcome.out_of_fuel) k = tt
    after ih (next m' d) k = ih m' d k

    go :
        ((m' : WasmModule) (d : Cursor)
          → CountsMatch m'
          → MatchesOutcome (decode_sections fuel m' d))
        → (b : Bool)
        → MatchesOutcome (elim b [
          | false ↦ decoded m
          | true ↦ elim (decode_round m c) [ stop o ↦ o | next m' d ↦ decode_sections fuel m' d ]
        ])
    go ih false = h
    go ih true = after ih (decode_round m c) (decode_round-Matches m c h)

check_version-Matches : (fuel : ℕ) (r : Option (ℕ × Cursor)) → MatchesOutcome (check_version fuel r)
check_version-Matches fuel none = tt
check_version-Matches fuel (some (v, c)) =
    Bool-split MatchesOutcome (c.failed || not (v == wasm_version))
      (fail_header Message.unsupported_version c) (decode_sections fuel empty_module c) tt
      (decode_sections-Matches fuel empty_module c (record {
        types_match = refl;
        imports_match = refl;
        funcs_match = refl;
        exports_match = refl;
        codes_match = refl;
        memories_match = refl;
        globals_match = refl;
        data_match = refl;
        type_entries = tt;
        code_entries = tt;
      }))

check_magic-Matches : (fuel : ℕ) (r : Option (ℕ × Cursor)) → MatchesOutcome (check_magic fuel r)
check_magic-Matches fuel none = tt
check_magic-Matches fuel (some (v, c)) =
    Bool-split MatchesOutcome (c.failed || not (v == wasm_magic))
      (fail_header Message.invalid_magic c) (check_version fuel (cur_u32_le c)) tt
      (check_version-Matches fuel (cur_u32_le c))

-- In every module that `lr_wasm_decode` returns the count fields of the types, imports, functions,
-- exports, codes, memories, globals and data segments are the lengths of the module's arrays, also
-- where a section stands several times. In each function type the counts of parameters and of
-- results are the lengths of its arrays, and in each code the count of its groups of locals.
pub decode-CountsMatch :
    (bytes : List ℕ) (m : WasmModule) → decode bytes ≡ decoded m → CountsMatch m
unfolding decode
decode-CountsMatch bytes m e =
    rw e at (check_magic-Matches (length bytes) (cur_u32_le (start bytes)))

-- ===== src/Wasm/Decode/Safety.antt =====
-- The reads of `lr_wasm_decode` of src/wasm_decode.c, by the sizes that the input states.
use liric.Base.{ℕ, zero, suc, ◌+◌, ◌-◌, ◌≤◌, ◌<◌, ◌≡◌, ◌≢◌, refl, arith, Bool-cases}
use liric.Base.{
  List, Option, none, some, Bool, true, false, inl, inr, length, get_elem?, ltb, leb, u64,
}
use liric.Base.{drop, sub64, if◌then◌else◌, not, ◌==◌, ◌||◌, leb→le, ==_iff}
use liric.Wasm.Leb.{Leb, fault, malformed, value, read_leb_u32}
use liric.Wasm.Leb.Unsigned.{StoresU32}
use liric.Wasm.Cursor.{Cursor, Reader, cur_u32, cur_u32_le, take_leb}
use liric.Wasm.Safety.{Placed, Kept, Any, Moved-refl}
use liric.Wasm.Module.{WasmModule, empty_module}
use liric.Wasm.Sections.Safety.{sections_safe, SectionsSafe}
use liric.Wasm.Sections.Bodies.{code_section-Kept}
use liric.Wasm.Sections.Body.{number-bounds}
use liric.Wasm.Decode.{Outcome, decoded, rejected, Round, stop, next, start, decode_section}
use liric.Wasm.Decode.{after_section, with_length, with_id, decode_round}
use liric.Wasm.Decode.{decode_sections, decode, check_version, wasm_magic, wasm_version}
use liric.Wasm.Decode.Framing.{body_fits, section_fits, sections_fit, code_section_fits}
use liric.Wasm.Decode.Termination.{IsInput, Spans, Placed-Spans, Spans-next, cur_u8_steps}
use liric.Wasm.Decode.Termination.{cur_u32_le_cases, Bool-split, start-Spans}

-- Whatever the id, the section's reader keeps inside a cursor whose bodies fit.
decode_section-Kept :
    (id : ℕ) (m : WasmModule) (c : Cursor)
    → Placed c
    → body_fits id c.bytes c.len c.pos ≡ true
    → Kept Any c (decode_section id m c)
unfolding decode_section
decode_section-Kept id m c p fits = elim (Bool-cases (id == 10)) [
  | inl e ↦ code e (ground arith)
  | inr e ↦ Bool-split keeps (id == 1) _ _ (others.type_section c p) (
      Bool-split keeps (id == 2) _ _ (others.import_section c p) (
        Bool-split keeps (id == 3) _ _ (others.function_section c p) (
          Bool-split keeps (id == 5) _ _ (others.memory_section c p) (
            Bool-split keeps (id == 6) _ _ (others.global_section c p) (
              Bool-split keeps (id == 7) _ _ (others.export_section c p) (
                rw e (
                  Bool-split keeps (id == 11) _ _ (others.data_section c p)
                    (tt, Moved-refl p))))))))
]
  where
    others : SectionsSafe m
    others = sections_safe m

    code :
        (id == 10) ≡ true
        → code_section_fits c.bytes c.len c.pos (read_leb_u32 (drop c.pos c.bytes) (c.len - c.pos))
          ≡ true
        → Kept Any c (decode_section id m c)
    code e fit = let q : id ≡ 10 = (==_iff id 10).0 e in rw q (code_section-Kept m c p fit)

    keeps : Reader WasmModule → Type 0
    keeps r = Kept Any c (r c)

-- A round that reads inside the input; one that goes on does so at the section's end.
abbrev Good : (ℕ → Bool) → Cursor → Round → Type 0
Good fits c (stop r) = r ≢ Outcome.fault
Good fits c (next m c') = (c'.bytes ≡ c.bytes) × (c'.len ≡ c.len) × (fits c'.pos ≡ true)

module _ (c : Cursor) (s : Spans c) (fits : ℕ → Bool) where
  section-Good :
      (d e : Cursor) (r : Option (WasmModule × Cursor))
      → Kept Any e r
      → (d.bytes ≡ c.bytes) × (d.len ≡ c.len) × (fits d.pos ≡ true)
      → Good fits c (after_section d r)
  section-Good d e none k h = absurd k
  section-Good d e (some (m, sc)) k h = go sc.failed
    where
      go :
          (b : Bool)
          → Good fits c (if b then stop (rejected sc.err) else next m (record d { err = sc.err }))
      go true = λ e. cc
      go false = h

  -- The size was read at `d`.
  size-Good :
      (id : ℕ) (m : WasmModule) (d : Cursor)
      → Placed d
      → d.bytes ≡ c.bytes
      → d.len ≡ c.len
      → (r : Leb) → StoresU32 (sub64 d.len d.pos) r
      → section_fits id c.bytes d.pos fits r ≡ true
      → Good fits c (with_length id m (take_leb r d))
  size-Good id m d p eb el fault k f = absurd k
  size-Good id m d p eb el malformed k f = λ e. cc
  size-Good id m d p eb el (value size k) (small, lo, hi, le) f =
      Bool-split (Good fits c) d.failed _ _ (λ e. cc)
        (section-Good (record d { pos = u64 (u64 (d.pos + k) + size) }) body _
          (decode_section-Kept id m body placed (rw (eb, at_end, at_pos) parts.1))
          (eb, el, rw at_end parts.2))
    where
      parts :
          (leb (d.pos + k + size) (length c.bytes) ≡ true)
          × (body_fits id c.bytes (d.pos + k + size) (d.pos + k) ≡ true)
          × (fits (d.pos + k + size) ≡ true)
      parts = ground arith

      in_input : d.pos + k + size ≤ length d.bytes
      in_input = rw eb (leb→le _ _ parts.0)

      at_pos : u64 (d.pos + k) ≡ d.pos + k
      at_pos = omega (arith, in_input, p.small)

      at_end : u64 (u64 (d.pos + k) + size) ≡ d.pos + k + size
      at_end = omega (arith, in_input, p.small)

      body : Cursor
      body = record d { pos = u64 (d.pos + k); len = u64 (u64 (d.pos + k) + size); failed = false }

      placed : Placed body
      placed = record {
        ahead = omega (arith, at_pos, at_end);
        inside = omega (arith, at_end, in_input);
        small = p.small;
        octets = p.octets;
      }

-- The round at `c`, with the sections behind it fitting `fits`.
round_fits : (ℕ → Bool) → Cursor → Bool
round_fits fits c = elim (get_elem? c.bytes c.pos) [
  | none ↦ true
  | some id ↦
      section_fits id c.bytes (c.pos + 1) fits
        (read_leb_u32 (drop (c.pos + 1) c.bytes) (length c.bytes - (c.pos + 1)))
]

decode_round-Good :
    (fits : ℕ → Bool) (m : WasmModule) (c : Cursor)
    → Spans c
    → c.pos < c.len
    → round_fits fits c ≡ true
    → Good fits c (decode_round m c)
unfolding decode_round cur_u32 round_fits
decode_round-Good fits m c s more f =
    let (b, q, e) = cur_u8_steps c (Placed-Spans s (omega arith)) more in
    let d : Cursor = record c { pos = c.pos + 1 } in
    let p : Placed d = Placed-Spans (record { whole = s.whole; input = s.input }) (omega arith) in
    let same : sub64 d.len d.pos ≡ length c.bytes - (c.pos + 1) =
      omega (arith, s.whole, s.input.size_fits) in
    let f' : section_fits b c.bytes (c.pos + 1) fits
          (read_leb_u32 (drop (c.pos + 1) c.bytes) (length c.bytes - (c.pos + 1)))
        ≡ true =
      rw (q, round_fits) at f in
    rw (e, with_id) (size-Good c s fits b m d p refl refl _ (number-bounds d p) (rw same f'))

decode_sections-ne-fault :
    (fuel : ℕ) (m : WasmModule) (c : Cursor)
    → Spans c
    → sections_fit fuel c.bytes c.pos ≡ true
    → decode_sections fuel m c ≢ Outcome.fault
unfolding decode_sections sections_fit round_fits
decode_sections-ne-fault zero m c s f = λ e. cc
decode_sections-ne-fault (suc fuel) m c s f =
    round (λ m' d s' f'. decode_sections-ne-fault fuel m' d s' f') (ltb c.pos c.len) refl
  where
    after :
        ((m' : WasmModule) (d : Cursor)
          → Spans d
          → sections_fit fuel d.bytes d.pos ≡ true
          → decode_sections fuel m' d ≢ Outcome.fault)
        → (r : Round) → Good (λ p. sections_fit fuel c.bytes p) c r
        → elim r [ stop o ↦ o | next m' c' ↦ decode_sections fuel m' c' ] ≢ Outcome.fault
    after ih (stop o) g = g
    after ih (next m' d) (eb, el, fit) = ih m' d (Spans-next s (eb, el)) (rw eb fit)

    round :
        ((m' : WasmModule) (d : Cursor)
          → Spans d
          → sections_fit fuel d.bytes d.pos ≡ true
          → decode_sections fuel m' d ≢ Outcome.fault)
        → (b : Bool) → ltb c.pos c.len ≡ b
        → elim b [
          | false ↦ decoded m
          | true ↦ elim (decode_round m c) [ stop o ↦ o | next m' c' ↦ decode_sections fuel m' c' ]
        ]
          ≢ Outcome.fault
    round ih false e = λ q. cc
    round ih true e =
        after ih (decode_round m c)
          (decode_round-Good (λ p. sections_fit fuel c.bytes p) m c s (ground arith) f)

check_version-ne-fault :
    (c : Cursor)
    → Spans c
    → c.pos ≤ c.len
    → sections_fit c.len c.bytes (c.pos + 4) ≡ true
    → check_version c.len (cur_u32_le c) ≢ Outcome.fault
check_version-ne-fault c s hi f = elim (cur_u32_le_cases c (Placed-Spans s hi)) [
  | inl e ↦ rw e (λ q. cc)
  | inr (version, fits, e) ↦ rw e (
      Bool-split (λ o. o ≢ Outcome.fault) (c.failed || not (version == wasm_version)) _ _ (λ q. cc)
        (decode_sections-ne-fault c.len empty_module (record c { pos = c.pos + 4 })
          (Spans-next s (refl, refl)) f))
]

-- On an input of less than 2 ^ 63 bytes in which the sizes that sections and function bodies state
-- fit (`sections_fit`), `lr_wasm_decode` reads no byte behind the input.
pub decode-ne-fault :
    (bytes : List ℕ)
    → IsInput bytes
    → sections_fit (length bytes) bytes 8 ≡ true
    → decode bytes ≢ Outcome.fault
unfolding decode
decode-ne-fault bytes h f =
    elim (cur_u32_le_cases (start bytes) (Placed-Spans (start-Spans bytes h) (omega arith))) [
      | inl e ↦ rw e (λ q. cc)
      | inr (magic, fits, e) ↦ rw e (
          Bool-split (λ o. o ≢ Outcome.fault) (not (magic == wasm_magic)) _ _ (λ q. cc)
            (check_version-ne-fault (record (start bytes) { pos = 4 })
              (Spans-next (start-Spans bytes h) (refl, refl)) fits f))
    ]

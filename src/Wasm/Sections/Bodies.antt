-- ===== src/Wasm/Sections/Bodies.antt =====
-- The reads of `decode_code_section` of src/wasm_decode.c, by the sizes of its bodies.
use liric.Base.{ℕ, zero, suc, ◌+◌, ◌-◌, ◌≡◌, arith, List, [], ◌∷◌}
use liric.Base.{Option, none, some, Bool, true, false, leb, drop, u64, sub64, leb→le}
use liric.Wasm.Leb.{Leb, fault, malformed, value, read_leb_u32}
use liric.Wasm.Leb.Unsigned.{StoresU32}
use liric.Wasm.Cursor.{Cursor, ◌>>=◌, return, unless_failed, each, cur_u32}
use liric.Wasm.Cursor.{take_leb}
use liric.Wasm.Safety.{Placed, Moved, Moved-refl, Moved-trans, Placed-Moved, Kept, Any}
use liric.Wasm.Module.{Code, WasmModule}
use liric.Wasm.Sections.{decode_code, decode_code_section}
use liric.Wasm.Decode.Framing.{frame_end, codes_fit, code_section_fits}
use liric.Wasm.Sections.Body.{
  Landed, room, Moved-failed, Moved-advance, number-bounds, decode_code-Landed,
}

-- Every entry whose end fits leaves the cursor there, so the next one fits too.
codes-Kept :
    (n : ℕ) (c : Cursor)
    → Placed c
    → codes_fit n c.bytes c.len c.pos ≡ true
    → Kept Any c (each n decode_code c)
unfolding each codes_fit
codes-Kept zero c p fits = (tt, Moved-refl p)
codes-Kept (suc n) c p fits = start c.failed (λ d q f. codes-Kept n d q f)
  where
    end : ℕ
    end = frame_end c.pos (read_leb_u32 (drop c.pos c.bytes) (c.len - c.pos))

    rest :
        (a : Code) (d : Cursor) (r : Option (List Code × Cursor))
        → Moved c d
        → Kept Any d r
        → Kept {A = List Code} Any c
            (elim r [ none ↦ none | some (others, d') ↦ some (a ∷ others, d') ])
    rest a d none m k = k
    rest a d (some (others, d')) m (_, k) = (tt, Moved-trans m k)

    item :
        ((d : Cursor)
          → Placed d
          → codes_fit n d.bytes d.len d.pos ≡ true
          → Kept Any d (each n decode_code d))
        → codes_fit n c.bytes c.len end ≡ true
        → (r : Option (Code × Cursor)) → Landed end c r
        → Kept {A = List Code} Any c (elim r [
          | none ↦ none
          | some (a, d) ↦ ◌>>=◌ (each n decode_code) (λ others. return (a ∷ others)) d
        ])
    item ih f none k = k
    item ih f (some (a, d)) (m, e) =
        rest a d _ m (ih d (Placed-Moved p m) (rw (m.same_bytes, m.same_len, e) f))

    start :
        (b : Bool)
        → ((d : Cursor)
            → Placed d
            → codes_fit n d.bytes d.len d.pos ≡ true
            → Kept Any d (each n decode_code d))
        → Kept {A = List Code} Any c (elim b [
          | true ↦ some ([], c)
          | false ↦
              ◌>>=◌ decode_code (λ a. each n decode_code >>= (λ others. return (a ∷ others))) c
        ])
    start true ih = (tt, Moved-refl p)
    start false ih =
        let fit : (leb end c.len ≡ true) × (codes_fit n c.bytes c.len end ≡ true) = ground arith in
        item ih fit.1 (decode_code c) (decode_code-Landed c p (leb→le end c.len fit.0))

code_section-Kept64 :
    (m : WasmModule) (c : Cursor)
    → Placed c
    → code_section_fits c.bytes c.len c.pos (read_leb_u32 (drop c.pos c.bytes) (sub64 c.len c.pos))
      ≡ true
    → Kept Any c (decode_code_section m c)
unfolding decode_code_section cur_u32
code_section-Kept64 m c p fits =
    go (read_leb_u32 (drop c.pos c.bytes) (sub64 c.len c.pos)) fits (number-bounds c p)
  where
    go :
        (r : Leb)
        → code_section_fits c.bytes c.len c.pos r ≡ true
        → StoresU32 (sub64 c.len c.pos) r
        → Kept {A = WasmModule} Any c (
            ◌>>=◌
              (take_leb r)
              (λ n. unless_failed m (
                each n decode_code
                >>= (λ codes. return (record m { codes = codes; num_codes = n }))))
              c)
    go fault f k = k
    go malformed f k = (tt, Moved-failed c p)
    go (value v n) f (small, lo, hi, k) =
        let d : Cursor = record c { pos = u64 (c.pos + n) } in
        let e : d.pos ≡ c.pos + n = omega (arith, p.ahead, p.inside, p.small) in
        let moved : Moved c d = Moved-advance c n p k in
        stored v d moved c.failed (codes-Kept v d (Placed-Moved p moved) (rw e f))
      where
        others :
            (v : ℕ) (d : Cursor)
            → Moved c d
            → (r : Option (List Code × Cursor)) → Kept Any d r
            → Kept {A = WasmModule} Any c (elim r [
              | none ↦ none
              | some (cs, d') ↦ some (record m { codes = cs; num_codes = v }, d')
            ])
        others v d moved none q = q
        others v d moved (some (cs, d')) (_, q) = (tt, Moved-trans moved q)

        stored :
            (v : ℕ) (d : Cursor)
            → Moved c d
            → (b : Bool) → Kept Any d (each v decode_code d)
            → Kept {A = WasmModule} Any c (elim b [
              | true ↦ some (m, d)
              | false ↦ elim (each v decode_code d) [
                | none ↦ none
                | some (cs, d') ↦ some (record m { codes = cs; num_codes = v }, d')
              ]
            ])
        stored v d moved true q = (tt, moved)
        stored v d moved false q = others v d moved (each v decode_code d) q

-- From a cursor that stands inside the input, and where the size of every function body fits the
-- section, `decode_code_section` reads no byte behind the input and leaves the cursor further on
-- within its bounds.
pub code_section-Kept :
    (m : WasmModule) (c : Cursor)
    → Placed c
    → code_section_fits c.bytes c.len c.pos (read_leb_u32 (drop c.pos c.bytes) (c.len - c.pos))
      ≡ true
    → Kept Any c (decode_code_section m c)
code_section-Kept m c p fits = code_section-Kept64 m c p (rw (room c p) fits)

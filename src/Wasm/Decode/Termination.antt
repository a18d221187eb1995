-- ===== src/Wasm/Decode/Termination.antt =====
-- The loop of `lr_wasm_decode` of src/wasm_decode.c: how a round moves the cursor.
use liric.Base.{ℕ, zero, suc, ◌+◌, ◌^◌, ◌≤◌, ◌<◌, ◌≡◌, ◌≢◌, refl, ◌∙◌, ap, arith, Bool-cases}
use liric.Base.{List, Option, none, some, Bool, true, false, inl, inr, All, length, get_elem?, ltb}
use liric.Base.{get_elem?_lt, u64, leb, if◌then◌else◌, ◌⊎◌, not, ◌||◌, ◌==◌}
use liric.Wasm.Cursor.{Cursor, cur_u8, cur_u32, cur_u32_le, le_word, advance, byte_at, ◌>>=◌}
use liric.Wasm.Safety.{Placed, Placed-Moved, Kept, IsU32, cur_u32-Safe}
use liric.Wasm.Module.{WasmModule, empty_module}
use liric.Wasm.Decode.{decoded, rejected, out_of_fuel, Round, stop, next, start}
use liric.Wasm.Decode.{after_section, read_section, with_length, with_id}
use liric.Wasm.Decode.{
  decode_round, decode_sections, decode, check_version, wasm_magic, wasm_version,
}

-- An input: an object of at most 2 ^ 63 bytes.
pub record IsInput (bytes : List ℕ) : Type 0 where
  pub size_fits : length bytes < 2 ^ 63
  pub octets : All (λ b. b < 256) bytes

-- The main cursor spans the whole input; its position may be behind it.
pub record Spans (c : Cursor) : Type 0 where
  pub whole : c.len ≡ length c.bytes
  pub input : IsInput c.bytes

pub Placed-Spans : {c : Cursor} → Spans c → c.pos ≤ c.len → Placed c
Placed-Spans s h = record {
  ahead = h;
  inside = omega (arith, s.whole);
  small = s.input.size_fits;
  octets = s.input.octets;
}

-- A byte is there, and is taken.
pub cur_u8_steps :
    (c : Cursor)
    → Placed c
    → c.pos < c.len
    → (b : ℕ) × (get_elem? c.bytes c.pos ≡ some b)
      × (cur_u8 c ≡ some (b, record c { pos = c.pos + 1 }))
unfolding cur_u8
cur_u8_steps c p h =
    let (b, q) = get_elem?_lt c.bytes c.pos (omega (arith, p.inside)) in
    let t : leb c.len c.pos ≡ false = ground arith in
    let e : u64 (c.pos + 1) ≡ c.pos + 1 = omega (arith, p.inside, p.small) in
    (b, q, rw (t, q, e) refl)

pub Bool-split {ℓ κ} :
    {A : Type ℓ} (P : A → Type κ) (b : Bool) (x y : A) → P x → P y → P (if b then x else y)
Bool-split P true x y p q = p
Bool-split P false x y p q = q

abbrev Progress : Cursor → Round → Type 0
Progress c (stop r) = r ≢ out_of_fuel
Progress c (next m c') = (c'.bytes ≡ c.bytes) × (c'.len ≡ c.len) × (c.pos < c'.pos)

module _ (c : Cursor) (placed : Placed c) where
  after_section-Progress :
      (d : Cursor) (r : Option (WasmModule × Cursor))
      → (d.bytes ≡ c.bytes) × (d.len ≡ c.len) × (c.pos < d.pos)
      → Progress c (after_section d r)
  after_section-Progress d none h = λ e. cc
  after_section-Progress d (some (m, sc)) h = go sc.failed
    where
      go :
          (b : Bool)
          → Progress c (if b then stop (rejected sc.err) else next m (record d { err = sc.err }))
      go true = λ e. cc
      go false = h

  with_length-Progress :
      (id : ℕ) (m : WasmModule) (d : Cursor) (r : Option (ℕ × Cursor))
      → Placed d
      → (d.bytes ≡ c.bytes) × (d.len ≡ c.len) × (c.pos < d.pos)
      → Kept IsU32 d r
      → Progress c (with_length id m r)
  with_length-Progress id m d none p h k = absurd k
  with_length-Progress id m d (some (n, d')) p h (fits, k) = go d'.failed
    where
      q : Placed d'
      q = Placed-Moved p k

      go : (b : Bool) → Progress c (if b then stop (rejected d'.err) else read_section id n m d')
      go true = λ e. cc
      go false =
          after_section-Progress (record d' { pos = u64 (d'.pos + n) }) _
            (
              k.same_bytes ∙ h.0,
              k.same_len ∙ h.1,
              omega (arith, q.ahead, q.inside, q.small, k.onwards, h.2, fits),
            )

  decode_round-Progress : (m : WasmModule) → c.pos < c.len → Progress c (decode_round m c)
  unfolding decode_round
  decode_round-Progress m h =
      let (b, q, e) = cur_u8_steps c placed h in
      let d : Cursor = record c { pos = c.pos + 1 } in
      let p : Placed d = record {
        ahead = omega arith;
        inside = placed.inside;
        small = placed.small;
        octets = placed.octets;
      } in
      rw (e, with_id)
        (with_length-Progress b m d (cur_u32 d) p (refl, refl, omega arith) (cur_u32-Safe d p))

pub Spans-next : {c d : Cursor} → Spans c → (d.bytes ≡ c.bytes) × (d.len ≡ c.len) → Spans d
Spans-next s (eb, el) = record { whole = rw (eb, el) s.whole; input = rw eb s.input }

decode_sections-ne-out_of_fuel :
    (fuel : ℕ) (m : WasmModule) (c : Cursor)
    → Spans c
    → c.len < c.pos + fuel
    → 0 < fuel
    → decode_sections fuel m c ≢ out_of_fuel
unfolding decode_sections
decode_sections-ne-out_of_fuel zero m c s h k = absurd (omega arith)
decode_sections-ne-out_of_fuel (suc fuel) m c s h _ =
    round (λ m' d s' k j. decode_sections-ne-out_of_fuel fuel m' d s' k j) (ltb c.pos c.len) refl
  where
    after :
        ((m' : WasmModule) (d : Cursor)
          → Spans d
          → d.len < d.pos + fuel
          → 0 < fuel
          → decode_sections fuel m' d ≢ out_of_fuel)
        → c.pos < c.len
        → (r : Round) → Progress c r
        → elim r [ stop o ↦ o | next m' c' ↦ decode_sections fuel m' c' ] ≢ out_of_fuel
    after ih more (stop o) p = p
    after ih more (next m' d) (eb, el, on) =
        ih m' d (Spans-next s (eb, el)) (omega arith) (omega arith)

    round :
        ((m' : WasmModule) (d : Cursor)
          → Spans d
          → d.len < d.pos + fuel
          → 0 < fuel
          → decode_sections fuel m' d ≢ out_of_fuel)
        → (b : Bool) → ltb c.pos c.len ≡ b
        → elim b [
          | false ↦ decoded m
          | true ↦ elim (decode_round m c) [ stop o ↦ o | next m' c' ↦ decode_sections fuel m' c' ]
        ]
          ≢ out_of_fuel
    round ih false e = λ q. cc
    round ih true e =
        let more : c.pos < c.len = ground arith in
        after ih more (decode_round m c)
          (decode_round-Progress c (Placed-Spans s (omega arith)) m more)

pub start-Spans : (bytes : List ℕ) → IsInput bytes → Spans (start bytes)
start-Spans bytes h = record { whole = refl; input = h }

cur_u32_le_reads :
    (c : Cursor) (b0 b1 b2 b3 : ℕ)
    → ltb c.len (u64 (c.pos + 4)) ≡ false
    → get_elem? c.bytes c.pos ≡ some b0
    → get_elem? c.bytes (c.pos + 1) ≡ some b1
    → get_elem? c.bytes (c.pos + 2) ≡ some b2
    → get_elem? c.bytes (c.pos + 3) ≡ some b3
    → cur_u32_le c ≡ advance (le_word b0 b1 b2 b3) 4 c
unfolding cur_u32_le
cur_u32_le_reads c b0 b1 b2 b3 e q0 q1 q2 q3 =
    rw (e, ◌>>=◌, byte_at, q0, ◌>>=◌, byte_at, q1, ◌>>=◌, byte_at, q2, ◌>>=◌, byte_at, q3) refl

-- Four bytes are there and are taken, or the reader fails where it stands.
pub cur_u32_le_cases :
    (c : Cursor)
    → Placed c
    → (cur_u32_le c ≡ some (0, record c { failed = true }))
      ⊎ ((v : ℕ) × (c.pos + 4 ≤ c.len) × (cur_u32_le c ≡ some (v, record c { pos = c.pos + 4 })))
unfolding cur_u32_le
cur_u32_le_cases c p = elim (Bool-cases (ltb c.len (u64 (c.pos + 4)))) [
  | inl e ↦ inl (rw e refl)
  | inr e ↦
      let fits : c.pos + 4 ≤ c.len = ground (arith, p.inside, p.small) in
      let wrap : u64 (c.pos + 4) ≡ c.pos + 4 = omega (arith, p.inside, p.small) in
      let (b0, q0) = get_elem?_lt c.bytes c.pos (omega (arith, p.inside)) in
      let (b1, q1) = get_elem?_lt c.bytes (c.pos + 1) (omega (arith, p.inside)) in
      let (b2, q2) = get_elem?_lt c.bytes (c.pos + 2) (omega (arith, p.inside)) in
      let (b3, q3) = get_elem?_lt c.bytes (c.pos + 3) (omega (arith, p.inside)) in
      inr (
        le_word b0 b1 b2 b3,
        fits,
        cur_u32_le_reads c b0 b1 b2 b3 e q0 q1 q2 q3
            ∙ ap (λ (t : ℕ). some (le_word b0 b1 b2 b3, record c { pos = t })) wrap,
      )
]

check_version-ne-out_of_fuel :
    (c : Cursor)
    → Spans c
    → 0 < c.pos
    → c.pos ≤ c.len
    → check_version c.len (cur_u32_le c) ≢ out_of_fuel
check_version-ne-out_of_fuel c s lo hi = elim (cur_u32_le_cases c (Placed-Spans s hi)) [
  | inl e ↦ rw e (λ q. cc)
  | inr (version, fits, e) ↦ rw e (
      Bool-split (λ o. o ≢ out_of_fuel) (c.failed || not (version == wasm_version)) _ _ (λ q. cc)
        (decode_sections-ne-out_of_fuel c.len empty_module (record c { pos = c.pos + 4 })
          (Spans-next s (refl, refl)) (omega arith) (omega arith)))
]

-- On every input of less than 2 ^ 63 bytes the loop of `lr_wasm_decode` over the sections ends:
-- fuel of the input's length is enough.
pub decode-ne-out_of_fuel : (bytes : List ℕ) → IsInput bytes → decode bytes ≢ out_of_fuel
unfolding decode
decode-ne-out_of_fuel bytes h =
    elim (cur_u32_le_cases (start bytes) (Placed-Spans (start-Spans bytes h) (omega arith))) [
      | inl e ↦ rw e (λ q. cc)
      | inr (magic, fits, e) ↦ rw e (
          Bool-split (λ o. o ≢ out_of_fuel) (not (magic == wasm_magic)) _ _ (λ q. cc)
            (check_version-ne-out_of_fuel (record (start bytes) { pos = 4 })
              (Spans-next (start-Spans bytes h) (refl, refl)) (omega arith) fits))
    ]

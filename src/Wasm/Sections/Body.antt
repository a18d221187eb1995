-- ===== src/Wasm/Sections/Body.antt =====
-- One function body of src/wasm_decode.c: where its decoding leaves the cursor.
use liric.Base.{ℕ, ◌+◌, ◌-◌, ◌≤◌, ◌<◌, ◌≡◌, refl, ◌∙◌, arith, List}
use liric.Base.{Option, none, some, true, drop, u64, sub64}
use liric.Wasm.Leb.{Leb, fault, malformed, value, read_leb_u32}
use liric.Wasm.Leb.Unsigned.{StoresU32, read_leb_u32_bounds}
use liric.Wasm.Cursor.{Cursor, ◌>>=◌, each, cur_u32, cur_u8}
use liric.Wasm.Cursor.{take_leb}
use liric.Wasm.Safety.{
  Placed, Moved, Moved-refl, Moved-trans, Placed-Moved, Kept, Safe, Any, Safe->>=,
}
use liric.Wasm.Safety.{cur_u32-Safe, cur_u8-Safe, each-Safe, IsU32, All-drop, rest_length}
use liric.Wasm.Module.{LocalGroup}
use liric.Wasm.Sections.{decode_local_group, decode_code, tell, code_rest, code_end}
use liric.Wasm.Decode.Framing.{frame_end}

pub decode_local_group-Safe : Safe Any decode_local_group
unfolding decode_local_group
decode_local_group-Safe =
    Safe->>= IsU32 Any cur_u32 _ cur_u32-Safe
      (λ count _. Safe->>= Any Any cur_u8 _ cur_u8-Safe (λ type _ c p. (tt, Moved-refl p)))

-- The reader ends at `p`, further on within the cursor's bounds.
abbrev pub Landed : {A : Type 0} → ℕ → Cursor → Option (A × Cursor) → Type 0
Landed p c none = ⊥
Landed p c (some (a, d)) = Moved c d × (d.pos ≡ p)

pub locals_Safe : (n : ℕ) → Safe Any (each n decode_local_group)
locals_Safe n = each-Safe Any n decode_local_group decode_local_group-Safe

pub land :
    (size start n : ℕ) (groups : List LocalGroup) (c d : Cursor)
    → Placed d
    → Moved c d
    → start ≡ c.pos
    → c.pos + size ≤ c.len
    → Landed (c.pos + size) c (code_end size start n groups d)
land size start n groups c d p m e fits = (
  record {
    same_bytes = m.same_bytes;
    same_len = m.same_len;
    onwards = omega (arith, p.inside, p.small, m.same_len);
    within = omega (arith, p.inside, p.small, m.same_len);
  },
  omega (arith, p.inside, p.small, m.same_len),
)

-- From a cursor behind the size on, with the size fitting, the entry ends where it says.
pub code_rest-Landed :
    (size start : ℕ) (c : Cursor)
    → Placed c
    → start ≡ c.pos
    → c.pos + size ≤ c.len
    → Landed (c.pos + size) c (code_rest size start c)
code_rest-Landed size start c p e fits = count (cur_u32 c) (cur_u32-Safe c p)
  where
    locals :
        (n : ℕ) (d : Cursor)
        → Placed d
        → Moved c d
        → (r : Option (List LocalGroup × Cursor)) → Kept Any d r
        → Landed
            (c.pos + size)
            c
            (elim r [ none ↦ none | some (gs, d') ↦ code_end size start n gs d' ])
    locals n d q m none k = k
    locals n d q m (some (gs, d')) (_, k) =
        land size start n gs c d' (Placed-Moved q k) (Moved-trans m k) e fits

    count :
        (r : Option (ℕ × Cursor))
        → Kept IsU32 c r
        → Landed (c.pos + size) c (elim r [
          | none ↦ none
          | some (n, d) ↦ ◌>>=◌ (each n decode_local_group) (λ gs. code_end size start n gs) d
        ])
    count none k = k
    count (some (n, d)) (_, k) =
        locals n d (Placed-Moved p k) k (each n decode_local_group d)
          (locals_Safe n d (Placed-Moved p k))

pub Landed-Moved :
    {A : Type 0} (p q : ℕ) (c d : Cursor) (r : Option (A × Cursor))
    → Moved c d
    → p ≡ q
    → Landed p d r
    → Landed q c r
Landed-Moved p q c d none m e k = k
Landed-Moved p q c d (some (a, d')) m e (k, land) = (Moved-trans m k, land ∙ e)

pub room : (c : Cursor) → Placed c → sub64 c.len c.pos ≡ c.len - c.pos
room c p = omega (arith, p.ahead, p.inside, p.small)

pub Placed-failed : (c : Cursor) → Placed c → Placed (record c { failed = true })
Placed-failed c p = record {
  ahead = p.ahead;
  inside = p.inside;
  small = p.small;
  octets = p.octets;
}

pub Moved-failed : (c : Cursor) → Placed c → Moved c (record c { failed = true })
Moved-failed c p = record {
  same_bytes = refl;
  same_len = refl;
  onwards = omega arith;
  within = p.ahead;
}

pub Moved-advance :
    (c : Cursor) (n : ℕ)
    → Placed c
    → n ≤ sub64 c.len c.pos
    → Moved c (record c { pos = u64 (c.pos + n) })
Moved-advance c n p k = record {
  same_bytes = refl;
  same_len = refl;
  onwards = omega (arith, p.ahead, p.inside, p.small);
  within = omega (arith, p.ahead, p.inside, p.small);
}

pub number-bounds :
    (c : Cursor)
    → Placed c
    → StoresU32 (sub64 c.len c.pos) (read_leb_u32 (drop c.pos c.bytes) (sub64 c.len c.pos))
number-bounds c p =
    read_leb_u32_bounds (drop c.pos c.bytes) (sub64 c.len c.pos)
      (All-drop (λ b. b < 256) c.pos c.bytes p.octets) (rest_length c p)

pub decode_code-Landed64 :
    (c : Cursor)
    → Placed c
    → frame_end c.pos (read_leb_u32 (drop c.pos c.bytes) (sub64 c.len c.pos)) ≤ c.len
    → Landed
        (frame_end c.pos (read_leb_u32 (drop c.pos c.bytes) (sub64 c.len c.pos)))
        c
        (decode_code c)
unfolding decode_code cur_u32
decode_code-Landed64 c p fits =
    go (read_leb_u32 (drop c.pos c.bytes) (sub64 c.len c.pos)) fits (number-bounds c p)
  where
    go :
        (r : Leb)
        → frame_end c.pos r ≤ c.len
        → StoresU32 (sub64 c.len c.pos) r
        → Landed
            (frame_end c.pos r)
            c
            (◌>>=◌ (take_leb r) (λ size. tell >>= (λ begin. code_rest size begin)) c)
    go fault f k = k
    go malformed f k =
        Landed-Moved (c.pos + 0) c.pos c (record c { failed = true }) _ (Moved-failed c p)
          (omega arith)
          (code_rest-Landed 0 c.pos (record c { failed = true }) (Placed-failed c p) refl
            (omega (arith, p.ahead)))
    go (value v n) f (small, lo, hi, k) =
        let d : Cursor = record c { pos = u64 (c.pos + n) } in
        let e : d.pos ≡ c.pos + n = omega (arith, p.ahead, p.inside, p.small) in
        Landed-Moved (d.pos + v) (c.pos + n + v) c d _ (Moved-advance c n p k) (omega arith)
          (code_rest-Landed v d.pos d (Placed-Moved p (Moved-advance c n p k)) refl (omega arith))

pub decode_code-Landed :
    (c : Cursor)
    → Placed c
    → frame_end c.pos (read_leb_u32 (drop c.pos c.bytes) (c.len - c.pos)) ≤ c.len
    → Landed (frame_end c.pos (read_leb_u32 (drop c.pos c.bytes) (c.len - c.pos))) c (decode_code c)
decode_code-Landed c p fits = rw (room c p) at (decode_code-Landed64 c p (rw (room c p) fits))

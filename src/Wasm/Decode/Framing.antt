-- ===== src/Wasm/Decode/Framing.antt =====
-- When the sizes that a module states about its own parts fit: a scan of the frames that does not
-- decode what is in them.
use liric.Base.{ℕ, zero, suc, ◌+◌, ◌-◌, List, none, some, Bool, true, ◌&&◌, ◌||◌, not}
use liric.Base.{leb, ◌==◌, drop, length, get_elem?}
use liric.Wasm.Leb.{Leb, fault, malformed, value, read_leb_u32}

-- Where a part ends whose size is the number read at `pos`; no number counts as no part.
abbrev pub frame_end : ℕ → Leb → ℕ
frame_end pos fault = pos
frame_end pos malformed = pos
frame_end pos (value size k) = pos + k + size

-- Each of `n` function bodies from `pos` on ends before `len`.
unfoldable pub codes_fit : ℕ → List ℕ → ℕ → ℕ → Bool
codes_fit zero bytes len pos = true
codes_fit (suc n) bytes len pos =
    let end = frame_end pos (read_leb_u32 (drop pos bytes) (len - pos)) in
    leb end len && codes_fit n bytes len end

abbrev pub code_section_fits : List ℕ → ℕ → ℕ → Leb → Bool
code_section_fits bytes len pos fault = true
code_section_fits bytes len pos malformed = true
code_section_fits bytes len pos (value n k) = codes_fit n bytes len (pos + k)

-- The section body from `pos` to `end`: function bodies are the only frames inside a section.
abbrev pub body_fits : ℕ → List ℕ → ℕ → ℕ → Bool
body_fits id bytes end pos =
    not (id == 10) || code_section_fits bytes end pos (read_leb_u32 (drop pos bytes) (end - pos))

-- A section whose size is the number read at `pos`: it ends inside the input, and so do its
-- bodies; `next` says the same of the sections behind it.
abbrev pub section_fits : ℕ → List ℕ → ℕ → (ℕ → Bool) → Leb → Bool
section_fits id bytes pos next fault = true
section_fits id bytes pos next malformed = true
section_fits id bytes pos next (value size k) =
    leb (pos + k + size) (length bytes)
    && (body_fits id bytes (pos + k + size) (pos + k) && next (pos + k + size))

-- Each of at most `fuel` sections from `pos` on.
unfoldable pub sections_fit : ℕ → List ℕ → ℕ → Bool
sections_fit zero bytes pos = true
sections_fit (suc fuel) bytes pos = elim (get_elem? bytes pos) [
  | none ↦ true
  | some id ↦
      section_fits id bytes (pos + 1) (λ p. sections_fit fuel bytes p)
        (read_leb_u32 (drop (pos + 1) bytes) (length bytes - (pos + 1)))
]

-- ===== src/Ll/Location.antt =====
-- `lr_lexer_compute_loc` of src/ll_lexer.c: the line and the column of an offset, both from 1.
use liric.Base.{ℕ, suc, ◌+◌, min, ◌-◌, ◌%◌, ◌^◌, ◌≤◌, ◌<◌, ◌≡◌, refl, ap, ◌∙◌, arith}
use liric.Base.{inl, inr, Bool-cases, List, [], ◌∷◌, length, take, length-take}
use liric.Base.{true, false, leb, ◌==◌, if◌then◌else◌, u32}
use liric.Ll.Token.{Lexer}

-- The loop over `src[at..end)`.
unfoldable pub loc_loop : ℕ → List ℕ → ℕ → ℕ → ℕ × ℕ
loc_loop at [] line line_start = (line, line_start)
loc_loop at (c ∷ rest) line line_start =
    let next_line = loc_loop (at + 1) rest (u32 (line + 1)) (at + 1) in
    let same_line = loc_loop (at + 1) rest line line_start in
    if c == 10 then next_line else same_line

unfoldable pub compute_loc : Lexer → ℕ → ℕ × ℕ
compute_loc lex pos =
    let end = if leb pos (length lex.src) then pos else length lex.src in
    let (line, line_start) = loc_loop 0 (take end lex.src) 1 0 in
    (line, u32 (u32 (end - line_start) + 1))

abbrev pub newlines : List ℕ → ℕ
newlines [] = 0
newlines (c ∷ s) = let more = newlines s in if c == 10 then suc more else more

-- What stands behind the last newline.
abbrev pub last_line : List ℕ → List ℕ
last_line [] = []
last_line (c ∷ s) = let later = last_line s in if newlines (c ∷ s) == 0 then c ∷ s else later

last_line_le : (s : List ℕ) → length (last_line s) ≤ length s
last_line_le [] = omega arith
last_line_le (c ∷ s) = ground (arith, last_line_le s)

last_line_whole : (s : List ℕ) → newlines s ≡ 0 → last_line s ≡ s
last_line_whole [] h = refl
last_line_whole (c ∷ s) h = rw h refl

-- Where the last line of `s` starts, if `s` stands at `at` and the line before it starts at `from`.
abbrev start_of_last : ℕ → List ℕ → ℕ → ℕ
start_of_last at s from = if newlines s == 0 then from else at + length s - length (last_line s)

module _ (at c : ℕ) (s : List ℕ) (from : ℕ) where
  start_newline :
      (c == 10) ≡ true → start_of_last (at + 1) s (at + 1) ≡ start_of_last at (c ∷ s) from
  start_newline h = ground (arith, h, last_line_whole s, last_line_le s)

  start_other : (c == 10) ≡ false → start_of_last (at + 1) s from ≡ start_of_last at (c ∷ s) from
  start_other h = ground (arith, h, last_line_le s)

  lines_newline :
      (line : ℕ)
      → (c == 10) ≡ true
      → (u32 (line + 1) + newlines s) % 2 ^ 32 ≡ (line + newlines (c ∷ s)) % 2 ^ 32
  lines_newline line h = ground (arith, h)

  lines_other :
      (line : ℕ)
      → (c == 10) ≡ false
      → (line + newlines s) % 2 ^ 32 ≡ (line + newlines (c ∷ s)) % 2 ^ 32
  lines_other line h = rw h refl

pair_eq : {a b c d : ℕ} → a ≡ b → c ≡ d → ◌≡◌ {A = ℕ × ℕ} (a, c) (b, d)
pair_eq e g = rw (e, g) refl

next_line : (c : ℕ) (x y : ℕ × ℕ) → (c == 10) ≡ true → (if c == 10 then x else y) ≡ x
next_line c x y h = rw h refl

same_line : (c : ℕ) (x y : ℕ × ℕ) → (c == 10) ≡ false → (if c == 10 then x else y) ≡ y
same_line c x y h = rw h refl

loc_loop_lem :
    (at : ℕ) (s : List ℕ) (line from : ℕ)
    → line < 2 ^ 32
    → loc_loop at s line from ≡ ((line + newlines s) % 2 ^ 32, start_of_last at s from)
unfolding loc_loop
loc_loop_lem at [] line from small =
    let e : line ≡ (line + 0) % 2 ^ 32 = omega arith in ap (λ n. (n, from)) e
loc_loop_lem at (c ∷ s) line from small = elim (Bool-cases (c == 10)) [
  | inl h ↦
      next_line c _ _ h
      ∙ loc_loop_lem (at + 1) s (u32 (line + 1)) (at + 1) (omega arith)
      ∙ pair_eq (lines_newline at c s from line h) (start_newline at c s from h)
  | inr h ↦
      same_line c _ _ h
      ∙ loc_loop_lem (at + 1) s line from small
      ∙ pair_eq (lines_other at c s from line h) (start_other at c s from h)
]

-- For each offset, cut to the end of the source, `lr_lexer_compute_loc` gives the count of the
-- newlines before it plus 1 as the line, and the count of the bytes between the last of them and the
-- offset plus 1 as the column, both modulo 2 ^ 32.
pub compute_loc-last_line :
    (lex : Lexer) (pos : ℕ)
    → (let before = take (min pos (length lex.src)) lex.src in
        compute_loc lex pos
        ≡ ((1 + newlines before) % 2 ^ 32, (length (last_line before) + 1) % 2 ^ 32))
unfolding compute_loc
compute_loc-last_line lex pos =
    let end = min pos (length lex.src) in
    let before = take end lex.src in
    let cut : (if leb pos (length lex.src) then pos else length lex.src) ≡ end = ground arith in
    let size = length-take end lex.src in
    let le = last_line_le before in
    let e = loc_loop_lem 0 before 1 0 (omega arith) in
    let col : u32 (u32 (end - start_of_last 0 before 0) + 1)
        ≡ (length (last_line before) + 1) % 2 ^ 32 =
      ground (arith, last_line_whole before) in
    rw (cut, e) (ap (λ n. ((1 + newlines before) % 2 ^ 32, n)) col)

-- ===== src/Ll/Next/Covered.antt =====
-- Each token of `lr_lexer_next` covers the bytes that were read for it.
use liric.Base.{ℕ, suc, ◌+◌, ◌-◌, ◌≤◌, ◌<◌, ◌≡◌, refl, arith, inl, inr, Bool-cases, List, [], ◌∷◌}
use liric.Base.{length, drop, length-drop}
use liric.Base.{Bool, true, false, not, ◌&&◌, ◌==◌, if◌then◌else◌}
use liric.Ll.Token.{Tok}
use liric.Ll.Lexer.{run_length, skip_length, is_eof, lookup_keyword, is_ident_char, is_digit_ascii}
use liric.Ll.Lexer.{is_hex_digit}
use liric.Ll.Next.{Step, make_token, token_to, lex_single, lex_dot, lex_run, lex_name, lex_string}
use liric.Ll.Next.{lex_ident, lex_c, lex_hex, lex_float, lex_decimal, lex_number, lex_token}
use liric.Ll.Next.{is_x, punctuation}
use liric.Ll.Next.{quoted_length, fraction_length, exponent_length, signed_length, starts_with}

pub run_length_le : (p : ℕ → Bool) (s : List ℕ) → run_length p s ≤ length s
run_length_le p [] = omega arith
run_length_le p (c ∷ s) = ground (arith, run_length_le p s)

pub skip_length_le : (comment : Bool) (s : List ℕ) → skip_length comment s ≤ length s
skip_length_le true [] = omega arith
skip_length_le false [] = omega arith
skip_length_le true (c ∷ s) = ground (arith, skip_length_le true s, skip_length_le false s)
skip_length_le false (c ∷ s) = ground (arith, skip_length_le true s, skip_length_le false s)

quoted_length_le : (s : List ℕ) → quoted_length s ≤ length s
quoted_length_le [] = omega arith
quoted_length_le (c ∷ []) = omega arith
quoted_length_le (c ∷ d ∷ s) = ground (arith, quoted_length_le s, quoted_length_le (d ∷ s))

fraction_length_le : (s : List ℕ) → fraction_length s ≤ length s
fraction_length_le [] = omega arith
fraction_length_le (c ∷ s) = ground (arith, run_length_le is_digit_ascii s)

signed_length_le : (s : List ℕ) → signed_length s ≤ length s
signed_length_le [] = omega arith
signed_length_le (c ∷ s) =
    ground (arith, run_length_le is_digit_ascii s, run_length_le is_digit_ascii (c ∷ s))

exponent_length_le : (s : List ℕ) → exponent_length s ≤ length s
exponent_length_le [] = omega arith
exponent_length_le (c ∷ s) = ground (arith, signed_length_le s)

-- The token starts at `start`, is not empty, ends at the new position, and that lies at most `n`
-- bytes behind the first.
unfoldable pub Covers : ℕ → ℕ → Step → Type 0
Covers start n (tok, pos) =
    (is_eof tok.kind ≡ false)
    × (tok.start ≡ start)
    × (start + tok.len ≡ pos)
    × (start < pos)
    × (pos ≤ start + 1 + n)

token_to-Covers :
    (kind : Tok) (start n pos : ℕ)
    → is_eof kind ≡ false
    → start < pos
    → pos ≤ start + 1 + n
    → Covers start n (token_to kind start pos)
unfolding make_token Covers
token_to-Covers kind start n pos named past inside = (named, refl, omega arith, past, inside)

lex_single-Covers :
    (kind : Tok) (start n : ℕ) → is_eof kind ≡ false → Covers start n (lex_single kind start)
unfolding lex_single make_token Covers
lex_single-Covers kind start n named = (named, refl, refl, omega arith, omega arith)

if-Covers :
    (b : Bool) (start n : ℕ) (x y : Step)
    → Covers start n x
    → Covers start n y
    → Covers start n (if b then x else y)
if-Covers true start n x y p q = p
if-Covers false start n x y p q = q

run-Covers :
    (kind : Tok) (p : ℕ → Bool) (start : ℕ) (rest : List ℕ)
    → is_eof kind ≡ false
    → Covers start (length rest) (token_to kind start (start + 1 + run_length p rest))
run-Covers kind p start rest named =
    let le = run_length_le p rest in
    token_to-Covers kind start (length rest) _ named (omega arith) (omega arith)

ident_or_error :
    (start : ℕ) (rest : List ℕ)
    → Covers start (length rest) (
        if starts_with is_ident_char rest
        then token_to Tok.local_id start (start + 1 + run_length is_ident_char rest)
        else lex_single Tok.error start)
ident_or_error start rest =
    if-Covers (starts_with is_ident_char rest) start (length rest) _ _
      (run-Covers Tok.local_id is_ident_char start rest refl)
      (lex_single-Covers Tok.error start (length rest) refl)

dots-Covers : (start n : ℕ) → 2 ≤ n → Covers start n (make_token Tok.dotdotdot start 3, start + 3)
unfolding make_token Covers
dots-Covers start n fits = (refl, refl, refl, omega arith, omega arith)

lex_dot-Covers : (start : ℕ) (rest : List ℕ) → Covers start (length rest) (lex_dot start rest)
unfolding lex_dot
lex_dot-Covers start [] = ident_or_error start []
lex_dot-Covers start (a ∷ []) = ident_or_error start (a ∷ [])
lex_dot-Covers start (a ∷ b ∷ rest) =
    if-Covers _ start _ _ _ (dots-Covers start _ (omega arith))
      (ident_or_error start (a ∷ b ∷ rest))

lex_name-Covers :
    (kind : Tok) (start : ℕ) (rest : List ℕ)
    → is_eof kind ≡ false
    → Covers start (length rest) (lex_name kind start rest)
unfolding lex_name
lex_name-Covers kind start [] named =
    token_to-Covers kind start 0 (start + 1) named (omega arith) (omega arith)
lex_name-Covers kind start (q ∷ rest) named =
    let le = quoted_length_le rest in
    let pos = start + 2 + quoted_length rest in
    if-Covers (q == b'"') start _ _ _
      (token_to-Covers kind start (length (q ∷ rest)) pos named (omega arith) (omega arith))
      (run-Covers kind is_ident_char start (q ∷ rest) named)

keyword_or_id : (t : Tok) → is_eof (if is_eof t then Tok.local_id else t) ≡ false
keyword_or_id t = elim (Bool-cases (is_eof t)) [ inl h ↦ rw h refl | inr h ↦ rw h h ]

lex_ident-Covers :
    (c start : ℕ) (rest : List ℕ) → Covers start (length rest) (lex_ident c start rest)
unfolding lex_ident
lex_ident-Covers c start rest =
    if-Covers _ start _ _ _
      (run-Covers _ is_ident_char start rest (keyword_or_id (lookup_keyword _)))
      (lex_single-Covers Tok.error start (length rest) refl)

lex_c-Covers : (start : ℕ) (rest : List ℕ) → Covers start (length rest) (lex_c start rest)
unfolding lex_c
lex_c-Covers start [] = lex_ident-Covers b'c' start []
lex_c-Covers start (q ∷ rest) =
    let le = quoted_length_le rest in
    let pos = start + 2 + quoted_length rest in
    if-Covers (q == b'"') start _ _ _
      (token_to-Covers Tok.string_lit start (length (q ∷ rest)) pos refl (omega arith)
        (omega arith))
      (lex_ident-Covers b'c' start (q ∷ rest))

lex_string-Covers : (start : ℕ) (rest : List ℕ) → Covers start (length rest) (lex_string start rest)
unfolding lex_string
lex_string-Covers start rest =
    let le = quoted_length_le rest in
    token_to-Covers Tok.string_lit start _ _ refl (omega arith) (omega arith)

lex_hex-Covers :
    (start : ℕ) (x : ℕ) (rest : List ℕ) → Covers start (length (x ∷ rest)) (lex_hex start rest)
unfolding lex_hex make_token Covers
lex_hex-Covers start x rest =
    let le = run_length_le is_hex_digit rest in (refl, refl, omega arith, omega arith, omega arith)

-- The value of a literal is no matter.
float_to-Covers :
    (short : Bool) (value start n pos : ℕ)
    → start < pos
    → pos ≤ start + 1 + n
    → (let tok = make_token Tok.float_lit start (pos - start) in
        Covers start n (if short then record tok { float_val = value } else tok, pos))
unfolding make_token Covers
float_to-Covers true value start n pos past inside = (refl, refl, omega arith, past, inside)
float_to-Covers false value start n pos past inside = (refl, refl, omega arith, past, inside)

int-Covers :
    (start n whole value : ℕ)
    → 1 ≤ whole
    → whole ≤ n + 1
    → Covers start n
        (record (make_token Tok.int_lit start whole) { int_val = value }, start + whole)
unfolding make_token Covers
int-Covers start n whole value some_digit inside = (refl, refl, refl, omega arith, omega arith)

and_false-Covers :
    (b : Bool) (start n : ℕ) (x y : Step)
    → Covers start n y
    → Covers start n (if b && false then x else y)
and_false-Covers true start n x y p = p
and_false-Covers false start n x y p = p

module _ (strtod : List ℕ → ℕ) where
  lex_float-Covers :
      (start n : ℕ) (text : List ℕ) (whole : ℕ)
      → 1 ≤ whole
      → whole ≤ length text
      → length text ≡ n + 1
      → Covers start n (lex_float strtod start whole text)
  unfolding lex_float
  lex_float-Covers start n text whole some_digit fits size =
      let fraction = fraction_length_le (drop whole text) in
      let exponent = exponent_length_le (drop (whole + fraction_length (drop whole text)) text) in
      let e = length-drop whole text in
      let g = length-drop (whole + fraction_length (drop whole text)) text in
      float_to-Covers _ _ start n _ (omega arith) (omega arith)

  lex_decimal-Covers :
      (c start : ℕ) (rest : List ℕ) → Covers start (length rest) (lex_decimal strtod c start rest)
  unfolding lex_decimal
  lex_decimal-Covers c start rest =
      let le = run_length_le is_digit_ascii rest in
      let whole = suc (run_length is_digit_ascii rest) in
      if-Covers _ start _ _ _
        (lex_float-Covers start (length rest) (c ∷ rest) whole (omega arith) (omega arith)
          (omega arith))
        (int-Covers start (length rest) whole _ (omega arith) (omega arith))

  lex_number-Covers :
      (c start : ℕ) (rest : List ℕ) → Covers start (length rest) (lex_number strtod c start rest)
  unfolding lex_number
  lex_number-Covers c start rest =
      if-Covers _ start _ _ _ (lex_single-Covers Tok.error start (length rest) refl)
        (hex_or_decimal rest)
    where
      hex_or_decimal :
          (rest : List ℕ)
          → Covers start (length rest) (
              if c == b'0' && starts_with is_x rest
              then lex_hex start (drop 1 rest)
              else lex_decimal strtod c start rest)
      hex_or_decimal [] = and_false-Covers _ start _ _ _ (lex_decimal-Covers c start [])
      hex_or_decimal (x ∷ rest) =
          if-Covers _ start _ _ _ (lex_hex-Covers start x rest)
            (lex_decimal-Covers c start (x ∷ rest))

  single-Covers :
      (kind : Tok) (start n : ℕ) (step : Step)
      → Covers start n step
      → Covers start n (if not (is_eof kind) then lex_single kind start else step)
  single-Covers kind start n step p = elim (Bool-cases (is_eof kind)) [
    | inl h ↦ rw h p
    | inr h ↦ rw h (lex_single-Covers kind start n h)
  ]

  pub lex_token-Covers :
      (c start : ℕ) (rest : List ℕ) → Covers start (length rest) (lex_token strtod c start rest)
  unfolding lex_token lex_run
  lex_token-Covers c start rest = single-Covers (punctuation c) start _ _ (
      if-Covers _ start _ _ _ (lex_dot-Covers start rest) (
        if-Covers _ start _ _ _ (run-Covers Tok.metadata_id is_ident_char start rest refl) (
          if-Covers _ start _ _ _ (run-Covers Tok.attr_group is_digit_ascii start rest refl) (
            if-Covers _ start _ _ _ (lex_name-Covers Tok.local_id start rest refl) (
              if-Covers _ start _ _ _ (lex_name-Covers Tok.global_id start rest refl) (
                if-Covers _ start _ _ _ (lex_string-Covers start rest) (
                  if-Covers _ start _ _ _ (lex_c-Covers start rest) (
                    if-Covers _ start _ _ _ (lex_number-Covers c start rest)
                      (lex_ident-Covers c start rest)))))))))

-- ===== src/Ll/Next.antt =====
-- `lr_lexer_next` of src/ll_lexer.c: one function for each group of cases of its switch. Each is
-- given the offset `start` of the first byte of the token and the bytes behind that byte, and
-- returns the token with the new position.
pub mod Covered
pub mod Stream
pub mod Literals
pub mod Identifiers
use liric.Base.{ℕ, suc, ◌+◌, ◌-◌, ◌*◌, ◌^◌, bit_or, List, [], ◌∷◌, length, take, drop}
use liric.Base.{
  Bool, true, false, not, ◌&&◌, ◌||◌, ltb, leb, ◌==◌, if◌then◌else◌, u64, sub64, ◌<<<◌,
}
use liric.Ll.Token.{Tok, Token, Lexer}
use liric.Ll.Lexer.{is_digit_ascii, is_alpha_ascii, is_ident_char, is_hex_digit, hex_val}
use liric.Ll.Lexer.{run_length, skip_whitespace_and_comments, lookup_keyword, is_eof}

abbrev pub Step : Type 0
Step = Token × ℕ

unfoldable pub make_token : Tok → ℕ → ℕ → Token
make_token kind start len = record {
  kind = kind;
  start = start;
  len = len;
  int_val = 0;
  float_val = 0;
}

-- A token with the text from `start` to `pos`.
abbrev pub token_to : Tok → ℕ → ℕ → Step
token_to kind start pos = (make_token kind start (pos - start), pos)

unfoldable pub lex_single : Tok → ℕ → Step
lex_single kind start = (make_token kind start 1, start + 1)

abbrev pub starts_with : (ℕ → Bool) → List ℕ → Bool
starts_with p [] = false
starts_with p (c ∷ rest) = p c

unfoldable pub lex_dot : ℕ → List ℕ → Step
lex_dot start (a ∷ b ∷ rest) =
    if a == b'.' && b == b'.'
    then (make_token Tok.dotdotdot start 3, start + 3)
    else if is_ident_char a
    then token_to Tok.local_id start (start + 1 + run_length is_ident_char (a ∷ b ∷ rest))
    else lex_single Tok.error start
lex_dot start rest =
    if starts_with is_ident_char rest
    then token_to Tok.local_id start (start + 1 + run_length is_ident_char rest)
    else lex_single Tok.error start

unfoldable pub lex_run : Tok → (ℕ → Bool) → ℕ → List ℕ → Step
lex_run kind p start rest = token_to kind start (start + 1 + run_length p rest)

-- The loop over a quoted text, with the closing quote if there is one. A backslash takes the byte
-- after it along, unless it is the last.
abbrev pub quoted_length : List ℕ → ℕ
quoted_length [] = 0
quoted_length (c ∷ []) = 1
quoted_length (c ∷ d ∷ rest) =
    let skip = quoted_length rest in
    let more = quoted_length (d ∷ rest) in
    if c == b'"' then 1 else if c == 92 then 2 + skip else 1 + more

unfoldable pub lex_name : Tok → ℕ → List ℕ → Step
lex_name kind start [] = token_to kind start (start + 1)
lex_name kind start (q ∷ rest) =
    if q == b'"'
    then token_to kind start (start + 2 + quoted_length rest)
    else token_to kind start (start + 1 + run_length is_ident_char (q ∷ rest))

unfoldable pub lex_string : ℕ → List ℕ → Step
lex_string start rest = token_to Tok.string_lit start (start + 1 + quoted_length rest)

unfoldable pub lex_ident : ℕ → ℕ → List ℕ → Step
lex_ident c start rest =
    if is_alpha_ascii c || c == b'_'
    then (let run = run_length is_ident_char rest in
        let keyword = lookup_keyword (c ∷ take run rest) in
        token_to (if is_eof keyword then Tok.local_id else keyword) start (start + 1 + run))
    else lex_single Tok.error start

unfoldable pub lex_c : ℕ → List ℕ → Step
lex_c start [] = lex_ident b'c' start []
lex_c start (q ∷ rest) =
    if q == b'"'
    then token_to Tok.string_lit start (start + 2 + quoted_length rest)
    else lex_ident b'c' start (q ∷ rest)

-- `bits = (bits << 4) | hex_val(src[i])`
unfoldable pub hex_bits : ℕ → List ℕ → ℕ
hex_bits bits [] = bits
hex_bits bits (c ∷ digits) = hex_bits (bit_or (u64 (bits <<< 4)) (hex_val c)) digits

-- `rest` is what stands behind the `0x`.
unfoldable pub lex_hex : ℕ → List ℕ → Step
lex_hex start rest =
    let run = run_length is_hex_digit rest in
    let pos = start + 2 + run in
    (
      record (make_token Tok.float_lit start (pos - start)) {
        float_val = hex_bits 0 (take run rest);
      },
      pos,
    )

-- `val = val * 10 + (src[i] - '0')` on the pattern of an `int64_t`.
unfoldable pub int_loop : ℕ → List ℕ → ℕ
int_loop val [] = val
int_loop val (c ∷ digits) = int_loop (u64 (val * 10 + (c - b'0'))) digits

-- `text` is the whole literal.
unfoldable pub int_literal : Bool → List ℕ → ℕ
int_literal true (minus ∷ digits) = sub64 0 (int_loop 0 digits)
int_literal true [] = 0
int_literal false digits = int_loop 0 digits

-- `.` and the digits behind it, if there is a `.`.
abbrev pub fraction_length : List ℕ → ℕ
fraction_length [] = 0
fraction_length (c ∷ rest) = if c == b'.' then 1 + run_length is_digit_ascii rest else 0

abbrev pub is_exponent : ℕ → Bool
is_exponent c = c == b'e' || c == b'E'

abbrev pub is_sign : ℕ → Bool
is_sign c = c == b'+' || c == b'-'

abbrev pub signed_length : List ℕ → ℕ
signed_length [] = 0
signed_length (s ∷ rest) =
    if is_sign s then 1 + run_length is_digit_ascii rest else run_length is_digit_ascii (s ∷ rest)

abbrev pub exponent_length : List ℕ → ℕ
exponent_length [] = 0
exponent_length (c ∷ rest) = if is_exponent c then 1 + signed_length rest else 0

abbrev pub is_x : ℕ → Bool
is_x c = c == b'x' || c == b'X'

-- The tokens of one byte; `eof` is none of them.
abbrev pub punctuation : ℕ → Tok
punctuation c =
    if c == b'('
    then Tok.lparen
    else if c == b')'
    then Tok.rparen
    else if c == b'{'
    then Tok.lbrace
    else if c == b'}'
    then Tok.rbrace
    else if c == b'['
    then Tok.lbracket
    else if c == b']'
    then Tok.rbracket
    else if c == b','
    then Tok.comma
    else if c == b'='
    then Tok.equals
    else if c == b'*'
    then Tok.star
    else if c == b':'
    then Tok.colon
    else if c == b'<'
    then Tok.langle
    else if c == b'>'
    then Tok.rangle
    else Tok.eof

-- `strtod` gives the pattern of the `double` that a text stands for.
module _ (strtod : List ℕ → ℕ) where
  -- `text` starts at `start`; its first `whole` bytes are the sign and the digits.
  unfoldable pub lex_float : ℕ → ℕ → List ℕ → Step
  lex_float start whole text =
      let fraction = fraction_length (drop whole text) in
      let exponent = exponent_length (drop (whole + fraction) text) in
      let pos = start + whole + fraction + exponent in
      let tok = make_token Tok.float_lit start (pos - start) in
      (if ltb tok.len 64 then record tok { float_val = strtod (take tok.len text) } else tok, pos)

  unfoldable pub lex_decimal : ℕ → ℕ → List ℕ → Step
  lex_decimal c start rest =
      let whole = suc (run_length is_digit_ascii rest) in
      if starts_with (λ d. d == b'.' || is_exponent d) (drop whole (c ∷ rest))
      then lex_float start whole (c ∷ rest)
      else (
        record (make_token Tok.int_lit start whole) {
          int_val = int_literal (c == b'-') (take whole (c ∷ rest));
        },
        start + whole,
      )

  unfoldable pub lex_number : ℕ → ℕ → List ℕ → Step
  lex_number c start rest =
      if c == b'-' && not (starts_with is_digit_ascii rest)
      then lex_single Tok.error start
      else if c == b'0' && starts_with is_x rest
      then lex_hex start (drop 1 rest)
      else lex_decimal c start rest

  -- The switch on the first byte.
  unfoldable pub lex_token : ℕ → ℕ → List ℕ → Step
  lex_token c start rest =
      if not (is_eof (punctuation c))
      then lex_single (punctuation c) start
      else if c == b'.'
      then lex_dot start rest
      else if c == b'!'
      then lex_run Tok.metadata_id is_ident_char start rest
      else if c == b'#'
      then lex_run Tok.attr_group is_digit_ascii start rest
      else if c == b'%'
      then lex_name Tok.local_id start rest
      else if c == b'@'
      then lex_name Tok.global_id start rest
      else if c == b'"'
      then lex_string start rest
      else if c == b'c'
      then lex_c start rest
      else if c == b'-' || is_digit_ascii c
      then lex_number c start rest
      else lex_ident c start rest

  -- The list is what stands at the position.
  abbrev pub next_from : Lexer → List ℕ → Token × Lexer
  next_from lex [] = (make_token Tok.eof lex.pos 0, lex)
  next_from lex (c ∷ rest) =
      let (tok, pos) = lex_token c lex.pos rest in (tok, record lex { pos = pos })

  unfoldable pub lexer_next : Lexer → Token × Lexer
  lexer_next lex =
      let lex' = skip_whitespace_and_comments lex in next_from lex' (drop lex'.pos lex'.src)

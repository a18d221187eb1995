-- ===== src/Ll/Lexer.antt =====
-- The lexer of src/ll_lexer.c. A test `pos < n && src[pos] == q` is a match on the bytes from `pos` on,
-- and a loop that moves a position is the count of the bytes it passes.
use liric.Base.{ℕ, ◌+◌, ◌-◌, ◌*◌, ◌^◌, bit_or, bit_xor, List, [], ◌∷◌, drop}
use liric.Base.{Bool, true, false, ◌&&◌, ◌||◌, ltb, leb, ◌==◌, if◌then◌else◌, u32}
use liric.Base.{same_text}
use liric.Ll.Token.{Tok, Lexer}
use liric.Ll.Cases.{Case, cases}

-- `(unsigned)(u - first) < count`
abbrev within : ℕ → ℕ → ℕ → Bool
within u first count = ltb (u32 (u + 2 ^ 32 - first)) count

abbrev pub is_digit_ascii : ℕ → Bool
is_digit_ascii c = within c b'0' 10

abbrev pub is_alpha_ascii : ℕ → Bool
is_alpha_ascii c = within (bit_or c 32) b'a' 26

unfoldable pub is_ident_char : ℕ → Bool
is_ident_char c = is_alpha_ascii c || is_digit_ascii c || c == b'_' || c == b'.' || c == b'$'

unfoldable pub is_hex_digit : ℕ → Bool
is_hex_digit c = if is_digit_ascii c then true else within (bit_or c 32) b'a' 6

unfoldable pub hex_val : ℕ → ℕ
hex_val c = if is_digit_ascii c then c - b'0' else bit_or c 32 - b'a' + 10

-- `while (run < n && p(src[run])) run++;`
abbrev pub run_length : (ℕ → Bool) → List ℕ → ℕ
run_length p [] = 0
run_length p (c ∷ rest) = let more = run_length p rest in if p c then 1 + more else 0

abbrev pub is_space : ℕ → Bool
is_space c = c == b' ' || c == 9 || c == 13 || c == 10

-- What the loop of `skip_whitespace_and_comments` passes. In a comment it runs to the newline, which
-- the next round passes as a space.
abbrev pub skip_length : Bool → List ℕ → ℕ
skip_length comment [] = 0
skip_length true (c ∷ rest) =
    let after = skip_length false rest in
    let more = skip_length true rest in 1 + (if c == 10 then after else more)
skip_length false (c ∷ rest) =
    let more = skip_length false rest in
    let ended = skip_length true rest in
    if is_space c then 1 + more else if c == b';' then 1 + ended else 0

unfoldable pub skip_whitespace_and_comments : Lexer → Lexer
skip_whitespace_and_comments lex = record lex {
  pos = lex.pos + skip_length false (drop lex.pos lex.src);
}

unfoldable pub keyword_hash : List ℕ → ℕ → ℕ
keyword_hash [] h = h
keyword_hash (c ∷ s) h = keyword_hash s (u32 (bit_xor h c * 16777619))

-- `switch (hash)` over the cases.
unfoldable pub switch_hash : List Case → ℕ → List ℕ → Tok
switch_hash [] hash s = Tok.eof
switch_hash (k ∷ others) hash s =
    let next = switch_hash others hash s in
    if k.hash == hash then if same_text s k.keyword.name then k.keyword.tok else Tok.eof else next

-- The fast path; `eof` is no keyword.
unfoldable pub integer_type : List ℕ → Tok
integer_type (i ∷ a ∷ []) =
    if i == b'i'
    then if a == b'1' then Tok.i1 else if a == b'8' then Tok.i8 else Tok.eof
    else Tok.eof
integer_type (i ∷ a ∷ b ∷ []) =
    if i == b'i' && (leb b'0' a && leb a b'9' && leb b'0' b && leb b b'9')
    then if a == b'1' && b == b'6'
      then Tok.i16
      else if a == b'3' && b == b'2'
      then Tok.i32
      else if a == b'6' && b == b'4'
      then Tok.i64
      else Tok.eof
    else Tok.eof
integer_type _ = Tok.eof

abbrev pub is_eof : Tok → Bool
is_eof Tok.eof = true
is_eof _ = false

unfoldable pub lookup_keyword : List ℕ → Tok
lookup_keyword [] = Tok.eof
lookup_keyword (c ∷ s) =
    let fast = integer_type (c ∷ s) in
    if is_eof fast then switch_hash cases (keyword_hash (c ∷ s) 2166136261) (c ∷ s) else fast

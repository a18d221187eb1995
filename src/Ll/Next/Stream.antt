-- ===== src/Ll/Next/Stream.antt =====
-- What a caller of `lr_lexer_next` of src/ll_lexer.c sees: one token, and all of them.
use liric.Base.{ℕ, zero, suc, ◌+◌, ◌≤◌, ◌<◌, ◌≡◌, refl, sym, ap, arith, inl, inr}
use liric.Base.{List, [], ◌∷◌, length, drop, length-drop, Option, none, some}
use liric.Base.{true, false, ◌⊎◌, if◌then◌else◌}
use liric.Ll.Token.{Token, Lexer}
use liric.Ll.Lexer.{skip_length, is_eof, skip_whitespace_and_comments}
use liric.Ll.Next.{make_token, lexer_next, next_from}
use liric.Ll.Next.Covered.{skip_length_le, Covers, lex_token-Covers}

-- The token lies between the old position and the new one, which is the end of the token and
-- inside the source; it is empty only as the `LR_TOK_EOF` at the end of the source.
unfoldable pub Read : Lexer → Token × Lexer → Type 0
Read lex (tok, lex') =
    (lex'.src ≡ lex.src)
    × (lex.pos ≤ tok.start)
    × (tok.start + tok.len ≡ lex'.pos)
    × (lex'.pos ≤ length lex.src)
    × ((is_eof tok.kind ≡ true) × (tok.start ≡ length lex.src)
        ⊎ (is_eof tok.kind ≡ false) × (1 ≤ tok.len))

module _ (strtod : List ℕ → ℕ) where
  next_from-Read :
      (lex lex' : Lexer) (s : List ℕ)
      → lex'.src ≡ lex.src
      → lex.pos ≤ lex'.pos
      → lex'.pos + length s ≡ length lex.src
      → Read lex (next_from strtod lex' s)
  unfolding Read Covers make_token
  next_from-Read lex lex' [] same past ends =
      (same, past, omega arith, omega arith, inl (refl, omega arith))
  next_from-Read lex lex' (c ∷ rest) same past ends =
      let (named, at, covered, further, fits) = lex_token-Covers strtod c lex'.pos rest in
      (same, omega arith, omega arith, omega arith, inr (named, omega arith))

  -- From a position inside the source, `lr_lexer_next` reads a token that lies behind the position,
  -- ends at the new position and inside the source, and is not empty, or it is at the end and
  -- gives `LR_TOK_EOF` there.
  pub lexer_next-Read : (lex : Lexer) → lex.pos ≤ length lex.src → Read lex (lexer_next strtod lex)
  unfolding lexer_next skip_whitespace_and_comments
  lexer_next-Read lex inside =
      let skip = skip_length false (drop lex.pos lex.src) in
      let le = skip_length_le false (drop lex.pos lex.src) in
      let e = length-drop lex.pos lex.src in
      let e' = length-drop (lex.pos + skip) lex.src in
      next_from-Read lex (record lex { pos = lex.pos + skip }) _ refl (omega arith) (omega arith)

  -- A caller that reads tokens up to `LR_TOK_EOF`; `none` if the fuel does not last.
  unfoldable pub lexer_tokens : ℕ → Lexer → Option (List Token)
  lexer_tokens zero lex = none
  lexer_tokens (suc fuel) lex =
      let (tok, lex') = lexer_next strtod lex in
      let rest = lexer_tokens fuel lex' in
      if is_eof tok.kind
      then some (tok ∷ [])
      else elim rest [ none ↦ none | some ts ↦ some (tok ∷ ts) ]

-- Each token starts at the end of the one before it or behind, only the last is `LR_TOK_EOF`,
-- and it stands at the end `n` of the source.
unfoldable pub Stream : ℕ → ℕ → List Token → Type 0
Stream at n [] = ⊥
Stream at n (tok ∷ []) = (is_eof tok.kind ≡ true) × (at ≤ tok.start) × (tok.start ≡ n)
Stream at n (tok ∷ next ∷ ts) =
    (is_eof tok.kind ≡ false)
    × (at ≤ tok.start)
    × (1 ≤ tok.len)
    × Stream (tok.start + tok.len) n (next ∷ ts)

Stream-cons :
    (at n : ℕ) (tok : Token) (ts : List Token)
    → is_eof tok.kind ≡ false
    → at ≤ tok.start
    → 1 ≤ tok.len
    → Stream (tok.start + tok.len) n ts
    → Stream at n (tok ∷ ts)
unfolding Stream
Stream-cons at n tok [] named past some_byte rest = absurd rest
Stream-cons at n tok (next ∷ ts) named past some_byte rest = (named, past, some_byte, rest)

Stream-moved : {p q m n : ℕ} (ts : List Token) → p ≡ q → m ≡ n → Stream p m ts → Stream q n ts
Stream-moved ts e g stream = rw (sym e, sym g) stream

Stream-end :
    (at n : ℕ) (tok : Token)
    → is_eof tok.kind ≡ true
    → at ≤ tok.start
    → tok.start ≡ n
    → Stream at n (tok ∷ [])
unfolding Stream
Stream-end at n tok last past at_end = (last, past, at_end)

module _ (strtod : List ℕ → ℕ) where
  -- The lexer reaches the end: from a position inside the source, more calls than bytes are left are
  -- enough to read up to `LR_TOK_EOF`; the tokens before it are not empty, they stand one behind the
  -- other, and `LR_TOK_EOF` stands at the end of the source.
  pub lexer_tokens-Stream :
      (fuel : ℕ) (lex : Lexer)
      → lex.pos ≤ length lex.src
      → length lex.src < fuel + lex.pos
      → (ts : List Token) × (lexer_tokens strtod fuel lex ≡ some ts)
        × Stream lex.pos (length lex.src) ts
  unfolding lexer_tokens Read
  lexer_tokens-Stream zero lex inside enough = absurd (omega arith)
  lexer_tokens-Stream (suc fuel) lex inside enough =
      let (same, past, ends, fits, kind) = lexer_next-Read strtod lex inside in
      let tok = (lexer_next strtod lex).0 in
      let lex' = (lexer_next strtod lex).1 in
      elim kind [
        | inl (last, at_end) ↦ rw last (tok ∷ [], refl, Stream-end lex.pos _ tok last past at_end)
        | inr (named, some_byte) ↦
            let e = ap length same in
            let (ts, read, stream) = lexer_tokens-Stream fuel lex' (omega arith) (omega arith) in
            let stream' = Stream-moved ts (sym ends) e stream in
            rw (named, read)
              (tok ∷ ts, refl, Stream-cons lex.pos _ tok ts named past some_byte stream')
      ]

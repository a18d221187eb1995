-- ===== src/Ll/Next/Identifiers.antt =====
-- Words of `lr_lexer_next` of src/ll_lexer.c: keywords and bare identifiers.
use liric.Base.{ℕ, zero, suc, ◌+◌, ◌-◌, ◌<◌, ◌≡◌, refl, sym, ap, ◌∙◌, arith}
use liric.Base.{take_whole, and_parts, inl, inr, Bool-cases, List, [], ◌∷◌, ◌++◌, length, drop, All}
use liric.Base.{Bool, true, false, not, ◌&&◌, ◌||◌, ltb, leb, ◌==◌, if◌then◌else◌}
use liric.Base.{Option, none, some, same_text}
use liric.Ll.Token.{Tok, Token, Lexer}
use liric.Ll.Keywords.{Keyword, keywords}
use liric.Ll.Cases.Lookup.{find_keyword, integer_types, lookup_keyword-find_keyword, or_eof}
use liric.Ll.Lexer.{is_eof, is_alpha_ascii, is_ident_char, lookup_keyword}
use liric.Ll.Next.{make_token, starts_with, lex_c, lex_ident, lex_token, lexer_next}
use liric.Ll.Next.Literals.{token_here, run_length-append}

abbrev pub is_letter : ℕ → Bool
is_letter c = leb b'a' c && leb c b'z' || leb b'A' c && leb c b'Z'

abbrev same_bool : Bool → Bool → Bool
same_bool true b = b
same_bool false b = not b

abbrev letters_below : ℕ → Bool
letters_below zero = true
letters_below (suc c) = same_bool (is_alpha_ascii c) (is_letter c) && letters_below c

letters_agree : letters_below 256 ≡ true
letters_agree = refl

same_bool_eq : (a b : Bool) → same_bool a b ≡ true → a ≡ b
same_bool_eq true true h = refl
same_bool_eq true false h = sym h
same_bool_eq false true h = h
same_bool_eq false false h = refl

below_each : (n c : ℕ) → letters_below n ≡ true → c < n → is_alpha_ascii c ≡ is_letter c
below_each zero c h lt = absurd (omega arith)
below_each (suc n) c h lt =
    let (here, others) =
      and_parts (same_bool (is_alpha_ascii n) (is_letter n)) (letters_below n) h in
    elim (Bool-cases (ltb c n)) [
      | inl below ↦ below_each n c others (ground arith)
      | inr above ↦
          let e : c ≡ n = ground arith in rw e (same_bool_eq (is_alpha_ascii n) (is_letter n) here)
    ]

-- On a byte, the test with the bit 32 set is that for an ASCII letter.
pub is_alpha_ascii-is_letter : (c : ℕ) → c < 256 → is_alpha_ascii c ≡ is_letter c
is_alpha_ascii-is_letter c byte = below_each 256 c letters_agree byte

abbrev pub starts_word : ℕ → Bool
starts_word c = is_letter c || c == b'_'

-- What would make the word longer, or a text in quotes.
abbrev pub continues_word : ℕ → Bool
continues_word c = is_ident_char c || c == b'"'

no_ident :
    (rest : List ℕ)
    → starts_with continues_word rest ≡ false
    → starts_with is_ident_char rest ≡ false
no_ident [] ends = refl
no_ident (c ∷ rest) ends = ground (arith, ends)

-- The token of a word.
abbrev pub word_kind : List ℕ → Tok
word_kind s = elim (find_keyword (integer_types ++ keywords) s) [ none ↦ Tok.local_id | some t ↦ t ]

abbrev named : List Keyword → Bool
named [] = true
named (k ∷ table) = not (is_eof k.tok) && named table

table_named : named (integer_types ++ keywords) ≡ true
unfolding keywords
table_named = refl

found_named :
    (table : List Keyword) (s : List ℕ) (t : Tok)
    → named table ≡ true
    → find_keyword table s ≡ some t
    → is_eof t ≡ false
unfolding find_keyword
found_named [] s t ok h = absurd (cc)
found_named (k ∷ table) s t ok h =
    let (here, others) = and_parts (not (is_eof k.tok)) (named table) ok in
    elim (Bool-cases (same_text s k.name)) [
      | inl g ↦ let e : k.tok ≡ t = ground (arith, g, h) in rw (sym e) (ground (arith, here))
      | inr g ↦ found_named table s t others (ground (arith, g, h))
    ]

kind_of_found :
    (o : Option Tok)
    → ((t : Tok) → o ≡ some t → is_eof t ≡ false)
    → (if is_eof (or_eof o) then Tok.local_id else or_eof o)
      ≡ elim o [ none ↦ Tok.local_id | some t ↦ t ]
kind_of_found none f = refl
kind_of_found (some t) f = rw (f t refl) refl

lookup_keyword-word_kind :
    (s : List ℕ)
    → (if is_eof (lookup_keyword s) then Tok.local_id else lookup_keyword s) ≡ word_kind s
lookup_keyword-word_kind s = rw (lookup_keyword-find_keyword s) (
    kind_of_found (find_keyword (integer_types ++ keywords) s)
      (λ t h. found_named (integer_types ++ keywords) s t table_named h))

-- The token of the word `s` at `start`, and the position behind it.
abbrev pub word_token : ℕ → List ℕ → Token × ℕ
word_token start s = (make_token (word_kind s) start (length s), start + length s)

word_step :
    (c start : ℕ) (s rest : List ℕ)
    → starts_word c ≡ true
    → All (λ d. is_ident_char d ≡ true) s
    → starts_with continues_word rest ≡ false
    → lex_ident c start (s ++ rest) ≡ word_token start (c ∷ s)
unfolding lex_ident
word_step c start s rest begins all ends =
    let byte : c < 256 = ground arith in
    let run = run_length-append is_ident_char s rest all (no_ident rest ends) in
    let len : start + 1 + length s - start ≡ suc (length s) = omega arith in
    let end : start + 1 + length s ≡ start + suc (length s) = omega arith in
    rw
      (
        is_alpha_ascii-is_letter c byte,
        begins,
        run,
        take_whole s rest,
        lookup_keyword-word_kind (c ∷ s),
      )
      (rw (len, end) refl)

is_quote : ℕ → Bool
is_quote d = d == b'"'

no_quote :
    (s rest : List ℕ)
    → All (λ d. is_ident_char d ≡ true) s
    → starts_with continues_word rest ≡ false
    → starts_with is_quote (s ++ rest) ≡ false
unfolding is_ident_char is_quote
no_quote [] [] all ends = refl
no_quote [] (d ∷ rest) all ends = ground (arith, ends)
no_quote (d ∷ s) rest (h, all) ends = ground (arith, h)

lex_c-lex_ident :
    (start : ℕ) (s : List ℕ)
    → starts_with is_quote s ≡ false
    → lex_c start s ≡ lex_ident b'c' start s
unfolding lex_c is_quote
lex_c-lex_ident start [] h = refl
lex_c-lex_ident start (d ∷ s) h = rw h refl

c_or_other :
    (c start : ℕ) (s : List ℕ)
    → starts_with is_quote s ≡ false
    → (if c == b'c' then lex_c start s else lex_ident c start s) ≡ lex_ident c start s
c_or_other c start s h = ground (arith, lex_c-lex_ident start s h)

module _ (strtod : List ℕ → ℕ) where
  lex_token_word :
      (c start : ℕ) (rest : List ℕ)
      → starts_word c ≡ true
      → lex_token strtod c start rest
        ≡ (if c == b'c' then lex_c start rest else lex_ident c start rest)
  unfolding lex_token
  lex_token_word c start rest begins = ground arith

  -- Where a word stands at the position -- a letter or `_`, and bytes of identifiers -- and no such
  -- byte or quote behind it, `lr_lexer_next` reads exactly the word: the token is that of the
  -- first entry with this name in the integer types followed by `keywords`, or
  -- `LR_TOK_LOCAL_ID` if there is none, and the new position is behind the word.
  pub lexer_next-word :
      (lex : Lexer) (c : ℕ) (s rest : List ℕ)
      → drop lex.pos lex.src ≡ c ∷ s ++ rest
      → starts_word c ≡ true
      → All (λ d. is_ident_char d ≡ true) s
      → starts_with continues_word rest ≡ false
      → lexer_next strtod lex
        ≡ (let (tok, pos) = word_token lex.pos (c ∷ s) in (tok, record lex { pos = pos }))
  lexer_next-word lex c s rest at begins all ends =
      let step =
        lex_token_word c lex.pos (s ++ rest) begins
        ∙ c_or_other c lex.pos (s ++ rest) (no_quote s rest all ends)
        ∙ word_step c lex.pos s rest begins all ends in
      token_here strtod lex c (s ++ rest) (ground (arith, begins)) at
      ∙ ap (λ step. (step.0, record lex { pos = step.1 })) step

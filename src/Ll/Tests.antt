-- ===== src/Ll/Tests.antt =====
-- Runs of the lexer, and the theorems at concrete sources.
use liric.Base.{String, ℕ, ◌+◌, ◌%◌, ◌^◌, ◌≡◌, refl, arith, List, ◌++◌, codes}
use liric.Base.{some, true, length}
use liric.Ll.Token.{Tok, Token, Lexer}
use liric.Ll.Keywords.{keywords}
use liric.Ll.Cases.{first_cases, middle_cases, last_cases}
use liric.Ll.Cases.Lookup.{find_keyword, integer_types, or_eof, lookup_keyword-find_keyword}
use liric.Ll.Lexer.{lookup_keyword, is_ident_char, integer_type, switch_hash, keyword_hash}
use liric.Ll.Next.{lexer_next}
use liric.Ll.Next.Stream.{Read, Stream, lexer_tokens, lexer_next-Read, lexer_tokens-Stream}
use liric.Ll.Next.Literals.{lexer_next-int_literal, literal_token}
use liric.Ll.Next.Identifiers.{lexer_next-word, word_token}
use liric.Ll.Location.{compute_loc, newlines, last_line, compute_loc-last_line}

-- In place of `strtod`.
abbrev no_strtod : List ℕ → ℕ
no_strtod text = 0

abbrev at_start : String → Lexer
at_start text = record { src = codes text; pos = 0 }

lookup_keyword-find_keyword_example :
    lookup_keyword (codes "getelementptr")
    ≡ or_eof (find_keyword (integer_types ++ keywords) (codes "getelementptr"))
lookup_keyword-find_keyword_example = lookup_keyword-find_keyword (codes "getelementptr")

lookup_getelementptr : lookup_keyword (codes "getelementptr") ≡ Tok.getelementptr
unfolding lookup_keyword first_cases middle_cases last_cases integer_type switch_hash keyword_hash
lookup_getelementptr = refl

lexer_next-Read_example :
    Read (at_start " ; x\n%a.1 = add") (lexer_next no_strtod (at_start " ; x\n%a.1 = add"))
lexer_next-Read_example = lexer_next-Read no_strtod (at_start " ; x\n%a.1 = add") (omega arith)

lexer_tokens-Stream_example :
    (ts : List Token) × (lexer_tokens no_strtod 20 (at_start "ret i32 -7 ; end") ≡ some ts)
    × Stream 0 16 ts
lexer_tokens-Stream_example =
    lexer_tokens-Stream no_strtod 20 (at_start "ret i32 -7 ; end") (omega arith) (omega arith)

lexer_next-int_literal_example : lexer_next no_strtod (at_start "-42, 7") ≡ (
    let (tok, pos) = literal_token 0 true (codes "42") in
    (tok, record (at_start "-42, 7") { pos = pos }))
lexer_next-int_literal_example =
    lexer_next-int_literal no_strtod (at_start "-42, 7") true b'4' (codes "2") (codes ", 7") refl
      ((omega arith, omega arith), ((omega arith, omega arith), tt)) refl

lexer_next-word_example : lexer_next no_strtod (at_start "add i32") ≡ (
    let (tok, pos) = word_token 0 (codes "add") in (tok, record (at_start "add i32") { pos = pos }))
unfolding is_ident_char
lexer_next-word_example =
    lexer_next-word no_strtod (at_start "add i32") b'a' (codes "dd") (codes " i32") refl refl
      (refl, (refl, tt)) refl

compute_loc-last_line_example :
    compute_loc (at_start "a\nbc\nd") 4
    ≡ ((1 + newlines (codes "a\nbc")) % 2 ^ 32, (length (last_line (codes "a\nbc")) + 1) % 2 ^ 32)
compute_loc-last_line_example = compute_loc-last_line (at_start "a\nbc\nd") 4

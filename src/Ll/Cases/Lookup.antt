-- ===== src/Ll/Cases/Lookup.antt =====
-- `lookup_keyword` of src/ll_lexer.c beside a search of the list `keywords`.
use liric.Base.{ℕ, ◌≡◌, refl, ◌∙◌, sym, ap, arith, inl, inr, Bool-cases, List, [], ◌∷◌, ◌++◌}
use liric.Base.{Bool, true, false, not, ◌&&◌, ◌==◌, if◌then◌else◌, Option, none, some}
use liric.Base.{same_text, same_text_eq}
use liric.Ll.Token.{Tok}
use liric.Ll.Keywords.{Keyword, keyword, keywords}
use liric.Ll.Cases.{Case, cases, first_cases, middle_cases, last_cases}
use liric.Ll.Lexer.{keyword_hash, switch_hash, integer_type, lookup_keyword, is_eof}

abbrev pub fnv : List ℕ → ℕ
fnv s = keyword_hash s 2166136261

-- The token of the first entry that is named `s`.
unfoldable pub find_keyword : List Keyword → List ℕ → Option Tok
find_keyword [] s = none
find_keyword (k ∷ table) s =
    let next = find_keyword table s in if same_text s k.name then some k.tok else next

abbrev case_keywords : List Case → List Keyword
case_keywords [] = []
case_keywords (k ∷ others) = k.keyword ∷ case_keywords others

abbrev pub or_eof : Option Tok → Tok
or_eof none = Tok.eof
or_eof (some t) = t

abbrev no_hash : ℕ → List Case → Bool
no_hash h [] = true
no_hash h (k ∷ others) = not (k.hash == h) && no_hash h others

-- Every hash is that of its keyword, and no two are equal.
abbrev hashed : List Case → Bool
hashed [] = true
hashed (k ∷ others) = k.hash == fnv k.keyword.name && no_hash k.hash others && hashed others

all_hashed : hashed cases ≡ true
unfolding keyword_hash first_cases middle_cases last_cases
all_hashed = refl

abbrev found : List Keyword → List Keyword → List (Option Tok)
found table [] = []
found table (k ∷ others) = find_keyword table k.name ∷ found table others

abbrev tokens_of : List Keyword → List (Option Tok)
tokens_of [] = []
tokens_of (k ∷ others) = some k.tok ∷ tokens_of others

keywords_in_cases : found (case_keywords cases) keywords ≡ tokens_of keywords
unfolding keywords first_cases middle_cases last_cases find_keyword
keywords_in_cases = refl

cases_in_keywords : found keywords (case_keywords cases) ≡ tokens_of (case_keywords cases)
unfolding keywords first_cases middle_cases last_cases find_keyword
cases_in_keywords = refl

-- A text whose hash is in no case is the keyword of none.
find_no_hash :
    (others : List Case) (s : List ℕ)
    → hashed others ≡ true
    → no_hash (fnv s) others ≡ true
    → find_keyword (case_keywords others) s ≡ none
unfolding find_keyword
find_no_hash [] s ok fresh = refl
find_no_hash (k ∷ others) s ok fresh = elim (Bool-cases (same_text s k.keyword.name)) [
  | inl h ↦ let e = ap fnv (same_text_eq s k.keyword.name h) in absurd (ground (arith, e))
  | inr h ↦ ground (arith, h, find_no_hash others s)
]

switch_hash-find_keyword :
    (others : List Case) (s : List ℕ)
    → hashed others ≡ true
    → switch_hash others (fnv s) s ≡ or_eof (find_keyword (case_keywords others) s)
unfolding find_keyword switch_hash
switch_hash-find_keyword [] s ok = refl
switch_hash-find_keyword (k ∷ others) s ok = elim (Bool-cases (same_text s k.keyword.name)) [
  | inl h ↦ let e = ap fnv (same_text_eq s k.keyword.name h) in ground (arith, e, h)
  | inr h ↦ elim (Bool-cases (k.hash == fnv s)) [
    | inl g ↦
        let none_left = find_no_hash others s (ground arith) (ground arith) in
        rw (h, g, none_left) refl
    | inr g ↦ rw (h, g) (switch_hash-find_keyword others s (ground arith))
  ]
]

find_found :
    (table others : List Keyword) (s : List ℕ) (t : Tok)
    → found table others ≡ tokens_of others
    → find_keyword others s ≡ some t
    → find_keyword table s ≡ some t
unfolding find_keyword
find_found table [] s t agree h = absurd (cc)
find_found table (k ∷ others) s t agree h =
    let head : find_keyword table k.name ≡ some k.tok = cc in
    let rest : found table others ≡ tokens_of others = cc in
    elim (Bool-cases (same_text s k.name)) [
      | inl g ↦
          let same = same_text_eq s k.name g in
          let e : some k.tok ≡ some t = ground (arith, g, h) in rw same (head ∙ e)
      | inr g ↦ find_found table others s t rest (ground (arith, g, h))
    ]

same_found :
    (a b : List Keyword) (s : List ℕ)
    → found a b ≡ tokens_of b
    → found b a ≡ tokens_of a
    → find_keyword a s ≡ find_keyword b s
same_found a b s ab ba =
    same_option (find_keyword a s) (find_keyword b s) (λ t h. find_found b a s t ba h)
      (λ t h. find_found a b s t ab h)
  where
    same_option :
        (p q : Option Tok)
        → ((t : Tok) → p ≡ some t → q ≡ some t)
        → ((t : Tok) → q ≡ some t → p ≡ some t)
        → p ≡ q
    same_option (some t) q f g = sym (f t refl)
    same_option none none f g = refl
    same_option none (some t) f g = g t refl

abbrev pub integer_types : List Keyword
integer_types =
    keyword "i1" Tok.i1
    ∷ keyword "i8" Tok.i8
    ∷ keyword "i16" Tok.i16
    ∷ keyword "i32" Tok.i32
    ∷ keyword "i64" Tok.i64
    ∷ []

integer_type-find_keyword : (s : List ℕ) → integer_type s ≡ or_eof (find_keyword integer_types s)
unfolding integer_type find_keyword
integer_type-find_keyword [] = refl
integer_type-find_keyword (a ∷ []) = ground arith
integer_type-find_keyword (a ∷ b ∷ []) = ground arith
integer_type-find_keyword (a ∷ b ∷ c ∷ []) = ground arith
integer_type-find_keyword (a ∷ b ∷ c ∷ d ∷ s) = ground arith

find_keyword-append :
    (a b : List Keyword) (s : List ℕ)
    → find_keyword (a ++ b) s
      ≡ elim (find_keyword a s) [ none ↦ find_keyword b s | some t ↦ some t ]
unfolding find_keyword
find_keyword-append [] b s = refl
find_keyword-append (k ∷ a) b s = elim (Bool-cases (same_text s k.name)) [
  | inl h ↦ rw h refl
  | inr h ↦ rw h (find_keyword-append a b s)
]

fast_or_switch :
    (fast slow : Option Tok)
    → ((t : Tok) → fast ≡ some t → is_eof t ≡ false)
    → (if is_eof (or_eof fast) then or_eof slow else or_eof fast)
      ≡ or_eof (elim fast [ none ↦ slow | some t ↦ some t ])
fast_or_switch none slow agree = refl
fast_or_switch (some t) slow agree = rw (agree t refl) refl

empty_keyword : Tok.eof ≡ or_eof (find_keyword (integer_types ++ keywords) [])
unfolding find_keyword keywords
empty_keyword = refl

integer_found : (s : List ℕ) (t : Tok) → find_keyword integer_types s ≡ some t → is_eof t ≡ false
unfolding find_keyword
integer_found s t h = ground (arith, h)

-- For every text, `lookup_keyword` gives the token of the first entry with that name in the five
-- integer types followed by the list `keywords`, and `LR_TOK_EOF` if there is no such entry.
pub lookup_keyword-find_keyword :
    (s : List ℕ) → lookup_keyword s ≡ or_eof (find_keyword (integer_types ++ keywords) s)
unfolding lookup_keyword
lookup_keyword-find_keyword [] = empty_keyword
lookup_keyword-find_keyword (c ∷ s) =
    let fast = find_keyword integer_types (c ∷ s) in
    let table =
      same_found (case_keywords cases) keywords (c ∷ s) keywords_in_cases cases_in_keywords in
    let switched = switch_hash-find_keyword cases (c ∷ s) all_hashed in
    rw
      (
        integer_type-find_keyword (c ∷ s),
        switched,
        table,
        find_keyword-append integer_types keywords (c ∷ s),
      )
      (fast_or_switch fast (find_keyword keywords (c ∷ s)) (integer_found (c ∷ s)))

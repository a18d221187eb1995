-- ===== src/Ll/Next/Literals.antt =====
-- Integer literals of `lr_lexer_next` of src/ll_lexer.c.
use native.Mathlib.Nat.{pow-succ', mod-add-div, add-mul-mod_self_left}
use liric.Base.{ℕ, suc, ◌+◌, ◌-◌, ◌*◌, ◌/◌, ◌%◌, ◌^◌, ◌≤◌, ◌<◌, ◌≡◌, refl, sym, ap, ◌∙◌, arith}
use liric.Base.{List, [], ◌∷◌, ◌++◌, length, take_whole, drop, All}
use liric.Base.{Bool, true, false, ◌&&◌, ◌||◌, ◌==◌, if◌then◌else◌, u64, sub64}
use liric.Ll.Token.{Tok, Token, Lexer}
use liric.Ll.Lexer.{run_length, skip_length, is_digit_ascii, skip_whitespace_and_comments}
use liric.Ll.Next.{make_token, starts_with, is_exponent, is_x, int_loop, int_literal}
use liric.Ll.Next.{lex_decimal, lex_number, lex_token, lexer_next, next_from}

-- The value of a text of digits, the most significant first.
abbrev pub decimal_value : List ℕ → ℕ
decimal_value [] = 0
decimal_value (c ∷ digits) = (c - b'0') * 10 ^ length digits + decimal_value digits

abbrev pub IsDigit : ℕ → Type 0
IsDigit c = (b'0' ≤ c) × (c ≤ b'9')

is_digit_ascii-IsDigit : (c : ℕ) → IsDigit c → is_digit_ascii c ≡ true
is_digit_ascii-IsDigit c (low, high) = ground arith

mod_times : (x p r w : ℕ) → (x % w * p + r) % w ≡ (x * p + r) % w
mod_times x p r w =
    let e : (x % w + w * (x / w)) * p ≡ x * p = ap (λ n. n * p) (mod-add-div x w) in
    let g : x % w * p + r + w * (x / w * p) ≡ x * p + r = grind (arith, e) in
    sym (add-mul-mod_self_left (x % w * p + r) w (x / w * p)) ∙ ap (λ n. n % w) g

more_digits : (val d p r : ℕ) → (val * 10 + d) * p + r ≡ val * (10 * p) + (d * p + r)
more_digits val d p r = grind arith

int_loop-decimal_value :
    (val : ℕ) (digits : List ℕ)
    → val < 2 ^ 64
    → int_loop val digits ≡ (val * 10 ^ length digits + decimal_value digits) % 2 ^ 64
unfolding int_loop
int_loop-decimal_value val [] small = omega arith
int_loop-decimal_value val (c ∷ digits) small =
    let d = c - b'0' in
    let p = 10 ^ length digits in
    let rest = int_loop-decimal_value (u64 (val * 10 + d)) digits (omega arith) in
    let e = more_digits val d p (decimal_value digits) in
    let q =
      ap (λ q. (val * q + (d * p + decimal_value digits)) % 2 ^ 64)
        (sym (pow-succ' 10 (length digits))) in
    rest ∙ mod_times (val * 10 + d) p (decimal_value digits) (2 ^ 64) ∙ ap u64 e ∙ q

literal_value : (digits : List ℕ) → int_loop 0 digits ≡ decimal_value digits % 2 ^ 64
literal_value digits = omega (arith, int_loop-decimal_value 0 digits (omega arith))

if_and_false {ℓ} : {A : Type ℓ} (b c : Bool) (x y : A) → c ≡ false → (if b && c then x else y) ≡ y
if_and_false true c x y h = rw h refl
if_and_false false c x y h = refl

module _ (p : ℕ → Bool) where
  pub run_length-append :
      (s rest : List ℕ)
      → All (λ c. p c ≡ true) s
      → starts_with p rest ≡ false
      → run_length p (s ++ rest) ≡ length s
  run_length-append [] [] all ends = refl
  run_length-append [] (d ∷ rest) all ends = ground (arith, ends)
  run_length-append (d ∷ s) rest (hd, all) ends =
      ground (arith, hd, run_length-append s rest all ends)

drop_whole : (s rest : List ℕ) → drop (length s) (s ++ rest) ≡ rest
drop_whole [] rest = refl
drop_whole (c ∷ s) rest = drop_whole s rest

digits_pass : (digits : List ℕ) → All IsDigit digits → All (λ c. is_digit_ascii c ≡ true) digits
digits_pass [] all = all
digits_pass (c ∷ digits) (h, all) = (is_digit_ascii-IsDigit c h, digits_pass digits all)

-- What would make the literal longer, or another kind of token.
abbrev pub continues_literal : ℕ → Bool
continues_literal c = is_digit_ascii c || c == b'.' || is_exponent c || is_x c

abbrev pub decimal_text : Bool → List ℕ → List ℕ
decimal_text negative digits = if negative then b'-' ∷ digits else digits

-- The number that the literal stands for, as an `int64_t`.
abbrev pub decimal_word : Bool → List ℕ → ℕ
decimal_word negative digits =
    let value = decimal_value digits % 2 ^ 64 in if negative then sub64 0 value else value

no_digit :
    (rest : List ℕ)
    → starts_with continues_literal rest ≡ false
    → starts_with is_digit_ascii rest ≡ false
no_digit [] ends = refl
no_digit (c ∷ rest) ends = ground (arith, ends)

no_point :
    (rest : List ℕ)
    → starts_with continues_literal rest ≡ false
    → starts_with (λ d. d == b'.' || is_exponent d) rest ≡ false
no_point [] ends = refl
no_point (c ∷ rest) ends = ground (arith, ends)

no_x :
    (digits rest : List ℕ)
    → All IsDigit digits
    → starts_with continues_literal rest ≡ false
    → starts_with is_x (digits ++ rest) ≡ false
no_x [] [] all ends = refl
no_x [] (c ∷ rest) all ends = ground (arith, ends)
no_x (c ∷ digits) rest ((low, high), all) ends = ground arith

-- The token that the literal gives, and the position behind it.
abbrev pub literal_token : ℕ → Bool → List ℕ → Token × ℕ
literal_token start negative digits =
    let len = length (decimal_text negative digits) in
    (
      record (make_token Tok.int_lit start len) { int_val = decimal_word negative digits },
      start + len,
    )

module _ (strtod : List ℕ → ℕ) where
  lex_token_digit :
      (c start : ℕ) (rest : List ℕ)
      → IsDigit c
      → lex_token strtod c start rest ≡ lex_number strtod c start rest
  unfolding lex_token
  lex_token_digit c start rest (low, high) = ground arith

  lex_decimal_lem :
      (c start : ℕ) (digits rest : List ℕ)
      → All IsDigit digits
      → starts_with continues_literal rest ≡ false
      → lex_decimal strtod c start (digits ++ rest) ≡ (
        record (make_token Tok.int_lit start (suc (length digits))) {
          int_val = int_literal (c == b'-') (c ∷ digits);
        },
        start + (suc (length digits)),
      )
  unfolding lex_decimal
  lex_decimal_lem c start digits rest all ends =
      rw
        (
          run_length-append is_digit_ascii digits rest (digits_pass digits all)
              (no_digit rest ends),
          drop_whole digits rest,
          take_whole digits rest,
          no_point rest ends,
        )
        refl

  lex_token_lem :
      (start : ℕ) (c : ℕ) (digits rest : List ℕ)
      → All IsDigit (c ∷ digits)
      → starts_with continues_literal rest ≡ false
      → lex_token strtod c start (digits ++ rest) ≡ literal_token start false (c ∷ digits)
  unfolding lex_number int_literal
  lex_token_lem start c digits rest ((low, high), all) ends =
      let minus : (c == b'-') ≡ false = ground arith in
      let x = no_x digits rest all ends in
      let short = if_and_false (c == b'0') (starts_with is_x (digits ++ rest)) _ _ x in
      rw (lex_token_digit c start (digits ++ rest) (low, high), minus)
        (short
          ∙ lex_decimal_lem c start digits rest all ends
          ∙ (rw (minus, literal_value (c ∷ digits)) refl))

  lex_token_minus :
      (start : ℕ) (c : ℕ) (digits rest : List ℕ)
      → All IsDigit (c ∷ digits)
      → starts_with continues_literal rest ≡ false
      → lex_token strtod b'-' start (c ∷ digits ++ rest) ≡ literal_token start true (c ∷ digits)
  unfolding lex_token lex_number int_literal
  lex_token_minus start c digits rest ((low, high), all) ends =
      rw (is_digit_ascii-IsDigit c (low, high)) (
        lex_decimal_lem b'-' start (c ∷ digits) rest ((low, high), all) ends
        ∙ (rw (literal_value (c ∷ digits)) refl))

  -- The token at the position, where no space or comment stands.
  pub token_here :
      (lex : Lexer) (c : ℕ) (rest : List ℕ)
      → skip_length false (c ∷ rest) ≡ 0
      → drop lex.pos lex.src ≡ c ∷ rest
      → lexer_next strtod lex
        ≡ (let (tok, pos) = lex_token strtod c lex.pos rest in (tok, record lex { pos = pos }))
  unfolding lexer_next skip_whitespace_and_comments
  token_here lex c rest skip at =
      let nothing : skip_length false (drop lex.pos lex.src) ≡ 0 = rw at skip in
      let stay : lex.pos + skip_length false (drop lex.pos lex.src) ≡ lex.pos = omega arith in
      ap (λ p. next_from strtod (record lex { pos = p }) (drop p lex.src)) stay
      ∙ ap (next_from strtod lex) at

  -- Where a literal stands at the position -- digits, behind a `-` if it is negative -- and no byte
  -- behind it that would go on with it, `lr_lexer_next` reads exactly the literal: it gives
  -- `LR_TOK_INT_LIT` with the length of the literal and the 64-bit pattern of its value, and the
  -- position behind it.
  pub lexer_next-int_literal :
      (lex : Lexer) (negative : Bool) (c : ℕ) (digits rest : List ℕ)
      → drop lex.pos lex.src ≡ decimal_text negative (c ∷ digits) ++ rest
      → All IsDigit (c ∷ digits)
      → starts_with continues_literal rest ≡ false
      → lexer_next strtod lex ≡ (
          let (tok, pos) = literal_token lex.pos negative (c ∷ digits) in
          (tok, record lex { pos = pos }))
  lexer_next-int_literal lex true c digits rest at (h, all) ends =
      token_here lex b'-' (c ∷ digits ++ rest) refl at
      ∙ (rw (lex_token_minus lex.pos c digits rest (h, all) ends) refl)
  lexer_next-int_literal lex false c digits rest at ((low, high), all) ends =
      token_here lex c (digits ++ rest) (ground arith) at
      ∙ (rw (lex_token_lem lex.pos c digits rest ((low, high), all) ends) refl)

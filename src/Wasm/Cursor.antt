-- ===== src/Wasm/Cursor.antt =====
-- The cursor of src/wasm_decode.c and its readers.
-- A reader is a function of the cursor; `none` is a read behind the end of the input, which C
-- leaves undefined. An offset is a `size_t` and wraps at 2 ^ 64.
use liric.Base.{ℕ, zero, suc, ◌+◌, List, [], ◌∷◌, Option, none, some, Bool, true, false}
use liric.Base.{ltb, leb, if◌then◌else◌, u64, sub64, get_elem?, drop, take, length, bit_or, ◌<<<◌}
use liric.Wasm.Leb.{Leb, fault, malformed, value, read_leb_u32, read_leb_i32, read_leb_i64}

-- The texts that `cur_err` is called with.
pub data Message : Type 0 where
  invalid_magic unsupported_version expected_functype unknown_import_kind : Message
  expected_end_init expected_end_offset : Message

-- `err` is the message and the offset that were written to the caller's buffer last.
pub record Cursor : Type 0 where
  pub bytes : List ℕ
  pub len : ℕ
  pub pos : ℕ
  pub failed : Bool
  pub err : Option (Message × ℕ)

abbrev pub Reader : Type 0 → Type 0
Reader A = Cursor → Option (A × Cursor)

infixl 5 ◌>>=◌ ◌>>◌
abbrev pub ◌>>=◌ : {A B : Type 0} → Reader A → (A → Reader B) → Reader B
◌>>=◌ m f c = elim (m c) [ none ↦ none | some (a, c') ↦ f a c' ]

abbrev pub ◌>>◌ : {A B : Type 0} → Reader A → Reader B → Reader B
m >> k = m >>= λ _. k

abbrev pub return : {A : Type 0} → A → Reader A
return a c = some (a, c)

abbrev pub fail_with : {A : Type 0} → A → Reader A
fail_with a c = some (a, record c { failed = true })

abbrev pub advance : {A : Type 0} → A → ℕ → Reader A
advance a n c = some (a, record c { pos = u64 (c.pos + n) })

-- `if (c->failed) return a;`
abbrev pub unless_failed : {A : Type 0} → A → Reader A → Reader A
unless_failed a m c = elim c.failed [ true ↦ some (a, c) | false ↦ m c ]

unfoldable pub cur_u8 : Reader ℕ
cur_u8 c =
    if leb c.len c.pos
    then fail_with 0 c
    else elim (get_elem? c.bytes c.pos) [ none ↦ none | some b ↦ advance b 1 c ]

-- `if (n == 0) { c->failed = true; return 0; } c->pos += n; return val;`
abbrev pub take_leb : Leb → Reader ℕ
take_leb fault c = none
take_leb malformed c = fail_with 0 c
take_leb (value v n) c = advance v n c

-- What the three LEB128 readers of the cursor share.
abbrev pub cur_leb : (List ℕ → ℕ → Leb) → Reader ℕ
cur_leb read c = take_leb (read (drop c.pos c.bytes) (sub64 c.len c.pos)) c

unfoldable pub cur_u32 : Reader ℕ
cur_u32 = cur_leb read_leb_u32

unfoldable pub cur_i32 : Reader ℕ
cur_i32 = cur_leb read_leb_i32

unfoldable pub cur_i64 : Reader ℕ
cur_i64 = cur_leb read_leb_i64

abbrev pub le_word : ℕ → ℕ → ℕ → ℕ → ℕ
le_word b0 b1 b2 b3 = bit_or (bit_or (bit_or b0 (b1 <<< 8)) (b2 <<< 16)) (b3 <<< 24)

abbrev pub byte_at : ℕ → Reader ℕ
byte_at p c = elim (get_elem? c.bytes p) [ none ↦ none | some b ↦ some (b, c) ]

unfoldable pub cur_u32_le : Reader ℕ
cur_u32_le c =
    if ltb c.len (u64 (c.pos + 4))
    then fail_with 0 c
    else (do
      b0 ← byte_at c.pos
      b1 ← byte_at (c.pos + 1)
      b2 ← byte_at (c.pos + 2)
      b3 ← byte_at (c.pos + 3)
      advance (le_word b0 b1 b2 b3) 4)
        c

-- The pointer is an offset into the input; `none` is NULL.
unfoldable pub cur_bytes : ℕ → Reader (Option ℕ)
cur_bytes n c = if ltb c.len (u64 (c.pos + n)) then fail_with none c else advance (some c.pos) n c

-- `lr_arena_strdup` copies the bytes, and so reads all of them.
abbrev pub copy_bytes : ℕ → ℕ → Reader (Option (List ℕ))
copy_bytes p n c =
    if leb (p + n) (length c.bytes) then some (some (take n (drop p c.bytes)), c) else none

abbrev pub copy_name : ℕ → Option ℕ → Reader (Option (List ℕ))
copy_name n none = return none
copy_name n (some p) = copy_bytes p n

unfoldable pub cur_name : Reader (Option (List ℕ))
unfolding cur_u32 cur_bytes
cur_name = do n ← cur_u32; unless_failed none (do p ← cur_bytes n; copy_name n p)

unfoldable pub cur_err : Message → Reader (Unit {0})
cur_err msg c = some (tt, record c { err = some (msg, c.pos); failed = true })

-- `for (i = 0; i < count && !c->failed; i++)`, with what each round leaves in entry `i`.
unfoldable pub each : {A : Type 0} → ℕ → Reader A → Reader (List A)
each zero item = return []
each (suc n) item = unless_failed [] (do a ← item; rest ← each n item; return (a ∷ rest))

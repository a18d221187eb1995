-- ===== src/Wasm/Safety.antt =====
-- Readers that stay inside the input: a rule for each reader and each way of composing them.
use liric.Base.{ℕ, zero, suc, ◌+◌, ◌^◌, ◌≤◌, ◌<◌, ◌≡◌, refl, ◌∙◌, arith, Bool-cases}
use liric.Base.{List, [], ◌∷◌, Option, none, some, Bool, true, false, inl, inr, leb, ltb}
use liric.Base.{All, length, drop, take, length-drop, get_elem?_lt, u64, sub64, if◌then◌else◌}
use liric.Wasm.Leb.{Leb, fault, malformed, value, read_leb_u32, read_leb_i32, read_leb_i64}
use liric.Wasm.Leb.Unsigned.{StoresU32, read_leb_u32_bounds}
use liric.Wasm.Leb.Bounds.{ReadsWithin, read_leb_i32-ReadsWithin, read_leb_i64-ReadsWithin}
use liric.Wasm.Cursor.{Cursor, Reader, ◌>>=◌, return, unless_failed, each, cur_u8, cur_leb}
use liric.Wasm.Cursor.{
  cur_u32, cur_i32, cur_i64, cur_bytes, cur_name, cur_err, Message, fail_with, advance, copy_name,
  take_leb,
}

-- The cursor stands inside the input, which is an object of at most 2 ^ 63 bytes.
pub record Placed (c : Cursor) : Type 0 where
  pub ahead : c.pos ≤ c.len
  pub inside : c.len ≤ length c.bytes
  pub small : length c.bytes < 2 ^ 63
  pub octets : All (λ b. b < 256) c.bytes

-- The cursor `c'` is `c` moved on within the same bounds.
pub record Moved (c c' : Cursor) : Type 0 where
  pub same_bytes : c'.bytes ≡ c.bytes
  pub same_len : c'.len ≡ c.len
  pub onwards : c.pos ≤ c'.pos
  pub within : c'.pos ≤ c'.len

-- No read behind the end; the value meets `P`, and the cursor has moved on within its bounds.
abbrev pub Kept : {A : Type 0} → (A → Type 0) → Cursor → Option (A × Cursor) → Type 0
Kept P c none = ⊥
Kept P c (some (a, c')) = P a × Moved c c'

abbrev pub Safe : {A : Type 0} → (A → Type 0) → Reader A → Type 0
Safe P m = (c : Cursor) → Placed c → Kept P c (m c)

abbrev pub Any : {A : Type 0} → A → Type 0
Any a = Unit {0}

pub Placed-Moved : {c c' : Cursor} → Placed c → Moved c c' → Placed c'
Placed-Moved p m = record {
  ahead = m.within;
  inside = rw (m.same_len, m.same_bytes) p.inside;
  small = rw m.same_bytes p.small;
  octets = rw m.same_bytes p.octets;
}

pub Moved-trans : {a b c : Cursor} → Moved a b → Moved b c → Moved a c
Moved-trans p q = record {
  same_bytes = q.same_bytes ∙ p.same_bytes;
  same_len = q.same_len ∙ p.same_len;
  onwards = omega arith;
  within = q.within;
}

pub Moved-refl : {c : Cursor} → Placed c → Moved c c
Moved-refl p = record {
  same_bytes = refl;
  same_len = refl;
  onwards = omega arith;
  within = p.ahead;
}

pub Kept-Moved :
    {A : Type 0} (P : A → Type 0) {c c' : Cursor} (r : Option (A × Cursor))
    → Moved c c'
    → Kept P c' r
    → Kept P c r
Kept-Moved P none m k = k
Kept-Moved P (some (a, d)) m (p, k) = (p, Moved-trans m k)

module _ {A B : Type 0} (P : A → Type 0) (Q : B → Type 0) where
  pub Safe->>= :
      (m : Reader A) (f : A → Reader B)
      → Safe P m
      → ((a : A) → P a → Safe Q (f a))
      → Safe Q (m >>= f)
  Safe->>= m f sm sf c p = go (m c) (sm c p)
    where
      go :
          (r : Option (A × Cursor))
          → Kept P c r
          → Kept Q c (elim r [ none ↦ none | some (a, c') ↦ f a c' ])
      go none k = k
      go (some (a, c')) (h, k) = Kept-Moved Q (f a c') k (sf a h c' (Placed-Moved p k))

pub Safe-return : {A : Type 0} (a : A) → Safe Any (return a)
Safe-return a c p = (tt, Moved-refl p)

pub Safe-if :
    {A : Type 0} (P : A → Type 0) (b : Bool) (m k : Reader A)
    → Safe P m
    → Safe P k
    → Safe P (if b then m else k)
Safe-if P true m k h g = h
Safe-if P false m k h g = g

pub Safe-unless_failed :
    {A : Type 0} (a : A) (m : Reader A) → Safe Any m → Safe Any (unless_failed a m)
Safe-unless_failed a m h c p = go c.failed
  where
    go : (b : Bool) → Kept Any c (elim b [ true ↦ some (a, c) | false ↦ m c ])
    go true = (tt, Moved-refl p)
    go false = h c p

pub cur_err-Safe : (msg : Message) → Safe Any (cur_err msg)
unfolding cur_err
cur_err-Safe msg c p =
    (tt, record { same_bytes = refl; same_len = refl; onwards = omega arith; within = p.ahead })

fail_with-Kept :
    {A : Type 0} (P : A → Type 0) (a : A) (c : Cursor) → Placed c → P a → Kept P c (fail_with a c)
fail_with-Kept P a c p h =
    (h, record { same_bytes = refl; same_len = refl; onwards = omega arith; within = p.ahead })

advance-Kept :
    {A : Type 0} (P : A → Type 0) (a : A) (n : ℕ) (c : Cursor)
    → Placed c
    → P a
    → c.pos + n ≤ c.len
    → Kept P c (advance a n c)
advance-Kept P a n c p h fits = (
  h,
  record {
    same_bytes = refl;
    same_len = refl;
    onwards = omega (arith, p.inside, p.small);
    within = omega (arith, p.inside, p.small);
  },
)

pub cur_u8-Safe : Safe Any cur_u8
unfolding cur_u8
cur_u8-Safe c p = elim (Bool-cases (leb c.len c.pos)) [
  | inl e ↦ rw e (fail_with-Kept {A = ℕ} Any 0 c p tt)
  | inr e ↦
      let more : c.pos < c.len = ground arith in
      let (b, q) = get_elem?_lt c.bytes c.pos (omega (arith, p.inside)) in
      rw (e, q) (advance-Kept {A = ℕ} Any b 1 c p tt (omega arith))
]

pub All-drop {ℓ κ} :
    {A : Type ℓ} (P : A → Type κ) (n : ℕ) (xs : List A) → All P xs → All P (drop n xs)
All-drop P zero xs h = h
All-drop P (suc n) [] h = h
All-drop P (suc n) (x ∷ xs) (p, h) = All-drop P n xs h

pub rest_length : (c : Cursor) → Placed c → sub64 c.len c.pos ≤ length (drop c.pos c.bytes)
rest_length c p = omega (arith, length-drop c.pos c.bytes, p.ahead, p.inside, p.small)

abbrev pub IsU32 : ℕ → Type 0
IsU32 v = v < 2 ^ 32

pub cur_u32-Safe : Safe IsU32 cur_u32
unfolding cur_u32
cur_u32-Safe c p =
    go (read_leb_u32 (drop c.pos c.bytes) (sub64 c.len c.pos))
      (read_leb_u32_bounds _ _ (All-drop (λ b. b < 256) c.pos c.bytes p.octets) (rest_length c p))
  where
    go : (r : Leb) → StoresU32 (sub64 c.len c.pos) r → Kept {A = ℕ} IsU32 c (take_leb r c)
    go fault h = h
    go malformed h = fail_with-Kept IsU32 0 c p (omega arith)
    go (value v n) (fits, _, _, k) =
        advance-Kept IsU32 v n c p fits (omega (arith, p.ahead, p.inside, p.small))

signed-Safe :
    (read : List ℕ → ℕ → Leb)
    → ((buf : List ℕ) (len : ℕ) → len ≤ length buf → ReadsWithin len (read buf len))
    → Safe Any (cur_leb read)
signed-Safe read h c p =
    go (read (drop c.pos c.bytes) (sub64 c.len c.pos)) (h _ _ (rest_length c p))
  where
    go : (r : Leb) → ReadsWithin (sub64 c.len c.pos) r → Kept {A = ℕ} Any c (take_leb r c)
    go fault h = h
    go malformed h = fail_with-Kept {A = ℕ} Any 0 c p tt
    go (value v n) k =
        advance-Kept {A = ℕ} Any v n c p tt (omega (arith, p.ahead, p.inside, p.small))

pub cur_i32-Safe : Safe Any cur_i32
unfolding cur_i32
cur_i32-Safe = signed-Safe read_leb_i32 read_leb_i32-ReadsWithin

pub cur_i64-Safe : Safe Any cur_i64
unfolding cur_i64
cur_i64-Safe = signed-Safe read_leb_i64 read_leb_i64-ReadsWithin

pub cur_bytes-Safe : (n : ℕ) → n < 2 ^ 32 → Safe Any (cur_bytes n)
unfolding cur_bytes
cur_bytes-Safe n h c p = elim (Bool-cases (ltb c.len (u64 (c.pos + n)))) [
  | inl e ↦ rw e (fail_with-Kept {A = Option ℕ} Any none c p tt)
  | inr e ↦ rw e (
      advance-Kept {A = Option ℕ} Any (some c.pos) n c p tt
        (ground (arith, p.ahead, p.inside, p.small)))
]

-- The string is copied from where `cur_bytes` stood.
copy-Safe : (n : ℕ) → n < 2 ^ 32 → Safe Any (do p ← cur_bytes n; copy_name n p)
unfolding cur_bytes
copy-Safe n h c p = elim (Bool-cases (ltb c.len (u64 (c.pos + n)))) [
  | inl e ↦ rw (e, ◌>>=◌) (fail_with-Kept {A = Option (List ℕ)} Any none c p tt)
  | inr e ↦
      let fits : c.pos + n ≤ c.len = ground (arith, p.ahead, p.inside, p.small) in
      let held : leb (c.pos + n) (length c.bytes) ≡ true = ground (arith, p.inside) in
      rw (e, held, ◌>>=◌)
        (advance-Kept {A = Option (List ℕ)} Any (some (take n (drop c.pos c.bytes))) n c p tt fits)
]

pub cur_name-Safe : Safe Any cur_name
unfolding cur_name
cur_name-Safe =
    Safe->>= IsU32 Any cur_u32 _ cur_u32-Safe (λ n h. Safe-unless_failed none _ (copy-Safe n h))

pub each-Safe :
    {A : Type 0} (P : A → Type 0) (n : ℕ) (item : Reader A) → Safe P item → Safe Any (each n item)
unfolding each
each-Safe {A} P zero item h = Safe-return {A = List A} []
each-Safe P (suc n) item h = Safe-unless_failed [] _ (
    Safe->>= P Any item _ h (λ a _.
      Safe->>= Any Any (each n item) _ (each-Safe P n item h) (λ rest _. Safe-return (a ∷ rest))))

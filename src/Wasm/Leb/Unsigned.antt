-- ===== src/Wasm/Leb/Unsigned.antt =====
-- `lr_wasm_read_leb_u32` of src/wasm_decode.c beside the format it reads.
use liric.Base.{ℕ, zero, suc, ◌+◌, ◌*◌, ◌/◌, ◌%◌, ◌^◌, ◌≤◌, ◌<◌, ◌≡◌, refl, ◌∙◌, arith}
use Prim.Native.Nat.{min}
use native.Mathlib.Numerals.{towards_suc}
use native.Mathlib.Decide.{dec_lt}
use liric.Base.{ap, Option-cases, inl, inr}
use liric.Base.{Option, none, some, List, [], ◌∷◌, ◌++◌, length, All, ltb, if◌then◌else◌}
use liric.Base.Bits.{bit_or_shifted, bit_and_mask, bit_and_single}
use liric.Wasm.Leb.{Leb, fault, malformed, value, leb_u32_loop, read_leb_u32, add_group32}

-- Either nothing is stored, or a `uint32_t` is, and 1 to 5 bytes of the buffer were read.
abbrev pub StoresU32 : ℕ → Leb → Type 0
StoresU32 len fault = ⊥
StoresU32 len malformed = Unit {0}
StoresU32 len (value v n) = (v < 2 ^ 32) × (1 ≤ n) × (n ≤ 5) × (n ≤ len)

-- A group that is joined to the bits below it is added, and cut to 32 bits.
pub add_group32-sum :
    (j result b : ℕ)
    → j < 5
    → result < 2 ^ (7 * j)
    → add_group32 result b (7 * j) ≡ (result + b % 128 * 2 ^ (7 * j)) % 2 ^ 32
add_group32-sum zero result b hj hr =
    rw (bit_and_mask 7 b) (bit_or_shifted 0 (b % 128) result _ hr (omega arith) ∙ omega arith)
add_group32-sum (suc zero) result b hj hr =
    rw (bit_and_mask 7 b) (bit_or_shifted 7 (b % 128) result _ hr (omega arith) ∙ omega arith)
add_group32-sum (suc (suc zero)) result b hj hr =
    rw (bit_and_mask 7 b) (bit_or_shifted 14 (b % 128) result _ hr (omega arith) ∙ omega arith)
add_group32-sum (suc (suc (suc zero))) result b hj hr =
    rw (bit_and_mask 7 b) (bit_or_shifted 21 (b % 128) result _ hr (omega arith) ∙ omega arith)
add_group32-sum (suc (suc (suc (suc zero)))) result b hj hr =
    rw (bit_and_mask 7 b) (bit_or_shifted 28 (b % 16) result _ hr (omega arith) ∙ omega arith)
add_group32-sum (suc (suc (suc (suc (suc j))))) result b hj hr = absurd (omega arith)

abbrev pub more_groups : ℕ → Option (ℕ × ℕ) → Option (ℕ × ℕ)
more_groups b none = none
more_groups b (some (v, n)) = some (b % 128 + 128 * v, n + 1)

-- The terminated group sequence at the front of the first `k` bytes, as a number and a byte
-- count: LEB128 with no word size.
abbrev pub leb_groups : ℕ → List ℕ → Option (ℕ × ℕ)
leb_groups zero bs = none
leb_groups (suc k) [] = none
leb_groups (suc k) (b ∷ bs) = if ltb b 128 then some (b, 1) else more_groups b (leb_groups k bs)

abbrev pub answer_u32 : Option (ℕ × ℕ) → Leb
answer_u32 none = malformed
answer_u32 (some (v, n)) = value (v % 2 ^ 32) n

abbrev join_u32 : ℕ → ℕ → Option (ℕ × ℕ) → Leb
join_u32 j result none = malformed
join_u32 j result (some (v, n)) = value ((result + v * 2 ^ (7 * j)) % 2 ^ 32) (j + n)

pub pow_seven : (j : ℕ) → 2 ^ (7 * (j + 1)) ≡ 128 * 2 ^ (7 * j)
pow_seven j =
    let e : 7 * (j + 1) ≡ 7 * j + 7 = omega arith in
    ap (λ (t : ℕ). 2 ^ t) e ∙ simp towards_suc (omega arith)

module _ (j len result b : ℕ) (buf : List ℕ) (small : b < 256) (inside : j < len) where
  loop_stop :
      b < 128
      → leb_u32_loop (b ∷ buf) len j result (7 * j) ≡ value (add_group32 result b (7 * j)) (j + 1)
  unfolding leb_u32_loop
  loop_stop h = ground (arith, bit_and_single 7 b)

  loop_overflow : 128 ≤ b → j ≡ 4 → leb_u32_loop (b ∷ buf) len j result (7 * j) ≡ malformed
  unfolding leb_u32_loop
  loop_overflow h e = ground (arith, bit_and_single 7 b)

  loop_go :
      128 ≤ b
      → j < 4
      → leb_u32_loop (b ∷ buf) len j result (7 * j)
        ≡ leb_u32_loop buf len (j + 1) (add_group32 result b (7 * j)) (7 * j + 7)
  unfolding leb_u32_loop
  loop_go h e = ground (arith, bit_and_single 7 b)

-- One more group shifts what is still to come by seven bits.
join_more :
    (j result b : ℕ) (r : Option (ℕ × ℕ))
    → j < 5
    → result < 2 ^ (7 * j)
    → join_u32 (j + 1) (add_group32 result b (7 * j)) r ≡ join_u32 j result (more_groups b r)
join_more j result b none hj hr = refl
join_more j result b (some (v, n)) hj hr =
    ground (arith, add_group32-sum j result b, pow_seven j, ap (λ (t : ℕ). v * t) (pow_seven j))

pub group_le : (b p : ℕ) → b % 128 * p ≤ 127 * p
group_le b p = let h : b % 128 ≤ 127 = omega arith in grind arith

leb_u32_loop-groups :
    (k j len result : ℕ) (buf : List ℕ)
    → All (λ b. b < 256) buf
    → j < 5
    → j + k ≡ min 5 len
    → len ≤ j + length buf
    → result < 2 ^ (7 * j)
    → leb_u32_loop buf len j result (7 * j) ≡ join_u32 j result (leb_groups k buf)
leb_u32_loop-groups zero j len result [] bytes hj hk hl hr = unfold leb_u32_loop in ground arith
leb_u32_loop-groups zero j len result (b ∷ buf) bytes hj hk hl hr =
    unfold leb_u32_loop in ground arith
leb_u32_loop-groups (suc k) j len result [] bytes hj hk hl hr = absurd (omega arith)
leb_u32_loop-groups (suc k) j len result (b ∷ buf) (small, bytes) hj hk hl hr =
    elim (dec_lt b 128) [
      | yes p ↦
          loop_stop j len result b buf small (omega arith) p
          ∙ ground (arith, add_group32-sum j result b)
      | no p ↦ elim (dec_lt j 4) [
        | yes q ↦
            loop_go j len result b buf small (omega arith) (omega arith) q
            ∙ ap (leb_u32_loop buf len (j + 1) (add_group32 result b (7 * j))) (omega arith)
            ∙ leb_u32_loop-groups k (j + 1) len (add_group32 result b (7 * j)) buf bytes
                (omega arith) (omega arith) (omega arith)
                (omega
                  (arith, add_group32-sum j result b hj hr, pow_seven j, group_le b (2 ^ (7 * j))))
            ∙ join_more j result b (leb_groups k buf) hj hr
            ∙ ground arith
        | no q ↦
            let z : k ≡ 0 = omega arith in
            loop_overflow j len result b buf small (omega arith) (omega arith) (omega arith)
            ∙ rw z (ground arith)
      ]
    ]

-- On a buffer of at least `len` bytes `lr_wasm_read_leb_u32` reads the terminated group sequence
-- at the front of its first min(5, len) bytes and stores its number cut to 32 bits with its byte
-- count, and it returns 0 where there is none.
pub read_leb_u32-groups :
    (buf : List ℕ) (len : ℕ)
    → All (λ b. b < 256) buf
    → len ≤ length buf
    → read_leb_u32 buf len ≡ answer_u32 (leb_groups (min 5 len) buf)
unfolding read_leb_u32
read_leb_u32-groups buf len bytes h =
    leb_u32_loop-groups (min 5 len) 0 len 0 buf bytes (omega arith) (omega arith) (omega arith)
      (omega arith)
    ∙ answer_join (leb_groups (min 5 len) buf)
  where
    answer_join : (r : Option (ℕ × ℕ)) → join_u32 0 0 r ≡ answer_u32 r
    answer_join none = refl
    answer_join (some (v, n)) = ground arith

pub leb_groups_count :
    (k : ℕ) (buf : List ℕ) {v n : ℕ} → leb_groups k buf ≡ some (v, n) → (1 ≤ n) × (n ≤ k)
leb_groups_count zero buf e = cc
leb_groups_count (suc k) [] e = cc
leb_groups_count (suc k) (b ∷ buf) {v} {n} e = elim (Option-cases (leb_groups k buf)) [
  | inl q ↦ ground arith
  | inr ((w, m), q) ↦ ground (arith, leb_groups_count k buf q)
]

-- On a buffer of at least `len` bytes `lr_wasm_read_leb_u32` reads no byte behind it, and it
-- returns 0 or stores a number below 2 ^ 32 and returns 1 to 5, at most `len`.
pub read_leb_u32_bounds :
    (buf : List ℕ) (len : ℕ)
    → All (λ b. b < 256) buf
    → len ≤ length buf
    → StoresU32 len (read_leb_u32 buf len)
read_leb_u32_bounds buf len bytes h = rw (read_leb_u32-groups buf len bytes h) (stores _ refl)
  where
    stores : (r : Option (ℕ × ℕ)) → leb_groups (min 5 len) buf ≡ r → StoresU32 len (answer_u32 r)
    stores none e = tt
    stores (some (v, n)) e = omega (arith, leb_groups_count (min 5 len) buf e)

-- The LEB128 encoding of a number in at most `k + 1` bytes, as the WebAssembly format has it.
abbrev pub encode_u32 : ℕ → ℕ → List ℕ
encode_u32 zero v = v ∷ []
encode_u32 (suc k) v =
    let rest = encode_u32 k (v / 128) in if ltb v 128 then v ∷ [] else (v % 128 + 128) ∷ rest

encode_u32-IsByte : (k v : ℕ) → v < 128 ^ suc k → All (λ b. b < 256) (encode_u32 k v)
encode_u32-IsByte zero v h = omega arith
encode_u32-IsByte (suc k) v h = ground (arith, encode_u32-IsByte k (v / 128) (omega arith))

length-encode_u32 : (k v : ℕ) → (1 ≤ length (encode_u32 k v)) × (length (encode_u32 k v) ≤ k + 1)
length-encode_u32 zero v = omega arith
length-encode_u32 (suc k) v = ground (arith, length-encode_u32 k (v / 128))

append-All :
    (bs rest : List ℕ)
    → All (λ b. b < 256) bs
    → All (λ b. b < 256) rest
    → All (λ b. b < 256) (bs ++ rest)
append-All [] rest none_before after = after
append-All (b ∷ bs) rest (small, before) after = (small, append-All bs rest before after)

leb_groups-encode :
    (k limit v : ℕ) (rest : List ℕ)
    → v < 128 ^ suc k
    → length (encode_u32 k v) ≤ limit
    → leb_groups limit (encode_u32 k v ++ rest) ≡ some (v, length (encode_u32 k v))
leb_groups-encode k zero v rest h l = absurd (omega (arith, length-encode_u32 k v))
leb_groups-encode zero (suc limit) v rest h l = ground arith
leb_groups-encode (suc k) (suc limit) v rest h l =
    ground (arith, leb_groups-encode k limit (v / 128) rest)

-- Reading the LEB128 encoding of a number below 2 ^ 32 gives the number and the encoding's length,
-- whatever bytes follow it, where the claimed length covers the encoding and is covered by the
-- buffer.
pub read_leb_u32-encode :
    (v len : ℕ) (rest : List ℕ)
    → v < 2 ^ 32
    → All (λ b. b < 256) rest
    → length (encode_u32 4 v) ≤ len
    → len ≤ length (encode_u32 4 v ++ rest)
    → read_leb_u32 (encode_u32 4 v ++ rest) len ≡ value v (length (encode_u32 4 v))
read_leb_u32-encode v len rest h bytes lo hi =
    read_leb_u32-groups (encode_u32 4 v ++ rest) len
      (append-All (encode_u32 4 v) rest (encode_u32-IsByte 4 v (omega arith)) bytes) hi
    ∙ ap answer_u32 (
        leb_groups-encode 4 (min 5 len) v rest (omega arith) (omega (arith, length-encode_u32 4 v)))
    ∙ fits
  where
    fits : answer_u32 (some (v, length (encode_u32 4 v))) ≡ value v (length (encode_u32 4 v))
    fits = ground arith

-- ===== src/Wasm/Leb/Signed.antt =====
-- `lr_wasm_read_leb_i32` of src/wasm_decode.c: sign extension, and unterminated numbers.
use Prim.Native.Nat.{min}
use native.Mathlib.Decide.{dec_lt}
use liric.Base.{
  ℕ, zero, suc, ◌+◌, ◌-◌, ◌*◌, ◌%◌, ◌^◌, ◌≤◌, ◌<◌, ◌≡◌, ◌∙◌, ap, sym, arith, Option-cases, inl, inr,
}
use mathlib.Core.Path.{ap₂}
use liric.Base.{List, [], ◌∷◌, Option, none, some, length, All, ltb, leb, ◌&&◌, if◌then◌else◌}
use liric.Base.Bits.{bit_or_shifted, bit_and_single}
use liric.Wasm.Leb.{Leb, malformed, value, leb_i32_loop, read_leb_i32, read_leb_u32, add_group32}
use liric.Wasm.Leb.{finish_i32, minus_one_shl32}
use liric.Base.{bit_and, bit_or, not, ◌==◌, refl}
use liric.Wasm.Leb.Unsigned.{
  add_group32-sum, pow_seven, group_le, leb_groups, more_groups, leb_groups_count,
}
use liric.Wasm.Leb.Unsigned.{read_leb_u32-groups, answer_u32}

-- The 32-bit pattern of the signed number that `n` groups of seven bits hold.
abbrev pub sign_extend_groups : ℕ → ℕ → ℕ
sign_extend_groups n v =
    if ltb n 5 && leb (2 ^ (7 * n - 1)) v then v + 2 ^ 32 - 2 ^ (7 * n) else v % 2 ^ 32

-- The last of `j + 1` groups is `b`, and `result` has the bits below it.
finish_group :
    (j result b : ℕ)
    → j < 5
    → result < 2 ^ (7 * j)
    → b < 128
    → finish_i32 (j + 1) b (add_group32 result b (7 * j)) (7 * j + 7)
      ≡ value (sign_extend_groups (j + 1) (result + b * 2 ^ (7 * j))) (j + 1)
finish_group zero result b hj hr hb = ground (
  arith,
  add_group32-sum 0 result b,
  bit_and_single 6 b,
  bit_or_shifted 7 (2 ^ 25 - 1) (add_group32 result b 0) (2 ^ 32 - 2 ^ 7),
)
finish_group (suc zero) result b hj hr hb = ground (
  arith,
  add_group32-sum 1 result b,
  bit_and_single 6 b,
  bit_or_shifted 14 (2 ^ 18 - 1) (add_group32 result b 7) (2 ^ 32 - 2 ^ 14),
)
finish_group (suc (suc zero)) result b hj hr hb = ground (
  arith,
  add_group32-sum 2 result b,
  bit_and_single 6 b,
  bit_or_shifted 21 (2 ^ 11 - 1) (add_group32 result b 14) (2 ^ 32 - 2 ^ 21),
)
finish_group (suc (suc (suc zero))) result b hj hr hb = ground (
  arith,
  add_group32-sum 3 result b,
  bit_and_single 6 b,
  bit_or_shifted 28 (2 ^ 4 - 1) (add_group32 result b 21) (2 ^ 32 - 2 ^ 28),
)
finish_group (suc (suc (suc (suc zero)))) result b hj hr hb =
    ground (arith, add_group32-sum 4 result b)
finish_group (suc (suc (suc (suc (suc j))))) result b hj hr hb = absurd (omega arith)

module _ (j len last result b : ℕ) (buf : List ℕ) (small : b < 256) (inside : j < len) where
  loop_stop :
      b < 128
      → leb_i32_loop (b ∷ buf) len j last result (7 * j)
        ≡ finish_i32 (j + 1) b (add_group32 result b (7 * j)) (7 * j + 7)
  unfolding leb_i32_loop
  loop_stop h = ground (arith, bit_and_single 7 b)

  loop_overflow : 128 ≤ b → j ≡ 4 → leb_i32_loop (b ∷ buf) len j last result (7 * j) ≡ malformed
  unfolding leb_i32_loop
  loop_overflow h e = ground (arith, bit_and_single 7 b)

  loop_go :
      128 ≤ b
      → j < 4
      → leb_i32_loop (b ∷ buf) len j last result (7 * j)
        ≡ leb_i32_loop buf len (j + 1) b (add_group32 result b (7 * j)) (7 * j + 7)
  unfolding leb_i32_loop
  loop_go h e = ground (arith, bit_and_single 7 b)

-- What the loop makes of a terminated sequence after `j` groups with the value `result`.
abbrev join_i32 : ℕ → ℕ → Option (ℕ × ℕ) → Leb
join_i32 j result none = malformed
join_i32 j result (some (v, n)) =
    value (sign_extend_groups (j + n) (result + v * 2 ^ (7 * j))) (j + n)

pow_bound : (j : ℕ) → j < 4 → 2 ^ (7 * j) ≤ 2 ^ 21
pow_bound zero h = omega arith
pow_bound (suc zero) h = omega arith
pow_bound (suc (suc zero)) h = omega arith
pow_bound (suc (suc (suc zero))) h = omega arith
pow_bound (suc (suc (suc (suc j)))) h = absurd (omega arith)

same_value :
    (m m' w w' : ℕ)
    → m ≡ m'
    → w ≡ w'
    → value (sign_extend_groups m w) m ≡ value (sign_extend_groups m' w') m'
same_value m m' w w' p q = ap₂ (λ (m w : ℕ). value (sign_extend_groups m w) m) p q

join_more :
    (j result b v n : ℕ)
    → j < 4
    → result < 2 ^ (7 * j)
    → join_i32 (j + 1) (add_group32 result b (7 * j)) (some (v, n))
      ≡ join_i32 j result (more_groups b (some (v, n)))
join_more j result b v n hj hr =
    same_value (j + 1 + n) (j + (n + 1)) (add_group32 result b (7 * j) + v * 2 ^ (7 * (j + 1)))
      (result + (b % 128 + 128 * v) * 2 ^ (7 * j)) (omega arith)
      (omega (
        arith,
        add_group32-sum j result b (omega arith) hr,
        pow_bound j hj,
        pow_seven j,
        group_le b (2 ^ (7 * j)),
        ap (λ (t : ℕ). v * t) (pow_seven j),
      ))

last_group :
    (k b v n : ℕ) (buf : List ℕ)
    → b < 128
    → leb_groups (suc k) (b ∷ buf) ≡ some (v, n)
    → (b ≡ v) × (1 ≡ n)
last_group k b v n buf p e = ground arith

inner_group :
    (k b v n : ℕ) (buf : List ℕ)
    → ¬ (b < 128)
    → leb_groups (suc k) (b ∷ buf) ≡ some (v, n)
    → (w : ℕ) × (m : ℕ) × (leb_groups k buf ≡ some (w, m))
      × (some (v, n) ≡ more_groups b (some (w, m)))
inner_group k b v n buf p e = elim (Option-cases (leb_groups k buf)) [
  | inl q ↦ absurd (ground arith)
  | inr ((w, m), q) ↦ (w, m, q, ground arith)
]

leb_i32_loop-groups :
    (k j len last result v n : ℕ) (buf : List ℕ)
    → All (λ b. b < 256) buf
    → j < 5
    → j + k ≡ min 5 len
    → result < 2 ^ (7 * j)
    → leb_groups k buf ≡ some (v, n)
    → leb_i32_loop buf len j last result (7 * j) ≡ join_i32 j result (some (v, n))
leb_i32_loop-groups zero j len last result v n buf bytes hj hk hr e = absurd (cc)
leb_i32_loop-groups (suc k) j len last result v n [] bytes hj hk hr e = absurd (cc)
leb_i32_loop-groups (suc k) j len last result v n (b ∷ buf) (small, bytes) hj hk hr e =
    elim (dec_lt b 128) [
      | yes p ↦
          let (ev, en) = last_group k b v n buf p e in
          loop_stop j len last result b buf small (omega arith) p
          ∙ finish_group j result b hj hr p
          ∙ ap₂ (λ (w m : ℕ). value (sign_extend_groups (j + m) (result + w * 2 ^ (7 * j))) (j + m))
              ev en
      | no p ↦
          let (w, m, q, eq) = inner_group k b v n buf p e in
          let more : 0 < k = omega (arith, leb_groups_count k buf q) in
          loop_go j len last result b buf small (omega arith) (omega arith) (omega arith)
          ∙ ap (leb_i32_loop buf len (j + 1) b (add_group32 result b (7 * j))) (omega arith)
          ∙ leb_i32_loop-groups k (j + 1) len b (add_group32 result b (7 * j)) w m buf bytes
              (omega arith) (omega arith)
              (omega
                (arith, add_group32-sum j result b hj hr, pow_seven j, group_le b (2 ^ (7 * j))))
              q
          ∙ join_more j result b w m (omega arith) hr
          ∙ ap (join_i32 j result) (sym eq)
    ]

-- Where the first min(5, len) bytes of a buffer of bytes begin with a terminated group sequence,
-- `lr_wasm_read_leb_i32` stores its number, sign-extended from its groups to 32 bits, and returns
-- its byte count.
pub read_leb_i32-groups :
    (buf : List ℕ) (len v n : ℕ)
    → All (λ b. b < 256) buf
    → leb_groups (min 5 len) buf ≡ some (v, n)
    → read_leb_i32 buf len ≡ value (sign_extend_groups n v) n
unfolding read_leb_i32
read_leb_i32-groups buf len v n bytes e =
    leb_i32_loop-groups (min 5 len) 0 len 0 0 v n buf bytes (omega arith) (omega arith)
      (omega arith) e
    ∙ same_value (0 + n) n (0 + v * 2 ^ (7 * 0)) v (omega arith) (omega arith)

finish_i32-value :
    (i b result shift : ℕ) → 0 < i → (v : ℕ) × (finish_i32 i b result shift ≡ value v i)
finish_i32-value i b result shift h = (
  (if ltb shift 32 && not (bit_and b 0x40 == 0)
      then bit_or result (minus_one_shl32 shift)
      else result),
  ground arith,
)

-- The loop on continuation bytes only: it stores what it has.
leb_i32_loop_unterminated :
    (buf : List ℕ) (j len last result : ℕ)
    → All (λ b. (128 ≤ b) × (b < 256)) buf
    → 0 < len
    → len ≤ 4
    → j + length buf ≡ len
    → (v : ℕ) × (leb_i32_loop buf len j last result (7 * j) ≡ value v len)
leb_i32_loop_unterminated [] j len last result bytes lo hi e =
    let (v, q) = finish_i32-value j last result (7 * j) (omega arith) in
    (v, (unfold leb_i32_loop in ground arith))
leb_i32_loop_unterminated (b ∷ buf) j len last result ((top, small), bytes) lo hi e =
    let next = add_group32 result b (7 * j) in
    let (v, q) = leb_i32_loop_unterminated buf (j + 1) len b next bytes lo hi (omega arith) in
    (
      v,
      loop_go j len last result b buf small (omega arith) top (omega arith)
          ∙ ap (leb_i32_loop buf len (j + 1) b next) (omega arith)
          ∙ q,
    )

leb_groups_unterminated :
    (k : ℕ) (buf : List ℕ) → All (λ b. (128 ≤ b) × (b < 256)) buf → leb_groups k buf ≡ none
leb_groups_unterminated zero buf h = refl
leb_groups_unterminated (suc k) [] h = refl
leb_groups_unterminated (suc k) (b ∷ buf) ((top, small), h) =
    ground (arith, leb_groups_unterminated k buf h)

-- On a buffer of one to four continuation bytes without a last byte the unsigned reader returns 0,
-- and the signed reader stores a number and returns the buffer's length.
pub read_leb_i32_unterminated :
    (buf : List ℕ)
    → All (λ b. (128 ≤ b) × (b < 256)) buf
    → 0 < length buf
    → length buf ≤ 4
    → (read_leb_u32 buf (length buf) ≡ malformed)
      × ((v : ℕ) × (read_leb_i32 buf (length buf) ≡ value v (length buf)))
unfolding read_leb_i32
read_leb_i32_unterminated buf h lo hi = (
  read_leb_u32-groups buf (length buf) (All-map buf h) (omega arith)
      ∙ ap answer_u32 (leb_groups_unterminated (min 5 (length buf)) buf h),
  leb_i32_loop_unterminated buf 0 (length buf) 0 0 h lo hi (omega arith),
)
  where
    All-map : (xs : List ℕ) → All (λ b. (128 ≤ b) × (b < 256)) xs → All (λ b. b < 256) xs
    All-map [] h = tt
    All-map (x ∷ xs) ((p, q), h) = (q, All-map xs h)

-- ===== src/Sha256.antt =====
-- SHA-256 of src/sha256.c and src/sha256.h. A `uint32_t` is a number below 2 ^ 32.
pub mod Absorb
pub mod Streaming
pub mod Digest
mod Tests
use liric.Base.{ℕ, zero, suc, ◌+◌, ◌-◌, ◌*◌, ◌/◌, ◌%◌, ◌^◌, bit_and, bit_or, bit_xor}
use liric.Base.{List, [], ◌∷◌, ◌++◌, length, get_or, take, drop, replicate}
use liric.Base.{Bool, true, false, ltb, leb, ◌==◌, if◌then◌else◌, u8, u32, u64, ◌<<<◌, ◌>>>◌}

-- `K`
abbrev pub round_constants : List ℕ
round_constants =
    0x428a2f98 ∷ 0x71374491 ∷ 0xb5c0fbcf ∷ 0xe9b5dba5 ∷ 0x3956c25b ∷ 0x59f111f1 ∷ 0x923f82a4
    ∷ 0xab1c5ed5 ∷ 0xd807aa98 ∷ 0x12835b01 ∷ 0x243185be ∷ 0x550c7dc3 ∷ 0x72be5d74 ∷ 0x80deb1fe
    ∷ 0x9bdc06a7 ∷ 0xc19bf174 ∷ 0xe49b69c1 ∷ 0xefbe4786 ∷ 0x0fc19dc6 ∷ 0x240ca1cc ∷ 0x2de92c6f
    ∷ 0x4a7484aa ∷ 0x5cb0a9dc ∷ 0x76f988da ∷ 0x983e5152 ∷ 0xa831c66d ∷ 0xb00327c8 ∷ 0xbf597fc7
    ∷ 0xc6e00bf3 ∷ 0xd5a79147 ∷ 0x06ca6351 ∷ 0x14292967 ∷ 0x27b70a85 ∷ 0x2e1b2138 ∷ 0x4d2c6dfc
    ∷ 0x53380d13 ∷ 0x650a7354 ∷ 0x766a0abb ∷ 0x81c2c92e ∷ 0x92722c85 ∷ 0xa2bfe8a1 ∷ 0xa81a664b
    ∷ 0xc24b8b70 ∷ 0xc76c51a3 ∷ 0xd192e819 ∷ 0xd6990624 ∷ 0xf40e3585 ∷ 0x106aa070 ∷ 0x19a4c116
    ∷ 0x1e376c08 ∷ 0x2748774c ∷ 0x34b0bcb5 ∷ 0x391c0cb3 ∷ 0x4ed8aa4a ∷ 0x5b9cca4f ∷ 0x682e6ff3
    ∷ 0x748f82ee ∷ 0x78a5636f ∷ 0x84c87814 ∷ 0x8cc70208 ∷ 0x90befffa ∷ 0xa4506ceb ∷ 0xbef9a3f7
    ∷ 0xc67178f2 ∷ []

-- The macros `RR`, `CH`, `MAJ`, `S0`, `S1`, `SIG0` and `SIG1`.
abbrev pub rotate_right : ℕ → ℕ → ℕ
rotate_right x n = bit_or (x >>> n) (u32 (x <<< (32 - n)))

abbrev pub choose : ℕ → ℕ → ℕ → ℕ
choose e f g = bit_xor (bit_and e f) (bit_and (2 ^ 32 - 1 - e) g)

abbrev pub majority : ℕ → ℕ → ℕ → ℕ
majority a b c = bit_xor (bit_xor (bit_and a b) (bit_and a c)) (bit_and b c)

abbrev pub three_rotations : ℕ → ℕ → ℕ → ℕ → ℕ
three_rotations i j k x = bit_xor (bit_xor (rotate_right x i) (rotate_right x j)) (rotate_right x k)

abbrev pub big_sigma0 : ℕ → ℕ
big_sigma0 a = three_rotations 2 13 22 a

abbrev pub big_sigma1 : ℕ → ℕ
big_sigma1 e = three_rotations 6 11 25 e

abbrev pub small_sigma0 : ℕ → ℕ
small_sigma0 x = bit_xor (bit_xor (rotate_right x 7) (rotate_right x 18)) (x >>> 3)

abbrev pub small_sigma1 : ℕ → ℕ
small_sigma1 x = bit_xor (bit_xor (rotate_right x 17) (rotate_right x 19)) (x >>> 10)

unfoldable pub be32 : List ℕ → ℕ
be32 p =
    bit_or (bit_or (bit_or (get_or p 0 0 <<< 24) (get_or p 1 0 <<< 16)) (get_or p 2 0 <<< 8))
      (get_or p 3 0)

unfoldable pub put_be32 : ℕ → List ℕ
put_be32 v = u8 (v >>> 24) ∷ u8 (v >>> 16) ∷ u8 (v >>> 8) ∷ u8 v ∷ []

unfoldable pub put_be64 : ℕ → List ℕ
put_be64 v = put_be32 (u32 (v >>> 32)) ++ put_be32 (u32 v)

-- The eight words of a state, and the eight variables of a round.
pub record Words : Type 0 where
  pub a : ℕ
  pub b : ℕ
  pub c : ℕ
  pub d : ℕ
  pub e : ℕ
  pub f : ℕ
  pub g : ℕ
  pub h : ℕ

-- The first `n` words of a block.
unfoldable pub load_words : ℕ → List ℕ → List ℕ
load_words zero block = []
load_words (suc n) block = be32 block ∷ load_words n (drop 4 block)

-- `n` more words, from the word `i` on.
unfoldable pub extend_words : ℕ → ℕ → List ℕ → List ℕ
extend_words zero i w = w
extend_words (suc n) i w =
    let next = u32 (
      small_sigma1 (get_or w (i - 2) 0)
      + get_or w (i - 7) 0
      + small_sigma0 (get_or w (i - 15) 0)
      + get_or w (i - 16) 0) in
    extend_words n (i + 1) (w ++ next ∷ [])

unfoldable pub round : Words → ℕ → ℕ → Words
round s k w =
    let t1 = u32 (s.h + big_sigma1 s.e + choose s.e s.f s.g + k + w) in
    let t2 = u32 (big_sigma0 s.a + majority s.a s.b s.c) in
    record {
      a = u32 (t1 + t2);
      b = s.a;
      c = s.b;
      d = s.c;
      e = u32 (s.d + t1);
      f = s.e;
      g = s.f;
      h = s.g;
    }

unfoldable pub rounds : List ℕ → List ℕ → Words → Words
rounds (k ∷ ks) (w ∷ ws) s = rounds ks ws (round s k w)
rounds [] ws s = s
rounds (k ∷ ks) [] s = s

unfoldable pub compress : Words → List ℕ → Words
compress state block =
    let w = extend_words 48 16 (load_words 16 block) in
    let s = rounds round_constants w state in
    record {
      a = u32 (state.a + s.a);
      b = u32 (state.b + s.b);
      c = u32 (state.c + s.c);
      d = u32 (state.d + s.d);
      e = u32 (state.e + s.e);
      f = u32 (state.f + s.f);
      g = u32 (state.g + s.g);
      h = u32 (state.h + s.h);
    }

-- `buf` holds the `buflen` bytes in use.
pub record Context : Type 0 where
  pub state : Words
  pub buf : List ℕ
  pub total : ℕ

abbrev pub buflen : Context → ℕ
buflen ctx = length ctx.buf

abbrev pub first_state : Words
first_state = record {
  a = 0x6a09e667;
  b = 0xbb67ae85;
  c = 0x3c6ef372;
  d = 0xa54ff53a;
  e = 0x510e527f;
  f = 0x9b05688c;
  g = 0x1f83d9ab;
  h = 0x5be0cd19;
}

abbrev pub sha256_init : Context
sha256_init = record { state = first_state; buf = []; total = 0 }

-- `while (len >= LR_SHA256_BLOCK_LEN) { ... }` on fuel, with what is left of the data.
unfoldable pub absorb : ℕ → Words → List ℕ → Words × List ℕ
absorb zero state src = (state, src)
absorb (suc fuel) state src =
    let rest = absorb fuel (compress state (take 64 src)) (drop 64 src) in
    if leb 64 (length src) then rest else (state, src)

-- The loop and the copy of the rest to the buffer, which is empty.
abbrev pub absorb_rest : Words → ℕ → List ℕ → Context
absorb_rest state total src =
    let (state', rest) = absorb (length src) state src in
    record { state = state'; buf = rest; total = total }

unfoldable pub sha256_update : Context → List ℕ → Context
sha256_update ctx bytes =
    let total = u64 (ctx.total + length bytes) in
    let fill = 64 - buflen ctx in
    if ltb 0 (buflen ctx)
    then if ltb (length bytes) fill
      then record { state = ctx.state; buf = ctx.buf ++ bytes; total = total }
      else absorb_rest (compress ctx.state (ctx.buf ++ take fill bytes)) total (drop fill bytes)
    else absorb_rest ctx.state total bytes

abbrev pub words_bytes : Words → List ℕ
words_bytes s =
    put_be32 s.a
    ++ put_be32 s.b
    ++ put_be32 s.c
    ++ put_be32 s.d
    ++ put_be32 s.e
    ++ put_be32 s.f
    ++ put_be32 s.g
    ++ put_be32 s.h

-- The byte 0x80 and `n` bytes 0.
abbrev pub mark_zeros : ℕ → List ℕ
mark_zeros n = 0x80 ∷ replicate n 0

-- The two last updates, and the digest.
unfoldable pub close_with : Context → List ℕ → ℕ → List ℕ
close_with ctx padding bits =
    let closed = sha256_update (sha256_update ctx padding) (put_be64 bits) in
    words_bytes closed.state

unfoldable pub sha256_final : Context → List ℕ
sha256_final ctx =
    let bits = u64 (ctx.total * 8) in
    let pad = 1 + (119 - buflen ctx) % 64 in close_with ctx (take pad (mark_zeros 71)) bits

unfoldable pub sha256_oneshot : List ℕ → List ℕ
sha256_oneshot bytes = sha256_final (sha256_update sha256_init bytes)

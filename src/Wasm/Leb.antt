-- ===== src/Wasm/Leb.antt =====
-- The LEB128 readers of src/wasm_decode.c.
-- A pointer and a claimed length are the list of the bytes that really stand behind the pointer
-- and the number `len`; reading byte `i < len` past the end of the list is a `fault`.
pub mod Unsigned
pub mod Signed
pub mod Bounds
use liric.Base.{ℕ, ◌+◌, ◌*◌, ◌^◌, ◌-◌, ◌%◌, bit_and, bit_or, List, [], ◌∷◌, Bool, ◌&&◌}
use liric.Base.{ltb, leb, ◌==◌, not, if◌then◌else◌, u32, u64, ◌<<<◌}

-- `malformed` is the return value 0; `value v n` stores `v` and returns the byte count `n`.
pub data Leb : Type 0 where
  fault : Leb
  malformed : Leb
  value : ℕ → ℕ → Leb

-- `result |= (uint32_t)(b & 0x7F) << shift`
abbrev pub add_group32 : ℕ → ℕ → ℕ → ℕ
add_group32 result b shift = bit_or result (u32 (bit_and b 0x7f <<< shift))

abbrev pub add_group64 : ℕ → ℕ → ℕ → ℕ
add_group64 result b shift = bit_or result (u64 (bit_and b 0x7f <<< shift))

-- The list is what `buf[i..]` holds.
pub leb_u32_loop : List ℕ → ℕ → ℕ → ℕ → ℕ → Leb
leb_u32_loop [] len i result shift = if ltb i len then fault else malformed
leb_u32_loop (b ∷ rest) len i result shift =
    let result' = add_group32 result b shift in
    let more = leb_u32_loop rest len (i + 1) result' (shift + 7) in
    if ltb i len
    then if bit_and b 0x80 == 0
      then value result' (i + 1)
      else if leb 35 (shift + 7)
      then malformed
      else more
    else malformed

unfoldable pub read_leb_u32 : List ℕ → ℕ → Leb
unfolding leb_u32_loop
read_leb_u32 buf len = leb_u32_loop buf len 0 0 0

-- `-(1 << shift)` as the bits of an `int32_t`, for a shift below 32.
abbrev pub minus_one_shl32 : ℕ → ℕ
minus_one_shl32 shift = u32 (2 ^ 32 - u32 (1 <<< shift))

abbrev pub minus_one_shl64 : ℕ → ℕ
minus_one_shl64 shift = u64 (2 ^ 64 - u64 (1 <<< shift))

-- After the loop: `i` bytes were read, `b` is the last of them. An `int32_t` is its bit pattern.
abbrev pub finish_i32 : ℕ → ℕ → ℕ → ℕ → Leb
finish_i32 i b result shift =
    if i == 0
    then malformed
    else value
        (if ltb shift 32 && not (bit_and b 0x40 == 0)
          then bit_or result (minus_one_shl32 shift)
          else result)
        i

pub leb_i32_loop : List ℕ → ℕ → ℕ → ℕ → ℕ → ℕ → Leb
leb_i32_loop [] len i b result shift = if ltb i len then fault else finish_i32 i b result shift
leb_i32_loop (c ∷ rest) len i b result shift =
    let result' = add_group32 result c shift in
    let more = leb_i32_loop rest len (i + 1) c result' (shift + 7) in
    if ltb i len
    then if bit_and c 0x80 == 0
      then finish_i32 (i + 1) c result' (shift + 7)
      else if leb 35 (shift + 7)
      then malformed
      else more
    else finish_i32 i b result shift

unfoldable pub read_leb_i32 : List ℕ → ℕ → Leb
unfolding leb_i32_loop
read_leb_i32 buf len = leb_i32_loop buf len 0 0 0 0

abbrev pub finish_i64 : ℕ → ℕ → ℕ → ℕ → Leb
finish_i64 i b result shift =
    if i == 0
    then malformed
    else value
        (if ltb shift 64 && not (bit_and b 0x40 == 0)
          then bit_or result (minus_one_shl64 shift)
          else result)
        i

pub leb_i64_loop : List ℕ → ℕ → ℕ → ℕ → ℕ → ℕ → Leb
leb_i64_loop [] len i b result shift = if ltb i len then fault else finish_i64 i b result shift
leb_i64_loop (c ∷ rest) len i b result shift =
    let result' = add_group64 result c shift in
    let more = leb_i64_loop rest len (i + 1) c result' (shift + 7) in
    if ltb i len
    then if bit_and c 0x80 == 0
      then finish_i64 (i + 1) c result' (shift + 7)
      else if leb 70 (shift + 7)
      then malformed
      else more
    else finish_i64 i b result shift

unfoldable pub read_leb_i64 : List ℕ → ℕ → Leb
unfolding leb_i64_loop
read_leb_i64 buf len = leb_i64_loop buf len 0 0 0 0

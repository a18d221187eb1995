-- ===== src/Wasm/Leb/Bounds.antt =====
-- The reads of `lr_wasm_read_leb_i32` and `lr_wasm_read_leb_i64` of src/wasm_decode.c.
use liric.Base.{ℕ, ◌+◌, ◌≤◌, arith, List, [], ◌∷◌, length}
use liric.Wasm.Leb.{
  Leb, fault, malformed, value, leb_i32_loop, read_leb_i32, leb_i64_loop, read_leb_i64,
}
use liric.Wasm.Leb.{add_group32, add_group64}

-- No byte behind the buffer was read, and a count that is returned is at most `len`.
abbrev pub ReadsWithin : ℕ → Leb → Type 0
ReadsWithin len fault = ⊥
ReadsWithin len malformed = Unit {0}
ReadsWithin len (value v n) = n ≤ len

leb_i32_loop-ReadsWithin :
    (buf : List ℕ) (len i b result shift : ℕ)
    → i ≤ len
    → len ≤ i + length buf
    → ReadsWithin len (leb_i32_loop buf len i b result shift)
unfolding leb_i32_loop
leb_i32_loop-ReadsWithin [] len i b result shift h k = ground arith
leb_i32_loop-ReadsWithin (c ∷ buf) len i b result shift h k =
    ground
      (arith, leb_i32_loop-ReadsWithin buf len (i + 1) c (add_group32 result c shift) (shift + 7))

pub read_leb_i32-ReadsWithin :
    (buf : List ℕ) (len : ℕ) → len ≤ length buf → ReadsWithin len (read_leb_i32 buf len)
unfolding read_leb_i32
read_leb_i32-ReadsWithin buf len h =
    leb_i32_loop-ReadsWithin buf len 0 0 0 0 (omega arith) (omega arith)

leb_i64_loop-ReadsWithin :
    (buf : List ℕ) (len i b result shift : ℕ)
    → i ≤ len
    → len ≤ i + length buf
    → ReadsWithin len (leb_i64_loop buf len i b result shift)
unfolding leb_i64_loop
leb_i64_loop-ReadsWithin [] len i b result shift h k = ground arith
leb_i64_loop-ReadsWithin (c ∷ buf) len i b result shift h k =
    ground
      (arith, leb_i64_loop-ReadsWithin buf len (i + 1) c (add_group64 result c shift) (shift + 7))

pub read_leb_i64-ReadsWithin :
    (buf : List ℕ) (len : ℕ) → len ≤ length buf → ReadsWithin len (read_leb_i64 buf len)
unfolding read_leb_i64
read_leb_i64-ReadsWithin buf len h =
    leb_i64_loop-ReadsWithin buf len 0 0 0 0 (omega arith) (omega arith)

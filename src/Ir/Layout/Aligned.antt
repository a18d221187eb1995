-- ===== src/Ir/Layout/Aligned.antt =====
-- The offsets of `lr_struct_field_offset` of src/ir.c beside the alignments of the fields.
use native.Mathlib.Nat.{mul-mod_left, mod-eq_of_lt}
use liric.Base.{ℕ, zero, suc, ◌+◌, ◌-◌, ◌/◌, ◌%◌, ◌^◌, ◌≤◌, ◌≡◌, arith}
use liric.Base.{none, some, false, u64, ◌*◌, ◌<◌, ◌≢◌, ◌∙◌, sym, sub64}
use liric.Base.Bits.{bit_and_lowest}
use liric.Ir.Types.{IrType, IrTypes, nil, cons, nth_type}
use liric.Ir.Layout.{
  type_size, type_align, field_offset, struct_field_offset, align_up, place_field, vector_align,
  not64,
}
use liric.Ir.Layout.AlignUp.{align_up_pow}
use liric.Ir.Layout.Fields.{FieldsFit}

pub align_up-mod :
    (off align k : ℕ) → align ≡ 2 ^ k → off + align ≤ 2 ^ 64 → align_up off align % align ≡ 0
align_up-mod off align k e h =
    rw e (rw (align_up_pow off k (rw (← e) h)) (mul-mod_left ((off + 2 ^ k - 1) / 2 ^ k) (2 ^ k)))

-- In a struct that is not packed, and where no sum of its layout wraps, a field whose alignment is
-- a power of two starts at a multiple of it, whatever the alignments of the other fields are.
pub field_offset_aligned :
    (ts : IrTypes) (off i k : ℕ) (t : IrType)
    → FieldsFit ts false off
    → nth_type ts i ≡ some t
    → type_align t ≡ 2 ^ k
    → field_offset ts false i off % type_align t ≡ 0
unfolding nth_type field_offset
field_offset_aligned nil off i k t h e p = absurd (cc)
field_offset_aligned (cons u ts) off zero k t h e p =
    let same : u ≡ t = cc in rw (← same) (align_up-mod off (type_align u) k (rw same p) h.0)
field_offset_aligned (cons u ts) off (suc i) k t (a, b, c) e p =
    let wrap : u64 (place_field false off (type_align u) + type_size u)
        ≡ place_field false off (type_align u) + type_size u =
      omega arith in
    rw wrap (field_offset_aligned ts _ i k t c e p)

-- A vector of an odd number of `i32`.
abbrev pub odd_vector : ℕ → IrType
odd_vector r = IrType.vector IrType.i32 (2 * r + 1)

-- `n` bytes, then the vector.
abbrev pub bytes_then_vector : ℕ → ℕ → IrType
bytes_then_vector n r =
    IrType.struct (cons (IrType.array IrType.i8 n) (cons (odd_vector r) nil)) false none

vector_align_lem : (size : ℕ) → 4 ≤ size → vector_align size 4 ≡ size
vector_align_lem size h = ground arith

odd_vector_size : (r : ℕ) → 2 * r + 1 < 2 ^ 32 → type_size (odd_vector r) ≡ 4 * (2 * r + 1)
unfolding type_size
odd_vector_size r few = omega arith

odd_vector_align : (r : ℕ) → 2 * r + 1 < 2 ^ 32 → type_align (odd_vector r) ≡ 4 * (2 * r + 1)
unfolding type_align type_size
odd_vector_align r few =
    let size : u64 (4 * (2 * r + 1)) ≡ 4 * (2 * r + 1) = omega arith in
    rw size (vector_align_lem (4 * (2 * r + 1)) (omega arith))

bytes_end :
    (n : ℕ)
    → n ≤ 4
    → u64
        (align_up 0 (type_align (IrType.array IrType.i8 n)) + type_size (IrType.array IrType.i8 n))
      ≡ n
unfolding type_align type_size align_up
bytes_end n few = omega arith

-- An offset of one to four bytes rounded up by the mask.
align_up_odd : (n r : ℕ) → 1 ≤ n → n ≤ 4 → 2 * r + 1 < 2 ^ 32 → align_up n (4 * (2 * r + 1)) ≡ 4
unfolding align_up
align_up_odd n r lo hi few =
    let value : sub64 (u64 (n + 4 * (2 * r + 1))) 1 ≡ 4 * (2 * r + 1) + (n - 1) = omega arith in
    let mask : not64 (sub64 (4 * (2 * r + 1)) 1) ≡ 2 ^ 64 - 4 * (2 * r + 1) = omega arith in
    rw (value, mask) (bit_and_lowest r (n - 1) (omega arith) (omega arith))

-- For a vector of an odd number of `i32`, at least three and below 2 ^ 32 of them, the alignment is
-- the size of the vector, and behind an array of one to four bytes in a struct that is not packed
-- the vector is placed at the offset 4, which is no multiple of its alignment.
pub vector_misaligned :
    (n r : ℕ)
    → 1 ≤ n
    → n ≤ 4
    → 1 ≤ r
    → 2 * r + 1 < 2 ^ 32
    → (type_align (odd_vector r) ≡ type_size (odd_vector r))
      × (struct_field_offset (bytes_then_vector n r) 1 ≡ 4)
      × (struct_field_offset (bytes_then_vector n r) 1 % type_align (odd_vector r) ≢ 0)
unfolding struct_field_offset field_offset
vector_misaligned n r lo hi three few =
    let align = odd_vector_align r few in
    let placed : struct_field_offset (bytes_then_vector n r) 1 ≡ 4 =
      rw (bytes_end n hi, align) (align_up_odd n r lo hi few) in
    let left : 4 % (4 * (2 * r + 1)) ≡ 4 =
      mod-eq_of_lt {n = 4} {m = 4 * (2 * r + 1)} (omega arith) in
    (
      align ∙ sym (odd_vector_size r few),
      placed,
      rw (placed, align, left) (λ e. absurd (omega arith)),
    )

-- ===== src/Ir/Layout/Fields.antt =====
-- Where the fields of a struct start and end, by `lr_struct_field_offset` and `lr_type_size` of
-- src/ir.c.
use liric.Base.{ℕ, zero, suc, ◌+◌, ◌^◌, ◌≤◌, ◌<◌, ◌≡◌, ap, arith}
use liric.Base.{some, Bool, true, false}
use liric.Ir.Types.{IrType, IrTypes, nil, cons, nth_type}
use liric.Ir.Layout.{type_size, type_align, fields_size, fields_align, field_offset, place_field}
use liric.Ir.Layout.{vector_align}
use liric.Ir.Layout.AlignUp.{align_up_bounds}

-- No sum of `lr_type_size` over the fields from `off` on wraps.
abbrev pub FieldsFit : IrTypes → Bool → ℕ → Type 0
FieldsFit nil packed off = off < 2 ^ 64
FieldsFit (cons t ts) packed off =
    (off + type_align t ≤ 2 ^ 64)
    × (place_field packed off (type_align t) + type_size t < 2 ^ 64)
    × FieldsFit ts packed (place_field packed off (type_align t) + type_size t)

vector_align_pos : (size elem : ℕ) → 0 < elem → 0 < vector_align size elem
vector_align_pos size elem h = ground arith

pub fields_align_ge : (ts : IrTypes) (a : ℕ) → a ≤ fields_align ts a
unfolding fields_align
fields_align_ge nil a = omega arith
fields_align_ge (cons t ts) a =
    ground (arith, fields_align_ge ts (type_align t), fields_align_ge ts a)

-- No alignment is 0.
pub type_align_pos : (t : IrType) → 0 < type_align t
unfolding type_align
type_align_pos (IrType.array elem count) = type_align_pos elem
type_align_pos (IrType.vector elem count) = vector_align_pos _ _ (type_align_pos elem)
type_align_pos (IrType.struct fields packed name) = ground (arith, fields_align_ge fields 1)
type_align_pos _ = omega arith

place_ge :
    (packed : Bool) (off align : ℕ)
    → 0 < align
    → off + align ≤ 2 ^ 64
    → off ≤ place_field packed off align
place_ge true off align h k = omega arith
place_ge false off align h k = (align_up_bounds off align h k).0

-- The loop goes on at the sum itself.
fields_size-cons :
    (t : IrType) (ts : IrTypes) (packed : Bool) (off : ℕ)
    → FieldsFit (cons t ts) packed off
    → fields_size (cons t ts) packed off
      ≡ fields_size ts packed (place_field packed off (type_align t) + type_size t)
unfolding fields_size
fields_size-cons t ts packed off (a, b, c) = ap (fields_size ts packed) (omega arith)

field_offset-suc :
    (t : IrType) (ts : IrTypes) (packed : Bool) (i off : ℕ)
    → FieldsFit (cons t ts) packed off
    → field_offset (cons t ts) packed (suc i) off
      ≡ field_offset ts packed i (place_field packed off (type_align t) + type_size t)
unfolding field_offset
field_offset-suc t ts packed i off (a, b, c) = ap (field_offset ts packed i) (omega arith)

pub fields_size_ge :
    (ts : IrTypes) (packed : Bool) (off : ℕ)
    → FieldsFit ts packed off
    → off ≤ fields_size ts packed off
unfolding fields_size
fields_size_ge nil packed off h = omega arith
fields_size_ge (cons t ts) packed off h = omega (
  arith,
  fields_size-cons t ts packed off h,
  fields_size_ge ts packed (place_field packed off (type_align t) + type_size t) h.2,
  place_ge packed off (type_align t) (type_align_pos t) h.0,
)

-- Where no sum of the layout of the fields from `off` on wraps, each field starts at `off` or
-- behind it and ends inside the size that `lr_type_size` computes of them.
pub field_inside :
    (ts : IrTypes) (packed : Bool) (off i : ℕ) (t : IrType)
    → FieldsFit ts packed off
    → nth_type ts i ≡ some t
    → (off ≤ field_offset ts packed i off)
      × (field_offset ts packed i off + type_size t ≤ fields_size ts packed off)
unfolding nth_type field_offset
field_inside nil packed off i t h e = cc
field_inside (cons u ts) packed off zero t h e =
    let same : u ≡ t = cc in
    rw (← same) (
      place_ge packed off (type_align u) (type_align_pos u) h.0,
      omega (arith, fields_size-cons u ts packed off h, fields_size_ge ts packed _ h.2),
    )
field_inside (cons u ts) packed off (suc i) t h e =
    let start = place_field packed off (type_align u) + type_size u in
    let later = field_inside ts packed start i t h.2 e in
    omega (
      arith,
      later,
      field_offset-suc u ts packed i off h,
      fields_size-cons u ts packed off h,
      place_ge packed off (type_align u) (type_align_pos u) h.0,
    )

-- Where no sum of the layout of the fields from `off` on wraps, the earlier one of two fields ends
-- before the later one starts.
pub fields_disjoint :
    (ts : IrTypes) (packed : Bool) (off i j : ℕ) (t u : IrType)
    → FieldsFit ts packed off
    → i < j
    → nth_type ts i ≡ some t
    → nth_type ts j ≡ some u
    → field_offset ts packed i off + type_size t ≤ field_offset ts packed j off
unfolding nth_type field_offset
fields_disjoint nil packed off i j t u h lt e f = cc
fields_disjoint (cons v ts) packed off i zero t u h lt e f = absurd (omega arith)
fields_disjoint (cons v ts) packed off zero (suc j) t u h lt e f =
    let same : v ≡ t = cc in
    let start = place_field packed off (type_align v) + type_size v in
    rw (← same)
      (omega (arith, field_offset-suc v ts packed j off h, field_inside ts packed start j u h.2 f))
fields_disjoint (cons v ts) packed off (suc i) (suc j) t u h lt e f =
    let start = place_field packed off (type_align v) + type_size v in
    omega (
      arith,
      fields_disjoint ts packed start i j t u h.2 (omega arith) e f,
      field_offset-suc v ts packed i off h,
      field_offset-suc v ts packed j off h,
    )

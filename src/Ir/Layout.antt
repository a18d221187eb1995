-- ===== src/Ir/Layout.antt =====
-- Sizes, alignments and offsets of src/ir.c, on `size_t`, which wraps at 2 ^ 64.
pub mod AlignUp
pub mod Fields
pub mod Aligned
pub mod Paths
use liric.Base.{ℕ, zero, suc, ◌+◌, ◌*◌, ◌-◌, ◌^◌, bit_and, List, [], ◌∷◌, Option, none, some, Bool}
use liric.Base.{true, false, not, ◌&&◌, ◌||◌, ltb, leb, ◌==◌, if◌then◌else◌, u64, sub64}
use liric.Ir.Types.{IrType, IrTypes, nil, cons, count_types, nth_type}

-- `~x` on 64 bits
abbrev pub not64 : ℕ → ℕ
not64 x = 2 ^ 64 - 1 - x

-- `(value + align - 1) & ~(align - 1)`
unfoldable pub align_up : ℕ → ℕ → ℕ
align_up value align = bit_and (sub64 (u64 (value + align)) 1) (not64 (sub64 align 1))

-- One field behind `offset`: where it starts.
abbrev pub place_field : Bool → ℕ → ℕ → ℕ
place_field packed offset align = if packed then offset else align_up offset align

-- The alignment of a vector from its size and its element's alignment.
abbrev pub vector_align : ℕ → ℕ → ℕ
vector_align size elem_align =
    let sz = if ltb size elem_align then elem_align else size in if ltb 0 sz then sz else 1

-- `lr_type_size` asks `lr_type_align(t)` of a struct that is not packed: that is `fields_align`.
unfoldable mutual
  pub type_size : IrType → ℕ
  type_size IrType.null = 0
  type_size IrType.void = 0
  type_size IrType.i1 = 1
  type_size IrType.i8 = 1
  type_size IrType.i16 = 2
  type_size IrType.i32 = 4
  type_size IrType.i64 = 8
  type_size IrType.float = 4
  type_size IrType.double = 8
  type_size IrType.x86_fp80 = 16
  type_size IrType.fp128 = 16
  type_size IrType.ptr = 8
  type_size (IrType.array elem count) = u64 (type_size elem * count)
  type_size (IrType.vector elem count) = u64 (type_size elem * count)
  type_size (IrType.struct fields packed name) =
      if not packed && ltb 0 (count_types fields)
      then align_up (fields_size fields packed 0) (fields_align fields 1)
      else fields_size fields packed 0
  type_size (IrType.func ret params vararg) = 0

  -- The loop of `lr_type_size` over the fields, from the size `sz` on.
  pub fields_size : IrTypes → Bool → ℕ → ℕ
  fields_size nil packed sz = sz
  fields_size (cons t ts) packed sz =
      fields_size ts packed (u64 (place_field packed sz (type_align t) + type_size t))

  pub type_align : IrType → ℕ
  type_align IrType.null = 1
  type_align IrType.void = 1
  type_align IrType.i1 = 1
  type_align IrType.i8 = 1
  type_align IrType.i16 = 2
  type_align IrType.i32 = 4
  type_align IrType.i64 = 8
  type_align IrType.float = 4
  type_align IrType.double = 8
  type_align IrType.x86_fp80 = 16
  type_align IrType.fp128 = 16
  type_align IrType.ptr = 8
  type_align (IrType.array elem count) = type_align elem
  type_align (IrType.vector elem count) =
      vector_align (u64 (type_size elem * count)) (type_align elem)
  type_align (IrType.struct fields packed name) = if packed then 1 else fields_align fields 1
  type_align (IrType.func ret params vararg) = 1

  pub fields_align : IrTypes → ℕ → ℕ
  fields_align nil max_a = max_a
  fields_align (cons t ts) max_a =
      let fa = type_align t in fields_align ts (if ltb max_a fa then fa else max_a)

-- `lr_struct_field_offset`: the loop runs over the fields before `field_idx`; the field itself, if
-- there is one, is aligned.
unfoldable pub field_offset : IrTypes → Bool → ℕ → ℕ → ℕ
field_offset nil packed field_idx off = off
field_offset (cons t ts) packed zero off = place_field packed off (type_align t)
field_offset (cons t ts) packed (suc field_idx) off =
    field_offset ts packed field_idx (u64 (place_field packed off (type_align t) + type_size t))

unfoldable pub struct_field_offset : IrType → ℕ → ℕ
struct_field_offset (IrType.struct fields packed name) field_idx =
    field_offset fields packed field_idx 0
struct_field_offset _ field_idx = 0

-- The case of an array or a vector.
abbrev pub element_step : IrType → ℕ → ℕ → Option (ℕ × IrType)
element_step elem count idx =
    if leb count idx then none else some (u64 (idx * type_size elem), elem)

-- One step of `lr_aggregate_index_path`: the offset that an index adds, and the type it leads to.
unfoldable pub index_step : IrType → ℕ → Option (ℕ × IrType)
index_step (IrType.struct fields packed name) idx = elim (nth_type fields idx) [
  | none ↦ none
  | some t ↦ some (field_offset fields packed idx 0, t)
]
index_step (IrType.array elem count) idx = element_step elem count idx
index_step (IrType.vector elem count) idx = element_step elem count idx
index_step _ idx = none

unfoldable pub index_path : IrType → List ℕ → ℕ → Option (ℕ × IrType)
index_path cur [] off = some (off, cur)
index_path cur (idx ∷ indices) off = elim (index_step cur idx) [
  | none ↦ none
  | some (step, leaf) ↦ index_path leaf indices (u64 (off + step))
]

abbrev pub is_null : IrType → Bool
is_null IrType.null = true
is_null _ = false

-- `lr_aggregate_index_path`; `none` is the return value `false`.
unfoldable pub aggregate_index_path : IrType → List ℕ → Option (ℕ × IrType)
aggregate_index_path base indices = if is_null base then none else index_path base indices 0

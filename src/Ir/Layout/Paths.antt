-- ===== src/Ir/Layout/Paths.antt =====
-- Where the paths of `lr_aggregate_index_path` of src/ir.c lead.
use liric.Base.{ℕ, zero, suc, ◌+◌, ◌*◌, ◌^◌, ◌≤◌, ◌<◌, ◌≡◌, arith, List, [], ◌∷◌}
use liric.Base.{Option, some, Bool, leb, u64, inl, inr}
use liric.Base.{Bool-cases, Option-cases}
use liric.Ir.Types.{IrType, IrTypes, nil, cons, nth_type}
use liric.Ir.Layout.{type_size, fields_size, fields_align, field_offset}
use liric.Ir.Layout.{element_step, index_step, index_path, aggregate_index_path}
use liric.Ir.Layout.AlignUp.{align_up_bounds}
use liric.Ir.Layout.Fields.{FieldsFit, field_inside, fields_align_ge}

-- No `size_t` operation of the type's layout wraps.
unfoldable mutual
  pub Fits : IrType → Type 0
  Fits (IrType.array elem count) = Fits elem × (type_size elem * count < 2 ^ 64)
  Fits (IrType.vector elem count) = Fits elem × (type_size elem * count < 2 ^ 64)
  Fits (IrType.struct fields packed name) =
      AllFit fields
      × FieldsFit fields packed 0
      × (fields_size fields packed 0 + fields_align fields 1 ≤ 2 ^ 64)
  Fits _ = Unit {0}

  pub AllFit : IrTypes → Type 0
  AllFit nil = Unit {0}
  AllFit (cons t ts) = Fits t × AllFit ts

AllFit-nth : (ts : IrTypes) (i : ℕ) (t : IrType) → AllFit ts → nth_type ts i ≡ some t → Fits t
unfolding AllFit nth_type
AllFit-nth nil i t h e = absurd (cc)
AllFit-nth (cons u ts) zero t h e = let same : u ≡ t = cc in rw same at h.0
AllFit-nth (cons u ts) (suc i) t h e = AllFit-nth ts i t h.1 e

struct_ge :
    (fields : IrTypes) (packed : Bool) (name : Option (List ℕ))
    → fields_size fields packed 0 + fields_align fields 1 ≤ 2 ^ 64
    → fields_size fields packed 0 ≤ type_size (IrType.struct fields packed name)
unfolding type_size
struct_ge fields packed name h = ground (
  arith,
  fields_align_ge fields 1,
  align_up_bounds (fields_size fields packed 0) (fields_align fields 1),
)

row_fits : (s n i : ℕ) → i < n → i * s + s ≤ s * n
row_fits s n i h = grind arith

element_inside :
    (elem leaf : IrType) (count idx off : ℕ)
    → type_size elem * count < 2 ^ 64
    → element_step elem count idx ≡ some (off, leaf)
    → (elem ≡ leaf) × (off + type_size elem ≤ u64 (type_size elem * count))
element_inside elem leaf count idx off top e = elim (Bool-cases (leb count idx)) [
  | inl b ↦ absurd (ground arith)
  | inr b ↦
      let lt : idx < count = ground arith in
      let o : u64 (idx * type_size elem) ≡ off = ground arith in
      let l : elem ≡ leaf = ground arith in
      (l, omega (arith, o, row_fits (type_size elem) count idx lt))
]

-- One index leads to a part inside the type.
step_inside :
    (cur : IrType) (idx off : ℕ) (leaf : IrType)
    → Fits cur
    → index_step cur idx ≡ some (off, leaf)
    → Fits leaf × (off + type_size leaf ≤ type_size cur)
unfolding Fits index_step type_size
step_inside (IrType.struct fields packed name) idx off leaf (all, fit, top) e =
    elim (Option-cases (nth_type fields idx)) [
      | inl n ↦ absurd (ground arith)
      | inr (t, n) ↦
          let o : field_offset fields packed idx 0 ≡ off = ground arith in
          let l : t ≡ leaf = ground arith in
          rw (← l) (
            AllFit-nth fields idx t all n,
            omega (
              arith,
              o,
              field_inside fields packed 0 idx t fit n,
              struct_ge fields packed name top,
            ),
          )
    ]
step_inside (IrType.array elem count) idx off leaf (fit, top) e =
    let (same, bound) = element_inside elem leaf count idx off top e in rw (← same) (fit, bound)
step_inside (IrType.vector elem count) idx off leaf (fit, top) e =
    let (same, bound) = element_inside elem leaf count idx off top e in rw (← same) (fit, bound)
step_inside _ idx off leaf h e = absurd (cc)

index_path_inside :
    (indices : List ℕ) (cur : IrType) (off out : ℕ) (leaf : IrType)
    → Fits cur
    → off + type_size cur < 2 ^ 64
    → index_path cur indices off ≡ some (out, leaf)
    → (off ≤ out) × (out + type_size leaf ≤ off + type_size cur)
unfolding index_path
index_path_inside [] cur off out leaf fit top e =
    let o : off ≡ out = ground arith in
    let l : cur ≡ leaf = ground arith in rw (← l) (omega (arith, o))
index_path_inside (idx ∷ indices) cur off out leaf fit top e =
    elim (Option-cases (index_step cur idx)) [
      | inl n ↦ absurd (ground arith)
      | inr ((step, part), n) ↦
          let (part_fits, bound) = step_inside cur idx step part fit n in
          let wrap : u64 (off + step) ≡ off + step = omega arith in
          let rest : index_path part indices (off + step) ≡ some (out, leaf) =
            rw (← wrap) (ground arith) in
          let ih =
            index_path_inside indices part (off + step) out leaf part_fits (omega arith) rest in
          omega (arith, ih)
    ]

-- Where no operation of a type's layout wraps and its size is below 2 ^ 64, a path of indices that
-- `lr_aggregate_index_path` accepts leads to a part that ends inside the base type.
pub aggregate_index_path_inside :
    (base : IrType) (indices : List ℕ) (out : ℕ) (leaf : IrType)
    → Fits base
    → type_size base < 2 ^ 64
    → aggregate_index_path base indices ≡ some (out, leaf)
    → out + type_size leaf ≤ type_size base
unfolding aggregate_index_path
aggregate_index_path_inside base indices out leaf fit top e =
    omega (arith, index_path_inside indices base 0 out leaf fit (omega arith) (ground arith))

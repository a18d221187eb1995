-- ===== src/Ir/Types.antt =====
-- `lr_type_t` of src/ir.h. `null` is the NULL pointer, which the layout functions accept; the
-- fields of a struct and the parameters of a function are lists of their own.
use liric.Base.{ℕ, zero, suc, List, Option, none, some, Bool}

mutual
  pub data IrType : Type 0 where
    null void i1 i8 i16 i32 i64 float double x86_fp80 fp128 ptr : IrType
    array : IrType → ℕ → IrType
    vector : IrType → ℕ → IrType
    struct : IrTypes → Bool → Option (List ℕ) → IrType
    func : IrType → IrTypes → Bool → IrType

  pub data IrTypes : Type 0 where
    nil : IrTypes
    cons : IrType → IrTypes → IrTypes

-- `num_fields`
unfoldable pub count_types : IrTypes → ℕ
count_types nil = 0
count_types (cons t ts) = suc (count_types ts)

unfoldable pub nth_type : IrTypes → ℕ → Option IrType
nth_type nil i = none
nth_type (cons t ts) zero = some t
nth_type (cons t ts) (suc i) = nth_type ts i

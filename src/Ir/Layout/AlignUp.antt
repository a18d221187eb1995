-- ===== src/Ir/Layout/AlignUp.antt =====
-- Rounding up by the mask of an alignment.
use native.Mathlib.Nat.{one-le-pow, div-add-mod'}
use mathlib.Core.Path.{ap₂}
use liric.Base.{ℕ, ◌+◌, ◌*◌, ◌-◌, ◌/◌, ◌^◌, ◌≤◌, ◌<◌, ◌≡◌, ap, arith, bit_and, u64, sub64}
use liric.Base.Bits.{bit_and_not, bit_and_le, bit_and_mask}
use liric.Ir.Layout.{align_up, not64}

module _ (value align : ℕ) (pos : 0 < align) (fits : value + align ≤ 2 ^ 64) where
  at_sum : sub64 (u64 (value + align)) 1 ≡ value + align - 1
  at_sum = omega arith

  at_mask : sub64 align 1 ≡ align - 1
  at_mask = omega arith

  -- The mask takes away the low bits that `align - 1` has.
  align_up-eq-sub :
      align_up value align + bit_and (value + align - 1) (align - 1) ≡ value + align - 1
  unfolding align_up
  align_up-eq-sub = omega (
    arith,
    bit_and_not 64 (value + align - 1) (align - 1) (omega arith) (omega arith),
    ap₂ bit_and at_sum (ap not64 at_mask),
  )

-- For every alignment above 0, a power of two or not, whose sum with the value is at most 2 ^ 64,
-- rounding up gives at least the value and less than the value plus the alignment.
pub align_up_bounds :
    (value align : ℕ)
    → 0 < align
    → value + align ≤ 2 ^ 64
    → (value ≤ align_up value align) × (align_up value align < value + align)
align_up_bounds value align pos fits =
    omega (arith, align_up-eq-sub value align pos fits, bit_and_le (value + align - 1) (align - 1))

-- Where the value plus the alignment is at most 2 ^ 64, rounding up to a power of two gives the
-- least multiple of it that is not below the value.
pub align_up_pow :
    (value k : ℕ)
    → value + 2 ^ k ≤ 2 ^ 64
    → align_up value (2 ^ k) ≡ (value + 2 ^ k - 1) / 2 ^ k * 2 ^ k
align_up_pow value k fits = omega (
  arith,
  align_up-eq-sub value (2 ^ k) (one-le-pow k 2 (omega arith)) fits,
  bit_and_mask k (value + 2 ^ k - 1),
  div-add-mod' (value + 2 ^ k - 1) (2 ^ k),
)

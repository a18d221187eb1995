-- ===== src/Ir/Integer.antt =====
-- Integers of a width on 64-bit patterns: the helpers at the top of the folding code of src/ir.c.
use liric.Base.{ℕ, ◌-◌, ◌*◌, ◌/◌, ◌%◌, ◌^◌, bit_and, bit_xor}
use liric.Base.{Bool, true, false, not, ◌||◌, ltb, leb, ◌==◌, if◌then◌else◌, u64, sub64}
use liric.Ir.Types.{IrType}
use liric.Ir.Layout.{type_size}

unfoldable pub type_width_bits : IrType → ℕ
type_width_bits IrType.null = 64
type_width_bits IrType.i1 = 1
type_width_bits IrType.i8 = 8
type_width_bits IrType.i16 = 16
type_width_bits IrType.i32 = 32
type_width_bits IrType.i64 = 64
type_width_bits t =
    let bits = u64 (type_size t * 8) in if bits == 0 || ltb 64 bits then 64 else bits

abbrev pub mask_for_bits : ℕ → ℕ
mask_for_bits bits = if leb 64 bits then 2 ^ 64 - 1 else if bits == 0 then 0 else 2 ^ bits - 1

unfoldable pub to_unsigned_bits : ℕ → ℕ → ℕ
to_unsigned_bits val bits = bit_and val (mask_for_bits bits)

-- `(int64_t)((v ^ sign) - sign)`
unfoldable pub sign_extend_bits : ℕ → ℕ → ℕ
sign_extend_bits val bits =
    if leb 64 bits
    then val
    else if bits == 0
    then 0
    else (let sign = 2 ^ (bits - 1) in sub64 (bit_xor (bit_and val (mask_for_bits bits)) sign) sign)

-- `int64_t` on bit patterns: the sign, the magnitude, and the C operators.
abbrev pub is_negative : ℕ → Bool
is_negative a = leb (2 ^ 63) a

abbrev pub magnitude : ℕ → ℕ
magnitude a = if is_negative a then 2 ^ 64 - a else a

abbrev pub with_sign : Bool → ℕ → ℕ
with_sign negative m = if negative then u64 (2 ^ 64 - m) else m

abbrev pub differ : Bool → Bool → Bool
differ true b = not b
differ false b = b

-- `a >> k` keeps the sign.
abbrev pub shift_right_signed : ℕ → ℕ → ℕ
shift_right_signed a k = if is_negative a then 2 ^ 64 - 1 - (2 ^ 64 - 1 - a) / 2 ^ k else a / 2 ^ k

abbrev pub divide_signed : ℕ → ℕ → ℕ
divide_signed a b = with_sign (differ (is_negative a) (is_negative b)) (magnitude a / magnitude b)

abbrev pub remainder_signed : ℕ → ℕ → ℕ
remainder_signed a b = with_sign (is_negative a) (magnitude a % magnitude b)

-- ===== src/Ir/Fold/Semantics.antt =====
-- What the binary integer instructions compute on `w`-bit words, by the signed and unsigned
-- numbers that the words stand for; independent of the folding code. `none` is undefined or poison.
use liric.Base.{ℕ, suc, ◌+◌, ◌-◌, ◌*◌, ◌/◌, ◌%◌, ◌^◌, bit_and, bit_or, bit_xor, Option, none, some}
use liric.Base.{Bool, ◌&&◌, ◌||◌, ltb, leb, ◌==◌, if◌then◌else◌, not}
use liric.Base.Int.{ℤ, pos, negsuc, sub_ℕ, ltb_ℤ, leb_ℤ}
use liric.Ir.Inst.{Opcode, IcmpPred}

-- The signed number of a word, and the word of a number.
abbrev pub signed : ℕ → ℕ → ℤ
signed w x = if ltb x (2 ^ (w - 1)) then pos x else negsuc (2 ^ w - x - 1)

abbrev pub word : ℕ → ℤ → ℕ
word w (pos n) = n % 2 ^ w
word w (negsuc n) = 2 ^ w - 1 - n % 2 ^ w

abbrev pub negate : ℕ → ℤ
negate n = sub_ℕ 0 n

-- Division truncates towards zero; the remainder has the dividend's sign.
abbrev pub quotient : ℤ → ℤ → ℤ
quotient (pos a) (pos b) = pos (a / b)
quotient (pos a) (negsuc b) = negate (a / suc b)
quotient (negsuc a) (pos b) = negate (suc a / b)
quotient (negsuc a) (negsuc b) = pos (suc a / suc b)

abbrev pub remainder : ℤ → ℤ → ℤ
remainder (pos a) (pos b) = pos (a % b)
remainder (pos a) (negsuc b) = pos (a % suc b)
remainder (negsuc a) (pos b) = negate (suc a % b)
remainder (negsuc a) (negsuc b) = negate (suc a % suc b)

-- Division by `2 ^ k`, rounding down.
abbrev pub floor_shift : ℤ → ℕ → ℤ
floor_shift (pos a) k = pos (a / 2 ^ k)
floor_shift (negsuc a) k = negsuc (a / 2 ^ k)

-- Division by zero, and the least number by -1.
abbrev pub division_undefined : ℕ → ℕ → ℕ → Bool
division_undefined w x y = y == 0 || (x == 2 ^ (w - 1) && y == 2 ^ w - 1)

unfoldable pub eval_binop : Opcode → ℕ → ℕ → ℕ → Option ℕ
eval_binop Opcode.add w x y = some ((x + y) % 2 ^ w)
eval_binop Opcode.sub w x y = some ((x + 2 ^ w - y) % 2 ^ w)
eval_binop Opcode.mul w x y = some (x * y % 2 ^ w)
eval_binop Opcode.and w x y = some (bit_and x y % 2 ^ w)
eval_binop Opcode.or w x y = some (bit_or x y % 2 ^ w)
eval_binop Opcode.xor w x y = some (bit_xor x y % 2 ^ w)
eval_binop Opcode.shl w x y = if leb w y then none else some (x * 2 ^ y % 2 ^ w)
eval_binop Opcode.lshr w x y = if leb w y then none else some (x / 2 ^ y)
eval_binop Opcode.ashr w x y = if leb w y then none else some (word w (floor_shift (signed w x) y))
eval_binop Opcode.sdiv w x y =
    if division_undefined w x y then none else some (word w (quotient (signed w x) (signed w y)))
eval_binop Opcode.srem w x y =
    if division_undefined w x y then none else some (word w (remainder (signed w x) (signed w y)))
eval_binop Opcode.udiv w x y = if y == 0 then none else some (x / y)
eval_binop Opcode.urem w x y = if y == 0 then none else some (x % y)
eval_binop _ w x y = none

-- What a comparison holds of two words.
unfoldable pub eval_icmp : IcmpPred → ℕ → ℕ → ℕ → Bool
eval_icmp IcmpPred.eq w x y = x == y
eval_icmp IcmpPred.ne w x y = not (x == y)
eval_icmp IcmpPred.sgt w x y = ltb_ℤ (signed w y) (signed w x)
eval_icmp IcmpPred.sge w x y = leb_ℤ (signed w y) (signed w x)
eval_icmp IcmpPred.slt w x y = ltb_ℤ (signed w x) (signed w y)
eval_icmp IcmpPred.sle w x y = leb_ℤ (signed w x) (signed w y)
eval_icmp IcmpPred.ugt w x y = ltb y x
eval_icmp IcmpPred.uge w x y = leb y x
eval_icmp IcmpPred.ult w x y = ltb x y
eval_icmp IcmpPred.ule w x y = leb x y

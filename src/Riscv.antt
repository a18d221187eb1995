-- ===== src/Riscv.antt =====
-- The instruction words of the RISC-V code generator, src/target_riscv64.c, and the loading of
-- constants. A `uint8_t` register is a number, and an `int32_t` is its 32-bit pattern.
pub mod Fields
pub mod Machine
pub mod Words
pub mod Constants
mod Tests
use liric.Base.{ℕ, ◌+◌, ◌-◌, ◌*◌, ◌/◌, ◌%◌, ◌^◌, List, Bool, true, false, ◌||◌, leb, ltb}
use liric.Base.{if◌then◌else◌, u8, u32, u64, ◌<<<◌, ◌>>>◌, bit_or, bit_and, set, ◌==◌}

-- `rv_emit_ctx_t`
pub record EmitCtx : Type 0 where
  pub buf : List ℕ
  pub buflen : ℕ
  pub pos : ℕ

-- `true` is the return value 0, and `false` is -1.
unfoldable pub emit32 : EmitCtx → ℕ → Bool × EmitCtx
emit32 ec insn = if ltb ec.buflen (u64 (ec.pos + 4)) then (false, ec) else (
  true,
  record ec {
    buf =
        set
          (set (set (set ec.buf ec.pos (u8 insn)) (ec.pos + 1) (u8 (insn >>> 8))) (ec.pos + 2)
            (u8 (insn >>> 16)))
          (ec.pos + 3) (u8 (insn >>> 24));
    pos = ec.pos + 4;
  },
)

unfoldable pub enc_r : ℕ → ℕ → ℕ → ℕ → ℕ → ℕ → ℕ
enc_r funct7 rs2 rs1 funct3 rd opcode =
    bit_or
      (bit_or
        (bit_or
          (bit_or (bit_or (bit_and funct7 0x7F <<< 25) (bit_and rs2 0x1F <<< 20))
            (bit_and rs1 0x1F <<< 15))
          (bit_and funct3 0x7 <<< 12))
        (bit_and rd 0x1F <<< 7))
      (bit_and opcode 0x7F)

unfoldable pub enc_i : ℕ → ℕ → ℕ → ℕ → ℕ → ℕ
enc_i imm rs1 funct3 rd opcode =
    bit_or
      (bit_or
        (bit_or (bit_or (bit_and imm 0xFFF <<< 20) (bit_and rs1 0x1F <<< 15))
          (bit_and funct3 0x7 <<< 12))
        (bit_and rd 0x1F <<< 7))
      (bit_and opcode 0x7F)

unfoldable pub enc_u : ℕ → ℕ → ℕ → ℕ
enc_u imm20 rd opcode =
    bit_or (bit_or (bit_and imm20 0xFFFFF000) (bit_and rd 0x1F <<< 7)) (bit_and opcode 0x7F)

-- The offset is filled in later.
unfoldable pub enc_j : ℕ → ℕ → ℕ
enc_j rd opcode = bit_or (bit_and rd 0x1F <<< 7) (bit_and opcode 0x7F)

-- `if (... != 0) return -1;` before what follows.
abbrev pub and_then : Bool × EmitCtx → (EmitCtx → Bool × EmitCtx) → Bool × EmitCtx
and_then (false, ec) next = (false, ec)
and_then (true, ec) next = next ec

unfoldable pub emit_shift_imm : EmitCtx → ℕ → ℕ → ℕ → ℕ → Bool × EmitCtx
emit_shift_imm ec rd rs funct3 shamt = emit32 ec (enc_i (bit_and shamt 0x3F) rs funct3 rd 0x13)

unfoldable pub emit_mv : EmitCtx → ℕ → ℕ → Bool × EmitCtx
emit_mv ec rd rs = emit32 ec (enc_i 0 rs 0 rd 0x13)

-- `imm >= -2048 && imm <= 2047`
abbrev pub fits_12 : ℕ → Bool
fits_12 imm = leb (2 ^ 32 - 2048) imm || leb imm 2047

-- `(imm + 0x800) & ~0xFFF`, with wrap-around.
abbrev pub hi20 : ℕ → ℕ
hi20 imm = bit_and (u32 (imm + 0x800)) 0xFFFFF000

abbrev pub lo12 : ℕ → ℕ
lo12 imm = u32 (imm + 2 ^ 32 - hi20 imm)

unfoldable pub emit_li32 : EmitCtx → ℕ → ℕ → Bool × EmitCtx
emit_li32 ec rd imm =
    if fits_12 imm
    then emit32 ec (enc_i imm 0 0 rd 0x13)
    else and_then (emit32 ec (enc_u (hi20 imm) rd 0x37))
        (λ ec'. emit32 ec' (enc_i (lo12 imm) rd 0 rd 0x13))

-- `imm >= INT32_MIN && imm <= INT32_MAX`, of a 64-bit pattern.
abbrev pub fits_32 : ℕ → Bool
fits_32 imm = leb (2 ^ 64 - 2 ^ 31) imm || ltb imm (2 ^ 31)

unfoldable pub emit_li64 : EmitCtx → ℕ → ℕ → ℕ → Bool × EmitCtx
emit_li64 ec rd scratch imm =
    if fits_32 imm
    then emit_li32 ec rd (u32 imm)
    else if rd == scratch
    then (false, ec)
    else and_then (emit_li32 ec rd (u32 (imm >>> 32))) (λ ec1.
      and_then (emit_shift_imm ec1 rd rd 1 32) (λ ec2.
        and_then (emit_li32 ec2 scratch (u32 imm)) (λ ec3.
          and_then (emit_shift_imm ec3 scratch scratch 1 32) (λ ec4.
            and_then (emit_shift_imm ec4 scratch scratch 5 32)
              (λ ec5. emit32 ec5 (enc_r 0 scratch rd 0 rd 0x33))))))

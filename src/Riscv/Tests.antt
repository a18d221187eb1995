-- ===== src/Riscv/Tests.antt =====
-- Instruction words at concrete operands, and the loading of a constant.
use liric.Base.{
  ℕ, ◌≡◌, refl, arith, List, [], ◌∷◌, replicate, true, false, none, some, ◌+◌, ◌<◌, ◌⊎◌,
}
use liric.Riscv.{EmitCtx, emit32, enc_r, enc_i, enc_u, enc_j, emit_mv, emit_li32, emit_li64}
use liric.Riscv.{emit_shift_imm}
use liric.Riscv.Machine.{exec, run}
use liric.Riscv.Words.{emit_all}
use liric.Riscv.Constants.{emit_li64-run, loaded64}

-- `add x10, x11, x12`, `addi x10, x0, -1`, `lui x10, 0x12345` and `jal x1`.
add_word : enc_r 0 12 11 0 10 0x33 ≡ 0x00C58533
unfolding enc_r
add_word = refl

addi_word : enc_i 0xFFFFFFFF 0 0 10 0x13 ≡ 0xFFF00513
unfolding enc_i
addi_word = refl

lui_word : enc_u 0x12345000 10 0x37 ≡ 0x12345537
unfolding enc_u
lui_word = refl

jal_word : enc_j 1 0x6F ≡ 0xEF
unfolding enc_j
jal_word = refl

abbrev room : ℕ → EmitCtx
room n = record { buf = replicate 8 0; buflen = n; pos = 0 }

mv_bytes : (emit_mv (room 8) 10 11).1.buf ≡ 0x13 ∷ 0x85 ∷ 5 ∷ 0 ∷ 0 ∷ 0 ∷ 0 ∷ 0 ∷ []
unfolding emit_mv emit32 enc_i
mv_bytes = refl

-- The second word has no room.
no_room : (emit_li32 (room 7) 10 0x12345678).0 ≡ false
unfolding emit_li32 emit32
no_room = refl

abbrev no_registers : ℕ → ℕ
no_registers r = 0

-- An `and` is no word of the machine, and neither is an `srai`.
no_and : run (enc_r 0 11 10 7 10 0x33 ∷ []) no_registers ≡ none
unfolding run exec enc_r
no_and = refl

no_srai : run (enc_i 0x420 10 5 10 0x13 ∷ []) no_registers ≡ none
unfolding run exec enc_i
no_srai = refl

abbrev wide_room : EmitCtx
wide_room = record { buf = replicate 32 0; buflen = 32; pos = 0 }

all_emitted : (emit_li64 wide_room 10 11 0x123456789ABCDEF0).0 ≡ true
unfolding emit_li64 emit_li32 emit_shift_imm emit32 enc_i enc_u enc_r
all_emitted = refl

-- The constant 0x123456789ABCDEF0 in the register 10 by way of 11; the register 12 is as before.
emit_li64-run_example :
    (ws : List ℕ) × (regs' : ℕ → ℕ) × (emit_li64 wide_room 10 11 0x123456789ABCDEF0
      ≡ emit_all ws wide_room)
    × (((emit_li64 wide_room 10 11 0x123456789ABCDEF0).0 ≡ true) ⊎ (32 < 0 + 32))
    × (run ws no_registers ≡ some regs')
    × (regs' 10 ≡ loaded64 0x123456789ABCDEF0)
    × (regs' 12 ≡ 0)
emit_li64-run_example =
    emit_li64-run wide_room no_registers 10 11 0x123456789ABCDEF0 12 (omega arith) refl
      (omega arith) (omega arith) (omega arith) (omega arith) (λ e. absurd (omega arith))
      (omega arith) (λ e. absurd (omega arith)) (λ e. absurd (omega arith))

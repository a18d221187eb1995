-- ===== src/Riscv/Fields.antt =====
-- The fields of the instruction words of src/target_riscv64.c.
use liric.Base.{ℕ, ◌+◌, ◌*◌, ◌/◌, ◌%◌, ◌^◌, ◌<◌, ◌≡◌, refl, ◌∙◌, arith}
use liric.Base.{bit_and, ◌<<<◌}
use liric.Riscv.{enc_i, enc_u, enc_r}
use liric.Base.Bits.{fields_bit_or, zero-bit_or, bit_and_mask, bit_and_not}

pub enc_i_lem :
    (imm rs1 funct3 rd opcode : ℕ)
    → rs1 < 32
    → funct3 < 8
    → rd < 32
    → opcode < 128
    → enc_i imm rs1 funct3 rd opcode
      ≡ imm % 4096 * 2 ^ 20 + rs1 * 2 ^ 15 + funct3 * 2 ^ 12 + rd * 2 ^ 7 + opcode
unfolding enc_i
enc_i_lem imm rs1 funct3 rd opcode h1 h2 h3 h4 =
    let a = bit_and_mask 12 imm in
    let b = bit_and_mask 5 rs1 in
    let c = bit_and_mask 3 funct3 in
    let d = bit_and_mask 5 rd in
    let e = bit_and_mask 7 opcode in
    rw (a, b, c, d, e)
      (let w1 = fields_bit_or 20 (imm % 4096) ((rs1 % 2 ^ 5) <<< 15) _ (omega arith) refl in
        let w2 =
          fields_bit_or 15 (imm % 4096 * 2 ^ 5 + rs1) ((funct3 % 2 ^ 3) <<< 12) _ (omega arith)
            (w1 ∙ omega arith) in
        let w3 =
          fields_bit_or 12 (imm % 4096 * 2 ^ 8 + rs1 * 2 ^ 3 + funct3) ((rd % 2 ^ 5) <<< 7) _
            (omega arith) (w2 ∙ omega arith) in
        let w4 =
          fields_bit_or 7 (imm % 4096 * 2 ^ 13 + rs1 * 2 ^ 8 + funct3 * 2 ^ 5 + rd) (opcode % 2 ^ 7)
            _ (omega arith) (w3 ∙ omega arith) in
        w4 ∙ omega arith)

pub enc_u_lem :
    (imm rd opcode : ℕ)
    → imm < 2 ^ 32
    → rd < 32
    → opcode < 128
    → enc_u imm rd opcode ≡ imm / 4096 * 2 ^ 12 + rd * 2 ^ 7 + opcode
unfolding enc_u
enc_u_lem imm rd opcode h1 h2 h3 =
    let a : bit_and imm 0xFFFFF000 ≡ imm / 4096 * 2 ^ 12 =
      omega (arith, bit_and_not 32 imm 0xFFF h1 (omega arith), bit_and_mask 12 imm) in
    let b = bit_and_mask 5 rd in
    let c = bit_and_mask 7 opcode in
    rw (b, c)
      (let w1 = fields_bit_or 12 (imm / 4096) ((rd % 2 ^ 5) <<< 7) _ (omega arith) a in
        let w2 =
          fields_bit_or 7 (imm / 4096 * 2 ^ 5 + rd) (opcode % 2 ^ 7) _ (omega arith)
            (w1 ∙ omega arith) in
        w2 ∙ omega arith)

-- With the field `funct7` 0.
pub enc_r_lem :
    (rs2 rs1 funct3 rd opcode : ℕ)
    → rs2 < 32
    → rs1 < 32
    → funct3 < 8
    → rd < 32
    → opcode < 128
    → enc_r 0 rs2 rs1 funct3 rd opcode
      ≡ rs2 * 2 ^ 20 + rs1 * 2 ^ 15 + funct3 * 2 ^ 12 + rd * 2 ^ 7 + opcode
unfolding enc_r
enc_r_lem rs2 rs1 funct3 rd opcode h0 h1 h2 h3 h4 =
    let a = bit_and_mask 5 rs2 in
    let b = bit_and_mask 5 rs1 in
    let c = bit_and_mask 3 funct3 in
    let d = bit_and_mask 5 rd in
    let e = bit_and_mask 7 opcode in
    rw (a, b, c, d, e)
      (let w0 = zero-bit_or ((rs2 % 2 ^ 5) <<< 20) in
        let w1 = fields_bit_or 20 rs2 ((rs1 % 2 ^ 5) <<< 15) _ (omega arith) (w0 ∙ omega arith) in
        let w2 =
          fields_bit_or 15 (rs2 * 2 ^ 5 + rs1) ((funct3 % 2 ^ 3) <<< 12) _ (omega arith)
            (w1 ∙ omega arith) in
        let w3 =
          fields_bit_or 12 (rs2 * 2 ^ 8 + rs1 * 2 ^ 3 + funct3) ((rd % 2 ^ 5) <<< 7) _ (omega arith)
            (w2 ∙ omega arith) in
        let w4 =
          fields_bit_or 7 (rs2 * 2 ^ 13 + rs1 * 2 ^ 8 + funct3 * 2 ^ 5 + rd) (opcode % 2 ^ 7) _
            (omega arith) (w3 ∙ omega arith) in
        w4 ∙ omega arith)

-- ===== src/Riscv/Machine.antt =====
-- What a 64-bit RISC-V machine does with the words that src/target_riscv64.c emits for constants.
use liric.Base.{ℕ, ◌+◌, ◌-◌, ◌*◌, ◌/◌, ◌%◌, ◌^◌, ◌<◌, ◌≡◌, refl, arith, List, [], ◌∷◌}
use liric.Base.{Option, none, some, ◌>>=?◌, false, ◌&&◌, if◌then◌else◌, ltb, leb, ◌==◌, u64}
use liric.Riscv.{enc_i, enc_u, enc_r}
use liric.Riscv.Fields.{enc_i_lem, enc_u_lem, enc_r_lem}

-- Sign extension of 12 bits and of 32 bits to 64.
abbrev pub sext12 : ℕ → ℕ
sext12 m = if ltb m 2048 then m else m + (2 ^ 64 - 4096)

abbrev pub sext32 : ℕ → ℕ
sext32 v = if ltb v (2 ^ 31) then v else v + (2 ^ 64 - 2 ^ 32)

-- The registers after a write; the register 0 is always 0.
abbrev pub put : (ℕ → ℕ) → ℕ → ℕ → ℕ → ℕ
put regs rd v r = if r == 0 then 0 else if r == rd then v else regs r

-- `addi`, and `slli` and `srli` with the six bits of a shift below a field of zeros.
abbrev pub opimm : ℕ → (ℕ → ℕ) → ℕ → ℕ → ℕ → Option (ℕ → ℕ)
opimm funct3 regs rd rs1 imm =
    if funct3 == 0
    then some (put regs rd (u64 (regs rs1 + sext12 imm)))
    else if funct3 == 1 && ltb imm 64
    then some (put regs rd (u64 (regs rs1 * 2 ^ imm)))
    else if funct3 == 5 && ltb imm 64
    then some (put regs rd (regs rs1 / 2 ^ imm))
    else none

-- `lui`, these, and `add`, which has the fields `funct3` and `funct7` 0. Any other word is `none`.
unfoldable pub exec : ℕ → (ℕ → ℕ) → Option (ℕ → ℕ)
exec w regs =
    if leb (2 ^ 32) w
    then none
    else if w % 128 == 0x37
    then some (put regs (w / 2 ^ 7 % 32) (sext32 (w / 2 ^ 12 * 2 ^ 12)))
    else if w % 128 == 0x13
    then opimm (w / 2 ^ 12 % 8) regs (w / 2 ^ 7 % 32) (w / 2 ^ 15 % 32) (w / 2 ^ 20)
    else if w % 128 == 0x33 && (w / 2 ^ 12 % 8 == 0 && w / 2 ^ 25 == 0)
    then some (put regs (w / 2 ^ 7 % 32) (u64 (regs (w / 2 ^ 15 % 32) + regs (w / 2 ^ 20 % 32))))
    else none

-- `none` where one of the words is.
unfoldable pub run : List ℕ → (ℕ → ℕ) → Option (ℕ → ℕ)
run [] regs = some regs
run (w ∷ ws) regs = exec w regs >>=? run ws

module _ (regs : ℕ → ℕ) (rd : ℕ) (small : rd < 32) where
  pub exec-enc_u :
      (imm : ℕ)
      → imm < 2 ^ 32
      → exec (enc_u imm rd 0x37) regs ≡ some (put regs rd (sext32 (imm / 4096 * 2 ^ 12)))
  unfolding exec
  exec-enc_u imm h =
      let w = enc_u_lem imm rd 0x37 h small (omega arith) in
      let word : leb (2 ^ 32) (enc_u imm rd 0x37) ≡ false = ground arith in
      let op : enc_u imm rd 0x37 % 128 ≡ 0x37 = omega arith in
      let dest : enc_u imm rd 0x37 / 2 ^ 7 % 32 ≡ rd = omega arith in
      let high : enc_u imm rd 0x37 / 2 ^ 12 ≡ imm / 4096 = omega arith in
      rw (word, op, dest, high) refl

  pub exec-enc_i :
      (imm rs1 funct3 : ℕ)
      → rs1 < 32
      → funct3 < 8
      → exec (enc_i imm rs1 funct3 rd 0x13) regs ≡ opimm funct3 regs rd rs1 (imm % 4096)
  unfolding exec
  exec-enc_i imm rs1 funct3 h f =
      let w = enc_i_lem imm rs1 funct3 rd 0x13 h f small (omega arith) in
      let word : leb (2 ^ 32) (enc_i imm rs1 funct3 rd 0x13) ≡ false = ground arith in
      let op : enc_i imm rs1 funct3 rd 0x13 % 128 ≡ 0x13 = omega arith in
      let dest : enc_i imm rs1 funct3 rd 0x13 / 2 ^ 7 % 32 ≡ rd = omega arith in
      let f3 : enc_i imm rs1 funct3 rd 0x13 / 2 ^ 12 % 8 ≡ funct3 = omega arith in
      let source : enc_i imm rs1 funct3 rd 0x13 / 2 ^ 15 % 32 ≡ rs1 = omega arith in
      let value : enc_i imm rs1 funct3 rd 0x13 / 2 ^ 20 ≡ imm % 4096 = omega arith in
      rw (word, op, dest, f3, source, value) refl

  pub exec-add :
      (rs1 rs2 : ℕ)
      → rs1 < 32
      → rs2 < 32
      → exec (enc_r 0 rs2 rs1 0 rd 0x33) regs ≡ some (put regs rd (u64 (regs rs1 + regs rs2)))
  unfolding exec
  exec-add rs1 rs2 h1 h2 =
      let w = enc_r_lem rs2 rs1 0 rd 0x33 h2 h1 (omega arith) small (omega arith) in
      let word : leb (2 ^ 32) (enc_r 0 rs2 rs1 0 rd 0x33) ≡ false = ground arith in
      let op : enc_r 0 rs2 rs1 0 rd 0x33 % 128 ≡ 0x33 = omega arith in
      let f3 : enc_r 0 rs2 rs1 0 rd 0x33 / 2 ^ 12 % 8 ≡ 0 = omega arith in
      let f7 : enc_r 0 rs2 rs1 0 rd 0x33 / 2 ^ 25 ≡ 0 = omega arith in
      let dest : enc_r 0 rs2 rs1 0 rd 0x33 / 2 ^ 7 % 32 ≡ rd = omega arith in
      let source : enc_r 0 rs2 rs1 0 rd 0x33 / 2 ^ 15 % 32 ≡ rs1 = omega arith in
      let other : enc_r 0 rs2 rs1 0 rd 0x33 / 2 ^ 20 % 32 ≡ rs2 = omega arith in
      rw (word, op, f3, f7, dest, source, other) refl

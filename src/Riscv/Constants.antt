-- ===== src/Riscv/Constants.antt =====
-- The constants that `rv_emit_li32` and `rv_emit_li64` of src/target_riscv64.c load.
use mathlib.Core.Path.{fun_ext}
use liric.Base.{
  ℕ, zero, suc, ◌+◌, ◌-◌, ◌*◌, ◌/◌, ◌%◌, ◌^◌, ◌<◌, ◌≡◌, ◌≢◌, refl, sym, ◌∙◌, ap, arith,
}
use liric.Base.{List, [], ◌∷◌, ◌++◌, ◌⊎◌, inl, inr, some, ◌>>=?◌, bind_some, bind_assoc}
use liric.Base.{true, false, ◌&&◌, if◌then◌else◌, ltb, leb, u32, u64, Bool-cases}
use liric.Base.Bits.{bit_and_mask, bit_and_not}
use liric.Riscv.{EmitCtx, emit_li64, fits_12, fits_32, hi20, lo12}
use liric.Riscv.Machine.{sext12, sext32, put, exec, run, exec-enc_u, exec-enc_i, exec-add}
use liric.Riscv.Words.{emit_all, li32_words, li64_words, low_words, last_words}
use liric.Riscv.Words.{emit_li64-words, emit_li64_room}

-- The value of the register after `rv_emit_li32`.
abbrev pub loaded32 : ℕ → ℕ
loaded32 imm = if ltb imm (2 ^ 31 - 2048) then imm else imm + (2 ^ 64 - 2 ^ 32)

put_self : (regs : ℕ → ℕ) (rd v : ℕ) → 0 < rd → put regs rd v rd ≡ v
put_self regs rd v h = ground arith

put-put : (regs : ℕ → ℕ) (rd v w r : ℕ) → put (put regs rd v) rd w r ≡ put regs rd w r
put-put regs rd v w r = ground arith

hi20_lem : (imm : ℕ) → hi20 imm ≡ u32 (imm + 0x800) / 4096 * 4096
hi20_lem imm = omega (
  arith,
  bit_and_not 32 (u32 (imm + 0x800)) 0xFFF (omega arith) (omega arith),
  bit_and_mask 12 (u32 (imm + 0x800)),
)

short_value :
    (imm : ℕ) → imm < 2 ^ 32 → fits_12 imm ≡ true → u64 (0 + sext12 (imm % 4096)) ≡ loaded32 imm
short_value imm h short = ground arith

long_value :
    (imm hi : ℕ)
    → imm < 2 ^ 32
    → fits_12 imm ≡ false
    → hi ≡ u32 (imm + 0x800) / 4096 * 4096
    → u64 (sext32 (hi / 4096 * 2 ^ 12) + sext12 (u32 (imm + 2 ^ 32 - hi) % 4096)) ≡ loaded32 imm
long_value imm hi h long e = ground arith

-- What the words of `rv_emit_li32` do to the registers.
run-li32_words :
    (regs : ℕ → ℕ) (rd imm : ℕ)
    → regs 0 ≡ 0
    → 0 < rd
    → rd < 32
    → imm < 2 ^ 32
    → run (li32_words rd imm) regs ≡ some (put regs rd (loaded32 imm))
unfolding run
run-li32_words regs rd imm zero_reg named small h = elim (Bool-cases (fits_12 imm)) [
  | inl short ↦
      let value : u64 (regs 0 + sext12 (imm % 4096)) ≡ loaded32 imm =
        rw zero_reg (short_value imm h short) in
      rw (short, exec-enc_i regs rd small imm 0 0 (omega arith) (omega arith), value) refl
  | inr long ↦
      let regs' = put regs rd (sext32 (hi20 imm / 4096 * 2 ^ 12)) in
      let hi_small : hi20 imm < 2 ^ 32 = omega (arith, hi20_lem imm) in
      let value : u64 (regs' rd + sext12 (lo12 imm % 4096)) ≡ loaded32 imm =
        rw (put_self regs rd (sext32 (hi20 imm / 4096 * 2 ^ 12)) named)
          (long_value imm (hi20 imm) h long (hi20_lem imm)) in
      rw (long) (
        bind_some _ (exec-enc_u regs rd small (hi20 imm) hi_small) (
          bind_some _ (exec-enc_i regs' rd small (lo12 imm) rd 0 small (omega arith))
            (ap some (ap (put regs' rd) value ∙ fun_ext (λ r. put-put regs rd _ _ r)))))
]

run-append : (ws vs : List ℕ) (regs : ℕ → ℕ) → run (ws ++ vs) regs ≡ (run ws regs >>=? run vs)
unfolding run
run-append [] vs regs = refl
run-append (w ∷ ws) vs regs =
    ap (λ k. exec w regs >>=? k) (fun_ext (λ regs'. run-append ws vs regs'))
    ∙ sym (bind_assoc (exec w regs) (run ws) (run vs))

-- The registers after a shift to the left and to the right by 32.
abbrev moved_up : (ℕ → ℕ) → ℕ → ℕ → ℕ
moved_up regs rd = put regs rd (u64 (regs rd * 2 ^ 32))

abbrev moved_down : (ℕ → ℕ) → ℕ → ℕ → ℕ
moved_down regs rd = put regs rd (regs rd / 2 ^ 32)

put_other : (regs : ℕ → ℕ) (rd v r : ℕ) → regs 0 ≡ 0 → r ≢ rd → put regs rd v r ≡ regs r
put_other regs rd v zero zero_reg differ = sym zero_reg
put_other regs rd v (suc r) zero_reg differ = ground arith

module _ (rd scratch : ℕ) (small : rd < 32) (small' : scratch < 32) where
  -- The registers after the last three words.
  abbrev after_last : (ℕ → ℕ) → ℕ → ℕ
  after_last regs =
      let regs' = moved_down (moved_up regs scratch) scratch in
      put regs' rd (u64 (regs' rd + regs' scratch))

  run-last_words : (regs : ℕ → ℕ) → run (last_words rd scratch) regs ≡ some (after_last regs)
  unfolding run
  run-last_words regs =
      let regs' = moved_up regs scratch in
      bind_some _ (exec-enc_i regs scratch small' 32 scratch 1 small' (omega arith)) (
        bind_some _ (exec-enc_i regs' scratch small' 32 scratch 5 small' (omega arith))
          (bind_some _ (exec-add (moved_down regs' scratch) rd small rd scratch small small') refl))

  last_value :
      (regs : ℕ → ℕ)
      → regs 0 ≡ 0
      → 0 < rd
      → 0 < scratch
      → rd ≢ scratch
      → after_last regs rd ≡ u64 (regs rd + u64 (regs scratch * 2 ^ 32) / 2 ^ 32)
  last_value regs zero_reg named named' differ =
      let up = put_self regs scratch (u64 (regs scratch * 2 ^ 32)) named' in
      let down : moved_down (moved_up regs scratch) scratch scratch
          ≡ u64 (regs scratch * 2 ^ 32) / 2 ^ 32 =
        put_self (moved_up regs scratch) scratch _ named' ∙ ap (λ v. v / 2 ^ 32) up in
      let kept : moved_down (moved_up regs scratch) scratch rd ≡ regs rd =
        put_other (moved_up regs scratch) scratch _ rd refl differ
        ∙ put_other regs scratch _ rd zero_reg differ in
      put_self (moved_down (moved_up regs scratch) scratch) rd _ named ∙ rw (kept, down) refl

  last_others :
      (regs : ℕ → ℕ) (r : ℕ) → regs 0 ≡ 0 → r ≢ rd → r ≢ scratch → after_last regs r ≡ regs r
  last_others regs r zero_reg other other' =
      put_other (moved_down (moved_up regs scratch) scratch) rd _ r refl other
      ∙ put_other (moved_up regs scratch) scratch _ r refl other'
      ∙ put_other regs scratch _ r zero_reg other'

-- The register after `rv_emit_li64`: some constants arrive with their upper 32 bits set.
abbrev pub loaded64 : ℕ → ℕ
loaded64 imm = if leb (2 ^ 31 - 2048) imm && ltb imm (2 ^ 31) then imm + (2 ^ 64 - 2 ^ 32) else imm

short_loaded : (imm : ℕ) → imm < 2 ^ 64 → fits_32 imm ≡ true → loaded32 (u32 imm) ≡ loaded64 imm
short_loaded imm h short = ground arith

long_loaded :
    (imm hi lo : ℕ)
    → imm < 2 ^ 64
    → fits_32 imm ≡ false
    → hi ≡ u32 (imm / 2 ^ 32)
    → lo ≡ u32 imm
    → u64 (u64 (loaded32 hi * 2 ^ 32) + u64 (loaded32 lo * 2 ^ 32) / 2 ^ 32) ≡ loaded64 imm
long_loaded imm hi lo h long e e' = ground arith

module _ (regs : ℕ → ℕ) (rd scratch imm : ℕ) (zero_reg : regs 0 ≡ 0) (named : 0 < rd)
    (small : rd < 32) (named' : 0 < scratch) (small' : scratch < 32) (differ : rd ≢ scratch) where
  abbrev high : ℕ
  high = u32 (imm / 2 ^ 32)

  abbrev low : ℕ
  low = u32 imm

  -- The registers before the last words.
  abbrev before_last : ℕ → ℕ
  before_last = put (moved_up (put regs rd (loaded32 high)) rd) scratch (loaded32 low)

  run-high_words :
      run (li32_words rd high ++ low_words rd scratch imm) regs
      ≡ some (after_last rd scratch small small' before_last)
  unfolding run
  run-high_words =
      let first = run-li32_words regs rd high zero_reg named small (omega arith) in
      let shifted = exec-enc_i (put regs rd (loaded32 high)) rd small 32 rd 1 small (omega arith) in
      let second =
        run-li32_words (moved_up (put regs rd (loaded32 high)) rd) scratch low refl named' small'
          (omega arith) in
      run-append (li32_words rd high) (low_words rd scratch imm) regs
      ∙ bind_some (run (low_words rd scratch imm)) first (
          bind_some (run (li32_words scratch low ++ last_words rd scratch)) shifted (
            run-append (li32_words scratch low) (last_words rd scratch) _
            ∙ bind_some (run (last_words rd scratch)) second
                (run-last_words rd scratch small small' before_last)))

  before_last-rd : before_last rd ≡ u64 (loaded32 high * 2 ^ 32)
  before_last-rd =
      put_other (moved_up (put regs rd (loaded32 high)) rd) scratch _ rd refl differ
      ∙ put_self (put regs rd (loaded32 high)) rd _ named
      ∙ ap (λ v. u64 (v * 2 ^ 32)) (put_self regs rd (loaded32 high) named)

  -- The registers after all words.
  abbrev after_all : ℕ → ℕ
  after_all =
      if fits_32 imm
      then put regs rd (loaded32 low)
      else after_last rd scratch small small' before_last

  run-li64_words : run (li64_words rd scratch imm) regs ≡ some after_all
  run-li64_words = elim (Bool-cases (fits_32 imm)) [
    | inl short ↦ rw (short) (run-li32_words regs rd low zero_reg named small (omega arith))
    | inr long ↦ rw (long) run-high_words
  ]

  after_all-rd : imm < 2 ^ 64 → after_all rd ≡ loaded64 imm
  after_all-rd h = elim (Bool-cases (fits_32 imm)) [
    | inl short ↦ rw (short) (put_self regs rd _ named ∙ short_loaded imm h short)
    | inr long ↦
        let value = long_loaded imm high low h long refl refl in
        let held =
          put_self (moved_up (put regs rd (loaded32 high)) rd) scratch (loaded32 low) named' in
        rw (long) (
          last_value rd scratch small small' before_last refl named named' differ
          ∙ rw (before_last-rd, held) value)
  ]

  after_all_others : (r : ℕ) → r ≢ rd → r ≢ scratch → after_all r ≡ regs r
  after_all_others r other other' = elim (Bool-cases (fits_32 imm)) [
    | inl short ↦ rw (short) (put_other regs rd _ r zero_reg other)
    | inr long ↦ rw (long) (
        last_others rd scratch small small' before_last r refl other other'
        ∙ put_other (moved_up (put regs rd (loaded32 high)) rd) scratch _ r refl other'
        ∙ put_other (put regs rd (loaded32 high)) rd _ r refl other
        ∙ put_other regs rd _ r zero_reg other)
  ]

-- `rv_emit_li64` with two different registers, neither of them the register 0, succeeds unless the
-- buffer has less than 32 bytes left. It emits words one after the other, each of which is `lui`,
-- `addi`, `slli`, `srli` or `add`, and a 64-bit machine that runs them has the constant in the
-- first register, except that a constant from 2 ^ 31 - 2048 to 2 ^ 31 - 1 arrives with its upper 32
-- bits set. The registers but these two are as before.
pub emit_li64-run :
    (ec : EmitCtx) (regs : ℕ → ℕ) (rd scratch imm r : ℕ)
    → ec.buflen < 2 ^ 64
    → regs 0 ≡ 0
    → 0 < rd
    → rd < 32
    → 0 < scratch
    → scratch < 32
    → rd ≢ scratch
    → imm < 2 ^ 64
    → r ≢ rd
    → r ≢ scratch
    → (ws : List ℕ) × (regs' : ℕ → ℕ) × (emit_li64 ec rd scratch imm ≡ emit_all ws ec)
      × (((emit_li64 ec rd scratch imm).0 ≡ true) ⊎ (ec.buflen < ec.pos + 32))
      × (run ws regs ≡ some regs')
      × (regs' rd ≡ loaded64 imm)
      × (regs' r ≡ regs r)
emit_li64-run ec regs rd scratch imm r size zero_reg named small named' small' differ h other
      other' =
    (
      li64_words rd scratch imm,
      after_all regs rd scratch imm zero_reg named small named' small' differ,
      emit_li64-words ec rd scratch imm differ,
      emit_li64_room ec rd scratch imm size differ,
      run-li64_words regs rd scratch imm zero_reg named small named' small' differ,
      after_all-rd regs rd scratch imm zero_reg named small named' small' differ h,
      after_all_others regs rd scratch imm zero_reg named small named' small' differ r other other',
    )

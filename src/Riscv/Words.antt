-- ===== src/Riscv/Words.antt =====
-- `rv_emit_li32` and `rv_emit_li64` of src/target_riscv64.c as lists of words.
use mathlib.Core.Path.{fun_ext}
use liric.Base.{ℕ, ◌/◌, ◌^◌, ◌≡◌, ◌≢◌, refl, sym, ◌∙◌, ap, arith, List, [], ◌∷◌, ◌++◌, inl, inr}
use liric.Base.{Bool, true, false, if◌then◌else◌, ◌==◌, u32, Bool-cases}
use liric.Riscv.{
  EmitCtx, emit32, enc_i, enc_u, enc_r, and_then, emit_li32, emit_li64, emit_shift_imm,
}
use liric.Base.{◌+◌, ◌*◌, ◌≤◌, ◌<◌, ◌⊎◌, ltb, ltb→lt, u64, length, length-append}
use liric.Riscv.{fits_12, fits_32, hi20, lo12}

-- Some words emitted one after the other, up to the first that has no room.
unfoldable pub emit_all : List ℕ → EmitCtx → Bool × EmitCtx
emit_all [] ec = (true, ec)
emit_all (w ∷ ws) ec = and_then (emit32 ec w) (emit_all ws)

and_then_done : (p : Bool × EmitCtx) → and_then p (λ ec. (true, ec)) ≡ p
and_then_done (true, ec) = refl
and_then_done (false, ec) = refl

and_then_assoc :
    (p : Bool × EmitCtx) (f g : EmitCtx → Bool × EmitCtx)
    → and_then (and_then p f) g ≡ and_then p (λ ec. and_then (f ec) g)
and_then_assoc (true, ec) f g = refl
and_then_assoc (false, ec) f g = refl

abbrev pub li32_words : ℕ → ℕ → List ℕ
li32_words rd imm =
    if fits_12 imm
    then enc_i imm 0 0 rd 0x13 ∷ []
    else enc_u (hi20 imm) rd 0x37 ∷ enc_i (lo12 imm) rd 0 rd 0x13 ∷ []

emit_li32-words :
    (ec : EmitCtx) (rd imm : ℕ) → emit_li32 ec rd imm ≡ emit_all (li32_words rd imm) ec
unfolding emit_li32 emit_all
emit_li32-words ec rd imm = elim (Bool-cases (fits_12 imm)) [
  | inl short ↦ rw (short) (sym (and_then_done (emit32 ec (enc_i imm 0 0 rd 0x13))))
  | inr long ↦ rw (long) (
      ap (and_then (emit32 ec (enc_u (hi20 imm) rd 0x37)))
        (fun_ext (λ ec'. sym (and_then_done (emit32 ec' (enc_i (lo12 imm) rd 0 rd 0x13))))))
]

emit_all-append :
    (ws vs : List ℕ) (ec : EmitCtx)
    → emit_all (ws ++ vs) ec ≡ and_then (emit_all ws ec) (emit_all vs)
unfolding emit_all
emit_all-append [] vs ec = refl
emit_all-append (w ∷ ws) vs ec =
    ap (and_then (emit32 ec w)) (fun_ext (λ ec'. emit_all-append ws vs ec'))
    ∙ sym (and_then_assoc (emit32 ec w) (emit_all ws) (emit_all vs))

abbrev pub shift_word : ℕ → ℕ → ℕ
shift_word rd funct3 = enc_i 32 rd funct3 rd 0x13

-- The words behind those of the upper half, and those behind the words of the lower half.
abbrev pub last_words : ℕ → ℕ → List ℕ
last_words rd scratch =
    shift_word scratch 1 ∷ shift_word scratch 5 ∷ enc_r 0 scratch rd 0 rd 0x33 ∷ []

abbrev pub low_words : ℕ → ℕ → ℕ → List ℕ
low_words rd scratch imm = shift_word rd 1 ∷ (li32_words scratch (u32 imm) ++ last_words rd scratch)

abbrev pub li64_words : ℕ → ℕ → ℕ → List ℕ
li64_words rd scratch imm =
    if fits_32 imm
    then li32_words rd (u32 imm)
    else li32_words rd (u32 (imm / 2 ^ 32)) ++ low_words rd scratch imm

-- The last parts of `rv_emit_li64`.
abbrev last_emits : ℕ → ℕ → EmitCtx → Bool × EmitCtx
last_emits rd scratch ec3 = and_then (emit_shift_imm ec3 scratch scratch 1 32) (λ ec4.
    and_then (emit_shift_imm ec4 scratch scratch 5 32)
      (λ ec5. emit32 ec5 (enc_r 0 scratch rd 0 rd 0x33)))

abbrev low_emits : ℕ → ℕ → ℕ → EmitCtx → Bool × EmitCtx
low_emits rd scratch imm ec1 =
    and_then (emit_shift_imm ec1 rd rd 1 32)
      (λ ec2. and_then (emit_li32 ec2 scratch (u32 imm)) (last_emits rd scratch))

last_emits-words :
    (ec : EmitCtx) (rd scratch : ℕ) → last_emits rd scratch ec ≡ emit_all (last_words rd scratch) ec
unfolding emit_all emit_shift_imm
last_emits-words ec rd scratch = ap (and_then (emit32 ec (shift_word scratch 1))) (
    fun_ext (λ ec4.
      ap (and_then (emit32 ec4 (shift_word scratch 5)))
        (fun_ext (λ ec5. sym (and_then_done (emit32 ec5 (enc_r 0 scratch rd 0 rd 0x33)))))))

after_li32 :
    (ec : EmitCtx) (rd imm : ℕ) (next : EmitCtx → Bool × EmitCtx) (ws : List ℕ)
    → ((ec' : EmitCtx) → next ec' ≡ emit_all ws ec')
    → and_then (emit_li32 ec rd imm) next ≡ emit_all (li32_words rd imm ++ ws) ec
after_li32 ec rd imm next ws same =
    ap (λ p. and_then p next) (emit_li32-words ec rd imm)
    ∙ ap (and_then (emit_all (li32_words rd imm) ec)) (fun_ext same)
    ∙ sym (emit_all-append (li32_words rd imm) ws ec)

low_emits-words :
    (ec : EmitCtx) (rd scratch imm : ℕ)
    → low_emits rd scratch imm ec ≡ emit_all (low_words rd scratch imm) ec
unfolding emit_all emit_shift_imm
low_emits-words ec rd scratch imm = ap (and_then (emit32 ec (shift_word rd 1))) (
    fun_ext (λ ec2.
      after_li32 ec2 scratch (u32 imm) (last_emits rd scratch) (last_words rd scratch)
        (λ ec3. last_emits-words ec3 rd scratch)))

pub emit_li64-words :
    (ec : EmitCtx) (rd scratch imm : ℕ)
    → rd ≢ scratch
    → emit_li64 ec rd scratch imm ≡ emit_all (li64_words rd scratch imm) ec
unfolding emit_li64
emit_li64-words ec rd scratch imm differ = elim (Bool-cases (fits_32 imm)) [
  | inl short ↦ rw (short) (emit_li32-words ec rd (u32 imm))
  | inr long ↦
      let distinct : (rd == scratch) ≡ false = ground arith in
      rw (long, distinct)
        (after_li32 ec rd (u32 (imm / 2 ^ 32)) (low_emits rd scratch imm) (low_words rd scratch imm)
          (λ ec1. low_emits-words ec1 rd scratch imm))
]

-- With four bytes for each word, all words are emitted.
emit_all_fits :
    (ws : List ℕ) (ec : EmitCtx)
    → ec.buflen < 2 ^ 64
    → ec.pos + length ws * 4 ≤ ec.buflen
    → (emit_all ws ec).0 ≡ true
unfolding emit_all emit32
emit_all_fits [] ec size fits = refl
emit_all_fits (w ∷ ws) ec size fits =
    let next : u64 (ec.pos + 4) ≡ ec.pos + 4 = omega arith in
    let room : ltb ec.buflen (u64 (ec.pos + 4)) ≡ false = ground (arith, next) in
    rw room (emit_all_fits ws _ size (omega arith))

length-li32_words : (rd imm : ℕ) → length (li32_words rd imm) ≤ 2
length-li32_words rd imm = elim (Bool-cases (fits_12 imm)) [
  | inl short ↦ rw (short) (omega arith)
  | inr long ↦ rw (long) (omega arith)
]

length-li64_words : (rd scratch imm : ℕ) → length (li64_words rd scratch imm) ≤ 8
length-li64_words rd scratch imm = elim (Bool-cases (fits_32 imm)) [
  | inl short ↦ rw (short) (omega (arith, length-li32_words rd (u32 imm)))
  | inr long ↦ rw (long) (
      omega (
        arith,
        length-append (li32_words rd (u32 (imm / 2 ^ 32))) (low_words rd scratch imm),
        length-append (li32_words scratch (u32 imm)) (last_words rd scratch),
        length-li32_words rd (u32 (imm / 2 ^ 32)),
        length-li32_words scratch (u32 imm),
      ))
]

pub emit_li64_room :
    (ec : EmitCtx) (rd scratch imm : ℕ)
    → ec.buflen < 2 ^ 64
    → rd ≢ scratch
    → ((emit_li64 ec rd scratch imm).0 ≡ true) ⊎ (ec.buflen < ec.pos + 32)
emit_li64_room ec rd scratch imm size differ = elim (Bool-cases (ltb ec.buflen (ec.pos + 32))) [
  | inl little ↦ inr (ltb→lt _ _ little)
  | inr enough ↦
      let fits : ec.pos + length (li64_words rd scratch imm) * 4 ≤ ec.buflen =
        ground (arith, length-li64_words rd scratch imm) in
      inl (
        ap (λ (q : Bool × EmitCtx). q.0) (emit_li64-words ec rd scratch imm differ)
        ∙ emit_all_fits (li64_words rd scratch imm) ec size fits)
]

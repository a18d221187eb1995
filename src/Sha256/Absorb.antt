-- ===== src/Sha256/Absorb.antt =====
-- The loop over the blocks in `lr_sha256_update` of src/sha256.c.
use liric.Base.{ℕ, zero, suc, ◌+◌, ◌*◌, ◌%◌, ◌≤◌, ◌<◌, ◌≡◌, refl, sym, ap, ◌∙◌, arith}
use liric.Base.{inl, inr, Bool-cases, List, ◌++◌, length, take, drop, length-drop}
use liric.Base.{leb, if_true, if_false, length-append}
use liric.Base.{take-append_left, drop-append_left}
use liric.Sha256.{Words, compress, absorb}

-- The fuel lasts for the blocks in the bytes.
abbrev pub Enough : ℕ → List ℕ → Type 0
Enough fuel src = length src < 64 * fuel + 64

module _ (fuel : ℕ) (state : Words) (src : List ℕ) where
  pub absorb_block :
      64 ≤ length src
      → absorb (suc fuel) state src ≡ absorb fuel (compress state (take 64 src)) (drop 64 src)
  unfolding absorb
  absorb_block long = if_true {b = leb 64 (length src)} _ _ (ground arith)

pub absorb_short :
    (fuel : ℕ) (state : Words) (src : List ℕ)
    → length src < 64
    → absorb fuel state src ≡ (state, src)
unfolding absorb
absorb_short zero state src short = refl
absorb_short (suc fuel) state src short = if_false {b = leb 64 (length src)} _ _ (ground arith)

-- More fuel than is enough changes nothing.
pub absorb_fuel :
    (f g : ℕ) (state : Words) (src : List ℕ)
    → Enough f src
    → Enough g src
    → absorb f state src ≡ absorb g state src
absorb_fuel zero g state src e h =
    absorb_short zero state src (omega arith) ∙ sym (absorb_short g state src (omega arith))
absorb_fuel (suc f) zero state src e h =
    absorb_short (suc f) state src (omega arith) ∙ sym (absorb_short zero state src (omega arith))
absorb_fuel (suc f) (suc g) state src e h = elim (Bool-cases (leb 64 (length src))) [
  | inl long ↦
      let le : 64 ≤ length src = ground arith in
      let size = length-drop 64 src in
      absorb_block f state src le
      ∙ absorb_fuel f g (compress state (take 64 src)) (drop 64 src) (omega arith) (omega arith)
      ∙ sym (absorb_block g state src le)
  | inr short ↦
      let lt : length src < 64 = ground arith in
      absorb_short (suc f) state src lt ∙ sym (absorb_short (suc g) state src lt)
]

-- What is left is the length modulo the size of a block.
pub length-absorb :
    (fuel : ℕ) (state : Words) (src : List ℕ)
    → Enough fuel src
    → length (absorb fuel state src).1 ≡ length src % 64
length-absorb zero state src e =
    ap (λ r. length r.1) (absorb_short zero state src (omega arith)) ∙ omega arith
length-absorb (suc fuel) state src e = elim (Bool-cases (leb 64 (length src))) [
  | inl long ↦
      let le : 64 ≤ length src = ground arith in
      let size = length-drop 64 src in
      let rest = length-absorb fuel (compress state (take 64 src)) (drop 64 src) (omega arith) in
      ap (λ r. length r.1) (absorb_block fuel state src le) ∙ omega (arith, rest, size)
  | inr short ↦
      let lt : length src < 64 = ground arith in
      ap (λ r. length r.1) (absorb_short (suc fuel) state src lt) ∙ omega arith
]

short-append :
    (g k : ℕ) (state : Words) (xs ys : List ℕ) (left : Words × List ℕ)
    → ◌≡◌ {A = Words × List ℕ} (state, xs) left
    → Enough g (xs ++ ys)
    → Enough k (left.1 ++ ys)
    → absorb g state (xs ++ ys) ≡ absorb k left.0 (left.1 ++ ys)
short-append g k state xs ys left e h r =
    let size = ap (λ p. length (p.1 ++ ys)) e in
    absorb_fuel g k state (xs ++ ys) h (omega (arith, size, r))
    ∙ ap (λ p. absorb k p.0 (p.1 ++ ys)) e

-- The bytes may be given in two parts: what is left of the first goes before the second.
pub absorb-append :
    (f g k : ℕ) (state : Words) (xs ys : List ℕ) (left : Words × List ℕ)
    → Enough f xs
    → Enough g (xs ++ ys)
    → absorb f state xs ≡ left
    → Enough k (left.1 ++ ys)
    → absorb g state (xs ++ ys) ≡ absorb k left.0 (left.1 ++ ys)
absorb-append zero g k state xs ys left e h at r =
    short-append g k state xs ys left (sym (absorb_short zero state xs (omega arith)) ∙ at) h r
absorb-append (suc f) zero k state xs ys left e h at r =
    let sizes = length-append xs ys in
    let short = absorb_short (suc f) state xs (omega arith) in
    short-append zero k state xs ys left (sym short ∙ at) h r
absorb-append (suc f) (suc g) k state xs ys left e h at r = elim (Bool-cases (leb 64 (length xs))) [
  | inl long ↦
      let le : 64 ≤ length xs = ground arith in
      let s = compress state (take 64 xs) in
      let size = length-drop 64 xs in
      let sizes = length-append xs ys in
      let sizes' = length-append (drop 64 xs) ys in
      let at' = sym (absorb_block f state xs le) ∙ at in
      absorb_block g state (xs ++ ys) (omega arith)
      ∙ ap (λ b. absorb g (compress state b) (drop 64 (xs ++ ys))) (take-append_left 64 xs ys le)
      ∙ ap (absorb g s) (drop-append_left 64 xs ys le)
      ∙ absorb-append f g k s (drop 64 xs) ys left (omega arith) (omega arith) at' r
  | inr short ↦
      let lt : length xs < 64 = ground arith in
      short-append (suc g) k state xs ys left (sym (absorb_short (suc f) state xs lt) ∙ at) h r
]

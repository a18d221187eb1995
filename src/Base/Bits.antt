-- ===== src/Base/Bits.antt =====
-- Masks, disjoint `|`, complements and the sign bit as arithmetic, at every width.
-- The native bit operations mean a recursion on binary digits; each law is proved from one
-- equation for the lowest digit.
mod Step
use Step.{bit_or_step, bit_and_step, bit_xor_step}
use Prim.Native.Nat.{ℕ, zero, suc, ◌+◌, ◌-◌, ◌*◌, ◌/◌, ◌%◌, ◌^◌, ◌≤◌, ◌<◌, min, max}
use Prim.Native.Nat.{bit_and, bit_or, bit_xor}
use mathlib.Core.Path.{◌≡◌, refl, ap, sym, ◌∙◌}
use mathlib.Core.WellFounded.{Acc, WellFounded, induction}
use native.Mathlib.Nat.{div-div-eq-div-mul, pow-suc, one-le-pow, le_refl}
use native.Mathlib.Omega.{arith}

Acc-below : (k n : ℕ) → n < k → Acc ◌<◌ n
Acc-below zero n h = absurd (omega arith)
Acc-below (suc k) n h = Acc.intro n (λ m hm. Acc-below k m (omega arith))

pub lt_wf : WellFounded ◌<◌
lt_wf = record { apply = λ n. Acc-below (suc n) n (le_refl _) }

-- Two functions agree that agree at 0, and at a number where they agree at its half.
halving :
    (f g : ℕ → ℕ)
    → f 0 ≡ g 0
    → ((n : ℕ) → f (suc n / 2) ≡ g (suc n / 2) → f (suc n) ≡ g (suc n))
    → (n : ℕ) → f n ≡ g n
halving f g base step n = induction lt_wf {C = λ m. f m ≡ g m} n go
  where
    go : (m : ℕ) → ((k : ℕ) → k < m → f k ≡ g k) → f m ≡ g m
    go zero below = base
    go (suc m) below = step m (below (suc m / 2) (omega arith))

pub zero-bit_or : (a : ℕ) → bit_or 0 a ≡ a
zero-bit_or =
    halving (λ n. bit_or 0 n) (λ n. n) refl (λ n e. omega (arith, bit_or_step 0 (suc n), e))

pub bit_or-zero : (a : ℕ) → bit_or a 0 ≡ a
bit_or-zero =
    halving (λ n. bit_or n 0) (λ n. n) refl (λ n e. omega (arith, bit_or_step (suc n) 0, e))

pub zero-bit_xor : (a : ℕ) → bit_xor 0 a ≡ a
zero-bit_xor =
    halving (λ n. bit_xor 0 n) (λ n. n) refl (λ n e. omega (arith, bit_xor_step 0 (suc n), e))

pub bit_xor-zero : (a : ℕ) → bit_xor a 0 ≡ a
bit_xor-zero =
    halving (λ n. bit_xor n 0) (λ n. n) refl (λ n e. omega (arith, bit_xor_step (suc n) 0, e))

pub bit_and-zero : (a : ℕ) → bit_and a 0 ≡ 0
bit_and-zero =
    halving (λ n. bit_and n 0) (λ n. 0) refl (λ n e. omega (arith, bit_and_step (suc n) 0, e))

pub zero-bit_and : (a : ℕ) → bit_and 0 a ≡ 0
zero-bit_and =
    halving (λ n. bit_and 0 n) (λ n. 0) refl (λ n e. omega (arith, bit_and_step 0 (suc n), e))

pub bit_and_self : (a : ℕ) → bit_and a a ≡ a
bit_and_self =
    halving (λ n. bit_and n n) (λ n. n) refl (λ n e. omega (arith, bit_and_step (suc n) (suc n), e))

pub bit_and_comm : (b a : ℕ) → bit_and a b ≡ bit_and b a
bit_and_comm b = induction lt_wf b step
  where
    step :
        (n : ℕ)
        → ((m : ℕ) → m < n → (a : ℕ) → bit_and a m ≡ bit_and m a)
        → (a : ℕ) → bit_and a n ≡ bit_and n a
    step zero ih a = bit_and-zero a ∙ sym (zero-bit_and a)
    step (suc n) ih a = omega (
      arith,
      bit_and_step a (suc n),
      bit_and_step (suc n) a,
      ih (suc n / 2) (omega arith) (a / 2),
    )

pub bit_and_le : (a b : ℕ) → bit_and a b ≤ b
bit_and_le a b = induction lt_wf {C = λ b. (a : ℕ) → bit_and a b ≤ b} b step a
  where
    step : (n : ℕ) → ((m : ℕ) → m < n → (a : ℕ) → bit_and a m ≤ m) → (a : ℕ) → bit_and a n ≤ n
    step zero ih a = omega (arith, bit_and-zero a)
    step (suc n) ih a = omega (arith, bit_and_step a (suc n), ih (suc n / 2) (omega arith) (a / 2))

double_shift : (k q : ℕ) → 2 * (q * 2 ^ k) ≡ q * 2 ^ suc k
double_shift k q = let e = ap (λ t. q * t) (pow-suc 2 k) in omega (arith, e)

-- `r | (q << k)` is a sum when `r` fits `k` bits.
pub bit_or_fields : (k q r : ℕ) → r < 2 ^ k → bit_or r (q * 2 ^ k) ≡ r + q * 2 ^ k
bit_or_fields zero q r fits =
    let z : r ≡ 0 = omega arith in
    rw z (omega (arith, zero-bit_or (q * 1), zero-bit_or (q * 2 ^ 0)))
bit_or_fields (suc k) q r fits = ground (
  arith,
  bit_or_step r (q * 2 ^ suc k),
  double_shift k q,
  pow-suc 2 k,
  bit_or_fields k q (r / 2) (omega (arith, pow-suc 2 k)),
)

-- `(q << k) | r`, the same with the operands the other way round.
pub fields_bit_or : (k q r x : ℕ) → r < 2 ^ k → x ≡ q * 2 ^ k → bit_or x r ≡ q * 2 ^ k + r
fields_bit_or k q r x fits e = rw e (ordered k q r fits)
  where
    ordered : (k q r : ℕ) → r < 2 ^ k → bit_or (q * 2 ^ k) r ≡ q * 2 ^ k + r
    ordered zero q r fits =
        let z : r ≡ 0 = omega arith in
        rw z (omega (arith, bit_or-zero (q * 1), bit_or-zero (q * 2 ^ 0)))
    ordered (suc k) q r fits = ground (
      arith,
      bit_or_step (q * 2 ^ suc k) r,
      double_shift k q,
      pow-suc 2 k,
      ordered k q (r / 2) (omega (arith, pow-suc 2 k)),
    )

-- The same for an operand that is known to be a multiple.
pub bit_or_shifted : (k q r x : ℕ) → r < 2 ^ k → x ≡ q * 2 ^ k → bit_or r x ≡ r + q * 2 ^ k
bit_or_shifted k q r x fits e = rw e (bit_or_fields k q r fits)

bit_and_fields : (k q r : ℕ) → r < 2 ^ k → bit_and (q * 2 ^ k + r) (2 ^ k - 1) ≡ r
bit_and_fields zero q r fits = rw bit_and-zero (omega arith)
bit_and_fields (suc k) q r fits = ground (
  arith,
  bit_and_step (q * 2 ^ suc k + r) (2 ^ suc k - 1),
  double_shift k q,
  pow-suc 2 k,
  bit_and_fields k q (r / 2) (omega (arith, pow-suc 2 k)),
)

-- A mask of `k` low bits is the remainder by `2 ^ k`.
pub bit_and_mask : (k a : ℕ) → bit_and a (2 ^ k - 1) ≡ a % 2 ^ k
bit_and_mask k a = ground (arith, one-le-pow k 2, bit_and_fields k (a / 2 ^ k) (a % 2 ^ k))

-- `x & ~m` at width `k`, with `~m` written as `2 ^ k - 1 - m`.
pub mask_bit_and : (k a : ℕ) → bit_and (2 ^ k - 1) a ≡ a % 2 ^ k
mask_bit_and k a = bit_and_comm a (2 ^ k - 1) ∙ bit_and_mask k a

pub bit_and_not : (k x m : ℕ) → x < 2 ^ k → m < 2 ^ k → bit_and x (2 ^ k - 1 - m) + bit_and x m ≡ x
bit_and_not zero x m hx hm =
    let z : x ≡ 0 = omega arith in let y : m ≡ 0 = omega arith in rw (z, y) refl
bit_and_not (suc k) x m hx hm = ground (
  arith,
  pow-suc 2 k,
  bit_and_step x (2 ^ suc k - 1 - m),
  bit_and_step x m,
  bit_and_not k (x / 2) (m / 2) (omega (arith, pow-suc 2 k)) (omega (arith, pow-suc 2 k)),
)

-- `v ^ sign` moves `v` by half of the range of `k + 1` bits.
pub bit_xor_sign_low : (k v : ℕ) → v < 2 ^ k → bit_xor v (2 ^ k) ≡ v + 2 ^ k
bit_xor_sign_low zero v h = let z : v ≡ 0 = omega arith in rw z refl
bit_xor_sign_low (suc k) v h = ground (
  arith,
  pow-suc 2 k,
  bit_xor_step v (2 ^ suc k),
  bit_xor_sign_low k (v / 2) (omega (arith, pow-suc 2 k)),
)

pub bit_xor_sign_high : (k v : ℕ) → v < 2 ^ k → bit_xor (v + 2 ^ k) (2 ^ k) ≡ v
bit_xor_sign_high zero v h = let z : v ≡ 0 = omega arith in rw z refl
bit_xor_sign_high (suc k) v h = ground (
  arith,
  pow-suc 2 k,
  bit_xor_step (v + 2 ^ suc k) (2 ^ suc k),
  bit_xor_sign_high k (v / 2) (omega (arith, pow-suc 2 k)),
)

-- A mask of one bit.
pub bit_and_single : (k a : ℕ) → bit_and a (2 ^ k) ≡ a / 2 ^ k % 2 * 2 ^ k
bit_and_single zero a = ground (arith, bit_and_mask 1 a)
bit_and_single (suc k) a =
    let e : a / 2 / 2 ^ k ≡ a / 2 ^ suc k =
      div-div-eq-div-mul a 2 (2 ^ k) ∙ ap (λ (t : ℕ). a / t) two_pow in
    let d : bit_and (a / 2) (2 ^ k) ≡ a / 2 ^ suc k % 2 * 2 ^ k =
      rw e at (bit_and_single k (a / 2)) in
    omega
      (arith, pow-suc 2 k, bit_and_step a (2 ^ suc k), d, double_shift k (a / 2 ^ suc k % 2), half)
  where
    two_pow : 2 * 2 ^ k ≡ 2 ^ suc k
    two_pow = omega (arith, pow-suc 2 k)

    half : bit_and (a / 2) (2 ^ suc k / 2) ≡ bit_and (a / 2) (2 ^ k)
    half = ap (bit_and (a / 2)) (omega (arith, pow-suc 2 k))

bit_and_halves :
    (x y a b : ℕ) → x / 2 ≡ a → y / 2 ≡ b → bit_and x y ≡ bit_and a b * 2 + min (x % 2) (y % 2)
bit_and_halves x y a b e e' = rw (← e, ← e') (bit_and_step x y)

-- The lowest digit of `4 * q + j` for an odd `q` and `j` below 4, by the mask `~(4 * q - 1)`.
pub bit_and_lowest :
    (r j : ℕ) → r < 2 ^ 61 → j < 4 → bit_and (4 * (2 * r + 1) + j) (2 ^ 64 - 4 * (2 * r + 1)) ≡ 4
bit_and_lowest r j small low =
    let q = 2 * r + 1 in
    let none_left : bit_and r (2 ^ 61 - 1 - r) ≡ 0 =
      omega (arith, bit_and_not 61 r r small small, bit_and_self r) in
    let odd : bit_and q (2 ^ 62 - q) ≡ 1 = omega (
      arith,
      bit_and_halves q (2 ^ 62 - q) r (2 ^ 61 - 1 - r) (omega arith) (omega arith),
      none_left,
    ) in
    let twice : bit_and (2 * q + j / 2) (2 ^ 63 - 2 * q) ≡ 2 = omega (
      arith,
      bit_and_halves (2 * q + j / 2) (2 ^ 63 - 2 * q) q (2 ^ 62 - q) (omega arith) (omega arith),
      odd,
    ) in
    omega (
      arith,
      bit_and_halves (4 * q + j) (2 ^ 64 - 4 * q) (2 * q + j / 2) (2 ^ 63 - 2 * q) (omega arith)
          (omega arith),
      twice,
    )

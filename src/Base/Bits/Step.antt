-- ===== src/Base/Bits/Step.antt =====
-- The lowest digit of `&`, `|` and `^`: each native operation is a recursion on binary digits that
-- counts down.
use Prim.Native.Nat.{ℕ, zero, suc, ◌+◌, ◌-◌, ◌*◌, ◌/◌, ◌%◌, ◌≤◌, ◌<◌, min, max, differ}
use Prim.Native.Nat.{bit_and, bit_or, bit_xor, digits, bitwise}
use Prim.Native.Nat.{bit_and-bitwise, bit_or-bitwise, bit_xor-bitwise}
use mathlib.Core.Path.{◌≡◌, refl, ap, ◌∙◌}
use native.Mathlib.Omega.{arith}

-- `beyond` is what is left when the left number has no more digits, `digit` joins two of them.
module _ (beyond : ℕ → ℕ) (digit : ℕ → ℕ → ℕ) where
  one_more : (k x y : ℕ) → x ≤ k → digits beyond digit (suc k) x y ≡ digits beyond digit k x y
  one_more zero zero y h = refl
  one_more zero (suc x) y h = absurd (omega arith)
  one_more (suc k) zero y h = refl
  one_more (suc k) (suc x) y h =
      ap (λ t. t * 2 + digit (suc x % 2) (y % 2)) (one_more k (suc x / 2) (y / 2) (omega arith))

  surplus : (j k x y : ℕ) → x ≤ k → digits beyond digit (j + k) x y ≡ digits beyond digit k x y
  surplus zero k x y h = let e : 0 + k ≡ k = omega arith in ap (λ t. digits beyond digit t x y) e
  surplus (suc j) k x y h =
      let e : suc j + k ≡ suc (j + k) = omega arith in
      ap (λ t. digits beyond digit t x y) e ∙ one_more (j + k) x y (omega arith) ∙ surplus j k x y h

  lowest :
      (x y : ℕ)
      → bitwise beyond digit (suc x) y
        ≡ bitwise beyond digit (suc x / 2) (y / 2) * 2 + digit (suc x % 2) (y % 2)
  lowest x y = ap (λ t. t * 2 + digit (suc x % 2) (y % 2)) enough
    where
      half : ℕ
      half = suc x / 2

      enough : digits beyond digit x half (y / 2) ≡ digits beyond digit half half (y / 2)
      enough =
          ap (λ t. digits beyond digit t half (y / 2)) gap
          ∙ surplus (x - half) half half (y / 2) (omega arith)
        where
          gap : x ≡ x - half + half
          gap = omega arith

differ_lem : (d e : ℕ) → d < 2 → e < 2 → differ d e ≡ (d + e) % 2
differ_lem zero e h k = omega arith
differ_lem (suc zero) zero h k = refl
differ_lem (suc zero) (suc zero) h k = refl
differ_lem (suc zero) (suc (suc e)) h k = absurd (omega arith)
differ_lem (suc (suc d)) e h k = absurd (omega arith)

pub bit_xor_step : (a b : ℕ) → bit_xor a b ≡ bit_xor (a / 2) (b / 2) * 2 + (a % 2 + b % 2) % 2
bit_xor_step zero b = simp bit_xor-bitwise (omega arith)
bit_xor_step (suc a) b = omega (
  arith,
  bit_xor-bitwise (suc a) b,
  bit_xor-bitwise (suc a / 2) (b / 2),
  lowest (λ y. y) differ a b,
  differ_lem (suc a % 2) (b % 2) (omega arith) (omega arith),
)

pub bit_and_step : (x y : ℕ) → bit_and x y ≡ bit_and (x / 2) (y / 2) * 2 + min (x % 2) (y % 2)
bit_and_step zero y = omega (arith, bit_and-bitwise 0 y, bit_and-bitwise 0 (y / 2))
bit_and_step (suc x) y =
    omega (
      arith,
      lowest (λ z. 0) min x y,
      bit_and-bitwise (suc x / 2) (y / 2),
      bit_and-bitwise (suc x) y,
    )

pub bit_or_step : (x y : ℕ) → bit_or x y ≡ bit_or (x / 2) (y / 2) * 2 + max (x % 2) (y % 2)
bit_or_step zero y = omega (arith, bit_or-bitwise 0 y, bit_or-bitwise 0 (y / 2))
bit_or_step (suc x) y =
    omega
      (arith, lowest (λ z. z) max x y, bit_or-bitwise (suc x / 2) (y / 2), bit_or-bitwise (suc x) y)

-- ===== src/Base/Digits.antt =====
-- The native `bit_and`, `bit_or` and `bit_xor` stand for a recursion on binary digits with fuel.
-- Here is one equation for the lowest digit of each, without fuel.
use Prim.Native.Nat.{
  ℕ, zero, suc, ◌+◌, ◌*◌, ◌/◌, ◌%◌, ◌≤◌, ◌<◌, min, max, digits, bitwise, bit_and, bit_or, bit_xor,
  bit_and-bitwise, bit_or-bitwise, bit_xor-bitwise, differ,
}
use mathlib.Core.Path.{◌≡◌, refl, ap}
use native.Mathlib.Nat.{le_refl}
use native.Mathlib.Omega.{arith}

module _ (z : ℕ → ℕ) (f : ℕ → ℕ → ℕ) where
  fuel_irrelevant : (x y k l : ℕ) → x ≤ k → x ≤ l → digits z f k x y ≡ digits z f l x y
  fuel_irrelevant zero y zero zero h g = refl
  fuel_irrelevant zero y (suc k) zero h g = refl
  fuel_irrelevant zero y zero (suc l) h g = refl
  fuel_irrelevant zero y (suc k) (suc l) h g = refl
  fuel_irrelevant (suc x) y (suc k) zero h g = absurd (omega arith)
  fuel_irrelevant (suc x) y zero l h g = absurd (omega arith)
  fuel_irrelevant (suc x) y (suc k) (suc l) h g =
      let shorter = fuel_irrelevant (suc x / 2) (y / 2) k l (omega arith) (omega arith) in
      ap (λ d. d * 2 + f (suc x % 2) (y % 2)) shorter

  lowest_digit :
      (x y : ℕ)
      → bitwise z f (suc x) y ≡ f (suc x % 2) (y % 2) + 2 * bitwise z f (suc x / 2) (y / 2)
  lowest_digit x y =
      let half = suc x / 2 in
      omega (arith, fuel_irrelevant half (y / 2) x half (omega arith) (le_refl _))

pub bit_and_step : (m n : ℕ) → bit_and m n ≡ min (m % 2) (n % 2) + 2 * bit_and (m / 2) (n / 2)
bit_and_step zero n = simp bit_and-bitwise (omega arith)
bit_and_step (suc m) n = simp bit_and-bitwise (lowest_digit (λ e. 0) min m n)

differ_digits : (d e : ℕ) → d < 2 → e < 2 → differ d e ≡ (d + e) % 2
differ_digits zero zero p q = refl
differ_digits zero (suc zero) p q = refl
differ_digits (suc zero) zero p q = refl
differ_digits (suc zero) (suc zero) p q = refl
differ_digits zero (suc (suc e)) p q = absurd (omega arith)
differ_digits (suc zero) (suc (suc e)) p q = absurd (omega arith)
differ_digits (suc (suc d)) e p q = absurd (omega arith)

pub bit_xor_step : (a b : ℕ) → bit_xor a b ≡ bit_xor (a / 2) (b / 2) * 2 + (a + b) % 2
bit_xor_step zero b = simp bit_xor-bitwise (omega arith)
bit_xor_step (suc a) b = simp bit_xor-bitwise (
    omega (
      arith,
      lowest_digit (λ y. y) differ a b,
      differ_digits (suc a % 2) (b % 2) (omega arith) (omega arith),
    ))

pub bit_or_step : (m n : ℕ) → bit_or m n ≡ max (m % 2) (n % 2) + 2 * bit_or (m / 2) (n / 2)
bit_or_step zero n = simp bit_or-bitwise (omega arith)
bit_or_step (suc m) n = simp bit_or-bitwise (lowest_digit (λ e. e) max m n)

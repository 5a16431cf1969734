-- ===== src/Base/Bits.antt =====
-- A number as a set of bits: what `&`, `|`, `^` and a single-bit mask do to bit `i`.
use mathlib.Core.Logic.{inl, inr}
use protocol_pfe.Base.Tests.{Bool-cases, ◌==◌, if◌then◌else◌}
use protocol_pfe.Base.Digits.{bit_and_step, bit_or_step, bit_xor_step}
use Prim.Native.Nat.{
  ℕ, zero, suc, ◌*◌, ◌/◌, ◌%◌, ◌^◌, ◌<◌, ◌≤◌, bit_and, bit_or, bit_xor, bit_and-bitwise,
}
use mathlib.Core.Path.{◌≡◌, refl}
use mathlib.Core.Bool.{Bool, false, not, ◌&&◌, ◌||◌}
use native.Mathlib.Nat.{pow-suc}
use native.Mathlib.Omega.{arith}

-- Bit `i` of `s`.
abbrev pub bit : ℕ → ℕ → Bool
bit s zero = s % 2 == 1
bit s (suc i) = bit (s / 2) i

pub bit-bit_and : (i a b : ℕ) → bit (bit_and a b) i ≡ (bit a i && bit b i)
bit-bit_and zero a b = ground (arith, bit_and_step a b)
bit-bit_and (suc i) a b =
    let e : bit_and a b / 2 ≡ bit_and (a / 2) (b / 2) = omega (arith, bit_and_step a b) in
    rw e (bit-bit_and i (a / 2) (b / 2))

pub bit-bit_or : (i a b : ℕ) → bit (bit_or a b) i ≡ (bit a i || bit b i)
bit-bit_or zero a b = ground (arith, bit_or_step a b)
bit-bit_or (suc i) a b =
    let e : bit_or a b / 2 ≡ bit_or (a / 2) (b / 2) = omega (arith, bit_or_step a b) in
    rw e (bit-bit_or i (a / 2) (b / 2))

pub bit-bit_xor : (i a b : ℕ) → bit (bit_xor a b) i ≡ (if bit a i then not (bit b i) else bit b i)
bit-bit_xor zero a b = ground (arith, bit_xor_step a b)
bit-bit_xor (suc i) a b =
    let e : bit_xor a b / 2 ≡ bit_xor (a / 2) (b / 2) = omega (arith, bit_xor_step a b) in
    rw e (bit-bit_xor i (a / 2) (b / 2))

pub bit-zero : (i : ℕ) → bit 0 i ≡ false
bit-zero zero = refl
bit-zero (suc i) = bit-zero i

-- Two numbers below `2 ^ w` with the same bits are equal.
pub bit_ext : (w a b : ℕ) → a < 2 ^ w → b < 2 ^ w → ((i : ℕ) → i < w → bit a i ≡ bit b i) → a ≡ b
bit_ext zero a b p q h = omega arith
bit_ext (suc w) a b p q h =
    let e : a / 2 ≡ b / 2 =
      bit_ext w (a / 2) (b / 2) (omega (arith, pow-suc 2 w)) (omega (arith, pow-suc 2 w))
        (λ i l. h (suc i) (omega arith)) in
    ground (arith, h 0 (omega arith))

zero-bit_and : (b : ℕ) → bit_and 0 b ≡ 0
zero-bit_and b = bit_and-bitwise 0 b

pub bit-pow : (r i : ℕ) → bit (2 ^ r) i ≡ (r == i)
bit-pow zero zero = refl
bit-pow zero (suc i) = ground (arith, bit-zero i)
bit-pow (suc r) zero = ground (arith, pow-suc 2 r)
bit-pow (suc r) (suc i) =
    let e : 2 ^ suc r / 2 ≡ 2 ^ r = omega (arith, pow-suc 2 r) in rw e (ground (arith, bit-pow r i))

-- A mask of one bit keeps that bit.
pub bit_and-pow : (r s : ℕ) → bit_and (2 ^ r) s ≡ (if bit s r then 2 ^ r else 0)
bit_and-pow zero s = elim (Bool-cases (bit s 0)) [
  | inl h ↦ rw h (ground (arith, bit_and_step 1 s, zero-bit_and (s / 2)))
  | inr h ↦ rw h (ground (arith, bit_and_step 1 s, zero-bit_and (s / 2)))
]
bit_and-pow (suc r) s =
    let e : 2 ^ suc r / 2 ≡ 2 ^ r = omega (arith, pow-suc 2 r) in
    let f : bit_and (2 ^ suc r) s ≡ bit_and (2 ^ r) (s / 2) * 2 =
      rw (← e) (omega (arith, bit_and_step (2 ^ suc r) s, pow-suc 2 r)) in
    ground (arith, f, bit_and-pow r (s / 2), pow-suc 2 r)

-- The operations stay within the width.
pub bit_or-lt : (w a b : ℕ) → a < 2 ^ w → b < 2 ^ w → bit_or a b < 2 ^ w
bit_or-lt zero a b p q =
    let e : a ≡ 0 = omega arith in let f : b ≡ 0 = omega arith in rw (e, f) (omega arith)
bit_or-lt (suc w) a b p q = omega (
  arith,
  bit_or_step a b,
  pow-suc 2 w,
  bit_or-lt w (a / 2) (b / 2) (omega (arith, pow-suc 2 w)) (omega (arith, pow-suc 2 w)),
)

pub bit_xor-lt : (w a b : ℕ) → a < 2 ^ w → b < 2 ^ w → bit_xor a b < 2 ^ w
bit_xor-lt zero a b p q =
    let e : a ≡ 0 = omega arith in let f : b ≡ 0 = omega arith in rw (e, f) (omega arith)
bit_xor-lt (suc w) a b p q = omega (
  arith,
  bit_xor_step a b,
  pow-suc 2 w,
  bit_xor-lt w (a / 2) (b / 2) (omega (arith, pow-suc 2 w)) (omega (arith, pow-suc 2 w)),
)

pub bit_and-le : (n a b : ℕ) → a ≤ n → bit_and a b ≤ a
bit_and-le zero a b h = let e : a ≡ 0 = omega arith in rw e (omega (arith, zero-bit_and b))
bit_and-le (suc n) a b h =
    omega (arith, bit_and_step a b, bit_and-le n (a / 2) (b / 2) (omega arith))

bit_and-zero : (n a : ℕ) → a ≤ n → bit_and a 0 ≡ 0
bit_and-zero zero a h = let e : a ≡ 0 = omega arith in rw e
bit_and-zero (suc n) a h = omega (arith, bit_and_step a 0, bit_and-zero n (a / 2) (omega arith))

pub bit_and-one : (a : ℕ) → bit_and a 1 ≡ a % 2
bit_and-one a = omega (arith, bit_and_step a 1, bit_and-zero a (a / 2) (omega arith))

pub bit_or_self : (w a : ℕ) → a < 2 ^ w → bit_or a a ≡ a
bit_or_self zero a h = let e : a ≡ 0 = omega arith in rw e refl
bit_or_self (suc w) a h =
    omega (arith, bit_or_step a a, bit_or_self w (a / 2) (omega (arith, pow-suc 2 w)))

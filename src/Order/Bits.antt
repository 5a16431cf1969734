-- ===== src/Order/Bits.antt =====
-- Clearing a bit.
use protocol_pfe.Base.{
  ℕ, zero, suc, ◌-◌, ◌/◌, ◌%◌, ◌^◌, ◌≤◌, ◌<◌, ◌≡◌, ap, ◌∙◌, not, ◌&&◌, ◌==◌, bit, bit-bit_and,
  bit-pow, arith,
}
use native.Mathlib.Nat.{pow-suc, one-le-pow, pow-le-pow_right}
use protocol_pfe.Order.{clear_bit}

half_complement : (w x : ℕ) → x < 2 ^ suc w → (2 ^ suc w - 1 - x) / 2 ≡ 2 ^ w - 1 - x / 2
half_complement w x h = omega (arith, pow-suc 2 w, one-le-pow w 2)

odd_complement : (w x : ℕ) → x < 2 ^ suc w → (2 ^ suc w - 1 - x) % 2 ≡ 1 - x % 2
odd_complement w x h = omega (arith, pow-suc 2 w, one-le-pow w 2)

-- The complement on w bits.
bit-complement : (w i x : ℕ) → x < 2 ^ w → i < w → bit (2 ^ w - 1 - x) i ≡ not (bit x i)
bit-complement zero i x h k = absurd (omega arith)
bit-complement (suc w) zero x h k = ground (arith, odd_complement w x h)
bit-complement (suc w) (suc i) x h k =
    rw (half_complement w x h)
      (bit-complement w i (x / 2) (omega (arith, pow-suc 2 w)) (omega arith))

-- For processes below 32, clearing the bit of a process in an `int` clears this bit and leaves
-- the 31 others.
pub bit-clear_bit :
    (bits id i : ℕ) → id < 32 → i < 32 → bit (clear_bit bits id) i ≡ (bit bits i && not (id == i))
unfolding clear_bit
bit-clear_bit bits id i h k =
    bit-bit_and i bits (2 ^ 32 - 1 - 2 ^ id)
    ∙ ap (λ b. bit bits i && b)
        (bit-complement 32 i (2 ^ id) (below id h) k ∙ ap not (bit-pow id i))
  where
    below : (j : ℕ) → j < 32 → 2 ^ j < 2 ^ 32
    below j l =
        let le : 2 ^ j ≤ 2 ^ 31 = pow-le-pow_right (omega arith) {i = j} {j = 31} (omega arith) in
        omega (arith, le)

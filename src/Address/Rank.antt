-- ===== src/Address/Rank.antt =====
-- Ranks and addresses.
use native.Mathlib.Nat.{pow-le-pow_right, pow-suc, one-le-pow}
use protocol_pfe.Base.{
  ℕ, zero, suc, ◌+◌, ◌/◌, ◌^◌, ◌≤◌, ◌<◌, bit_and, ◌≡◌, refl, inl, inr, true, false, not, none, some,
  arith, ◌==◌, Bool-cases, bit, bit_and-pow, bit-pow, bit_and-one, ◌≢◌,
}
use protocol_pfe.Address.{Address, rank_loop, addr_to_rank, rank_to_addr, addr_is_member}

-- `r` is the lowest bit that is set in `ad`.
pub record IsLowest (ad : Address) (r : ℕ) : Type 0 where
  pub holds : bit ad r ≡ true
  pub lowest : (i : ℕ) → i < r → bit ad i ≡ false

lowest_mask : (ad : Address) → (bit_and ad 1 == 0) ≡ not (bit ad 0)
lowest_mask ad = ground (arith, bit_and-one ad)

rank_loop_lem :
    (fuel : ℕ) (ad : Address) (rank r : ℕ)
    → IsLowest ad r
    → r < fuel
    → rank + r < 16
    → rank_loop fuel ad rank ≡ rank + r
unfolding rank_loop
rank_loop_lem zero ad rank r low f h = absurd (omega arith)
rank_loop_lem (suc fuel) ad rank zero low f h = ground (arith, lowest_mask ad)
rank_loop_lem (suc fuel) ad rank (suc r) low f h = ground (
  arith,
  lowest_mask ad,
  low.lowest 0,
  rank_loop_lem fuel (ad / 2) (rank + 1) r
      (record { holds = low.holds; lowest = λ i l. low.lowest (suc i) (omega arith) }),
)

-- Where no bit is left, the loop counts on to MAX_MEMB.
rank_loop-zero : (fuel rank : ℕ) → rank + fuel ≡ 17 → 0 < fuel → rank_loop fuel 0 rank ≡ 16
unfolding rank_loop
rank_loop-zero zero rank e h = absurd (omega arith)
rank_loop-zero (suc fuel) rank e h = ground (arith, rank_loop-zero fuel (rank + 1), lowest_mask 0)

-- addrToRank returns the rank of the lowest bit that is set in its argument, where that rank is
-- below 16.
pub addr_to_rank-IsLowest :
    (ad : Address) (r : ℕ) → r < 16 → IsLowest ad r → addr_to_rank ad ≡ some r
unfolding addr_to_rank
addr_to_rank-IsLowest ad r h low = ground (arith, rank_loop_lem 17 ad 0 r low)

-- and -1 for the null address
pub addr_to_rank-zero : addr_to_rank 0 ≡ none
unfolding addr_to_rank
addr_to_rank-zero = ground (arith, rank_loop-zero 17 0)

pub rank_to_addr_lem : (r : ℕ) → r < 16 → rank_to_addr r ≡ 2 ^ r
unfolding rank_to_addr
rank_to_addr_lem r h =
    let le : 2 ^ r ≤ 2 ^ 15 = pow-le-pow_right (omega arith) {i = r} {j = 15} (omega arith) in
    omega arith

-- A single bit is its own lowest.
pub IsLowest-pow : (r : ℕ) → IsLowest (2 ^ r) r
IsLowest-pow r = record {
  holds = ground (arith, bit-pow r r);
  lowest = λ i l. ground (arith, bit-pow r i);
}

-- addrToRank of the address that rankToAddr makes of a rank below 16 is that rank.
pub addr_to_rank-rank_to_addr : (r : ℕ) → r < 16 → addr_to_rank (rank_to_addr r) ≡ some r
addr_to_rank-rank_to_addr r h =
    rw (rank_to_addr_lem r h) (addr_to_rank-IsLowest (2 ^ r) r h (IsLowest-pow r))

IsLowest-suc :
    {w ad : ℕ}
    → (r : ℕ) × (r < w) × IsLowest (ad / 2) r
    → bit ad 0 ≡ false
    → (r : ℕ) × (r < suc w) × IsLowest ad r
IsLowest-suc {ad} (r, l, low) e = (suc r, omega arith, record { holds = low.holds; lowest = below })
  where
    below : (i : ℕ) → i < suc r → bit ad i ≡ false
    below zero h = e
    below (suc i) h = low.lowest i (omega arith)

IsLowest-exists : (w ad : ℕ) → ad < 2 ^ w → ad ≢ 0 → (r : ℕ) × (r < w) × IsLowest ad r
IsLowest-exists zero ad h ne = absurd (omega arith)
IsLowest-exists (suc w) ad h ne = elim (Bool-cases (bit ad 0)) [
  | inl e ↦ (zero, omega arith, record { holds = e; lowest = λ i l. absurd (omega arith) })
  | inr e ↦ IsLowest-suc (IsLowest-exists w (ad / 2) (omega (arith, pow-suc 2 w)) (ground arith)) e
]

-- A one-bit mask tests its bit.
pub addr_is_member-pow : (r : ℕ) (s : ℕ) → addr_is_member (2 ^ r) s ≡ bit s r
unfolding addr_is_member
addr_is_member-pow r s = elim (Bool-cases (bit s r)) [
  | inl e ↦ rw (e, bit_and-pow) (rw e (ground (arith, one-le-pow r 2)))
  | inr e ↦ rw (e, bit_and-pow) (rw e refl)
]

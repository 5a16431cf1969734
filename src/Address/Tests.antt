-- ===== src/Address/Tests.antt =====
-- The theorems on address.c at concrete addresses.
use protocol_pfe.Base.{
  ℕ, ◌≤◌, ◌<◌, ◌≡◌, refl, true, false, not, ◌&&◌, ◌||◌, some, [], ◌∷◌, arith, ◌==◌, ok, zero, suc,
  bit, bit-zero, out_of_fuel,
}
use protocol_pfe.Address.{
  rank_loop, addr_to_rank, addr_to_str, rank_to_addr, addr_is_member, addr_append_gone,
  addr_update_circuit, prec_loop, addr_prec,
}
use protocol_pfe.Address.Rank.{IsLowest}
use protocol_pfe.Address.Sets.{
  addr_is_member-rank_to_addr, addr_append_gone_lem, addr_update_circuit_of_IsSubset,
}
use protocol_pfe.Address.Prec.{back, IsNearest, addr_prec_lem, prec_loop_diverges}

rank_of_twelve : addr_to_rank 12 ≡ some 2
unfolding addr_to_rank rank_loop
rank_of_twelve = refl

prec_of_two : addr_prec 4 138 ≡ ok 2
unfolding addr_prec prec_loop addr_to_rank rank_loop rank_to_addr addr_is_member
prec_of_two = refl

name_of_rank : addr_to_str 1024 ≡ b'#' ∷ b'1' ∷ b'0' ∷ []
unfolding addr_to_str addr_to_rank rank_loop
name_of_rank = refl

below_two : (i : ℕ) → i < 2 → bit 12 i ≡ false
below_two zero h = refl
below_two (suc zero) h = refl
below_two (suc (suc i)) h = absurd (omega arith)

twelve-IsLowest : IsLowest 12 2
twelve-IsLowest = record { holds = refl; lowest = below_two }

-- Process 3 had just arrived, and goes.
addr_append_gone_example :
    (addr_is_member (rank_to_addr 3) (addr_append_gone 8 1 (rank_to_addr 3)).0
      ≡ (addr_is_member (rank_to_addr 3) 8 && not (3 == 3)))
    × (addr_is_member (rank_to_addr 3) (addr_append_gone 8 1 (rank_to_addr 3)).1 ≡ (
        addr_is_member (rank_to_addr 3) 1 || (3 == 3 && not (addr_is_member (rank_to_addr 3) 8))))
addr_append_gone_example = addr_append_gone_lem 8 1 3 3 (omega arith) (omega arith)

-- Processes 1 and 3 go, 0 and 2 come.
addr_update_circuit_example : addr_is_member (rank_to_addr 3) (addr_update_circuit 10 1 5 10) ≡ (
    addr_is_member (rank_to_addr 3) 10 && not (addr_is_member (rank_to_addr 3) 10)
    || addr_is_member (rank_to_addr 3) 5)
addr_update_circuit_example = addr_update_circuit_of_IsSubset 10 5 10 1 3 (omega arith) (λ i h e. e)

member_four : addr_is_member (rank_to_addr 1) 2 ≡ true
unfolding addr_is_member rank_to_addr
member_four = refl

addr_prec_example :
    (k : ℕ) × (0 < k)
    × (k ≤ 16)
    × IsNearest 2 3 k
    × (addr_prec (rank_to_addr 3) 2 ≡ ok (rank_to_addr (back 3 k)))
addr_prec_example = addr_prec_lem 3 1 2 (omega arith) (omega arith) member_four

no_member : (m : ℕ) → m < 16 → addr_is_member (rank_to_addr m) 0 ≡ false
no_member m h = rw (addr_is_member-rank_to_addr m 0 h, bit-zero) refl

prec_loop_diverges_example : prec_loop 1000 7 0 ≡ out_of_fuel
prec_loop_diverges_example = prec_loop_diverges 1000 7 0 no_member

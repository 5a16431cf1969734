-- ===== src/Address/Sets.antt =====
-- What the operations of address.c do to the members of a set, given by the bit of each rank.
use protocol_pfe.Base.{
  ℕ, ◌^◌, ◌<◌, bit_or, bit_xor, ◌≡◌, true, not, ◌&&◌, ◌||◌, arith, ==_iff, ◌==◌, if◌then◌else◌, bit,
  bit-bit_or, bit-bit_xor, bit-pow, bit_or-lt, bit_xor-lt,
}
use protocol_pfe.Address.{
  Address, AddressSet, addr_is_member, rank_to_addr, addr_append_arrived, addr_append_gone,
  addr_update_circuit,
}
use protocol_pfe.Address.Rank.{addr_is_member-pow, rank_to_addr_lem}

-- For the address of one process, the mask test of addrIsMember is the test of its bit.
pub addr_is_member-rank_to_addr :
    (r : ℕ) (s : AddressSet) → r < 16 → addr_is_member (rank_to_addr r) s ≡ bit s r
addr_is_member-rank_to_addr r s h = rw (rank_to_addr_lem r h) (addr_is_member-pow r s)

-- addrAppendArrived adds the process and changes no other membership.
pub addr_append_arrived_lem :
    (s : AddressSet) (r i : ℕ)
    → r < 16
    → i < 16
    → addr_is_member (rank_to_addr i) (addr_append_arrived s (rank_to_addr r))
      ≡ (r == i || addr_is_member (rank_to_addr i) s)
unfolding addr_append_arrived
addr_append_arrived_lem s r i hr hi = ground (
  arith,
  addr_is_member-rank_to_addr i (bit_or s (rank_to_addr r)) hi,
  addr_is_member-rank_to_addr i s hi,
  rank_to_addr_lem r hr,
  bit-bit_or i s (2 ^ r),
  bit-pow r i,
)

-- For ranks below 16, addrAppendGone takes the process out of the arrived set, adds it to the
-- gone set exactly if it was not in the arrived set, and changes no other membership of the two
-- sets.
pub addr_append_gone_lem :
    (arrived gone : AddressSet) (r i : ℕ)
    → r < 16
    → i < 16
    → let (arrived', gone') = addr_append_gone arrived gone (rank_to_addr r) in
      (addr_is_member (rank_to_addr i) arrived'
        ≡ (addr_is_member (rank_to_addr i) arrived && not (r == i)))
      × (addr_is_member (rank_to_addr i) gone' ≡ (
          addr_is_member (rank_to_addr i) gone
          || (r == i && not (addr_is_member (rank_to_addr r) arrived))))
unfolding addr_append_gone
addr_append_gone_lem arrived gone r i hr hi = ground (
  arith,
  addr_is_member-rank_to_addr i (bit_or gone (rank_to_addr r)) hi,
  addr_is_member-rank_to_addr i (bit_xor arrived (rank_to_addr r)) hi,
  addr_is_member-rank_to_addr i arrived hi,
  addr_is_member-rank_to_addr i gone hi,
  addr_is_member-rank_to_addr r arrived hr,
  rank_to_addr_lem r hr,
  bit-bit_or i gone (2 ^ r),
  bit-bit_xor i arrived (2 ^ r),
  bit-pow r i,
  (==_iff r i).0,
)

-- The new circuit, process by process: `^` removes a gone process that was in the circuit, and
-- adds one that was not.
pub addr_update_circuit_lem :
    (circuit arrived gone : AddressSet) (ad : Address) (i : ℕ)
    → i < 16
    → addr_is_member (rank_to_addr i) (addr_update_circuit circuit ad arrived gone) ≡ (
        (if addr_is_member (rank_to_addr i) circuit
          then not (addr_is_member (rank_to_addr i) gone)
          else addr_is_member (rank_to_addr i) gone)
        || addr_is_member (rank_to_addr i) arrived)
unfolding addr_update_circuit
addr_update_circuit_lem circuit arrived gone ad i h = rw (
  addr_is_member-rank_to_addr i circuit h,
  addr_is_member-rank_to_addr i gone h,
  addr_is_member-rank_to_addr i arrived h,
  addr_is_member-rank_to_addr i (bit_or (bit_xor circuit gone) arrived) h,
  bit-bit_or i (bit_xor circuit gone) arrived,
  bit-bit_xor i circuit gone,
)

abbrev pub IsSubset : AddressSet → AddressSet → Type 0
IsSubset s t =
    (i : ℕ)
    → i < 16
    → addr_is_member (rank_to_addr i) s ≡ true
    → addr_is_member (rank_to_addr i) t ≡ true

-- Where every gone process is in the circuit, addrUpdateCircuit's result has exactly the members
-- of the circuit that are not gone, and the arrived processes.
pub addr_update_circuit_of_IsSubset :
    (circuit arrived gone : AddressSet) (ad : Address) (i : ℕ)
    → i < 16
    → IsSubset gone circuit
    → addr_is_member (rank_to_addr i) (addr_update_circuit circuit ad arrived gone) ≡ (
        addr_is_member (rank_to_addr i) circuit && not (addr_is_member (rank_to_addr i) gone)
        || addr_is_member (rank_to_addr i) arrived)
addr_update_circuit_of_IsSubset circuit arrived gone ad i h sub =
    ground (arith, addr_update_circuit_lem circuit arrived gone ad i h, sub i h)

-- The sets stay 16 bits wide.
pub addr_update_circuit-lt :
    (circuit arrived gone : AddressSet) (ad : Address)
    → circuit < 2 ^ 16
    → arrived < 2 ^ 16
    → gone < 2 ^ 16
    → addr_update_circuit circuit ad arrived gone < 2 ^ 16
unfolding addr_update_circuit
addr_update_circuit-lt circuit arrived gone ad hc ha hg =
    bit_or-lt 16 _ _ (bit_xor-lt 16 _ _ hc hg) ha

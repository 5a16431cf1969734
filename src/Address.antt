-- ===== src/Address.antt =====
-- src/address.c and include/address.h: an address is an `unsigned short` with one bit set, the
-- bit of the process's rank, and a set of addresses is the `|` of its members.
pub mod Rank
pub mod Sets
pub mod Prec
pub mod Tests
use protocol_pfe.Base.{
  ℕ, zero, suc, ◌+◌, ◌-◌, ◌/◌, ◌%◌, ◌^◌, bit_and, bit_or, bit_xor, Bool, true, false, not, ◌&&◌,
  Option, none, some, List, [], ◌∷◌, ltb, ◌==◌, if◌then◌else◌, Outcome, ok, exited, out_of_fuel,
}

-- `typedef unsigned short address`, and `typedef address addressSet`.
abbrev pub Address : Type 0
Address = ℕ

abbrev pub AddressSet : Type 0
AddressSet = Address

-- NP, and MAX_MEMB = 8 * sizeof(address).
abbrev pub np : ℕ
np = 16

abbrev pub max_memb : ℕ
max_memb = 16

abbrev pub u16 : ℕ → ℕ
u16 n = n % 2 ^ 16

abbrev pub null_address : Address
null_address = 0

abbrev pub addr_is_equal : Address → Address → Bool
addr_is_equal a b = a == b

-- The `while` of addrToRank, on fuel.
unfoldable pub rank_loop : ℕ → Address → ℕ → ℕ
rank_loop zero ad rank = rank
rank_loop (suc fuel) ad rank =
    let rest = rank_loop fuel (ad / 2) (rank + 1) in
    if bit_and ad 1 == 0 && ltb rank max_memb then rest else rank

-- The rank, or `none` for -1.
unfoldable pub addr_to_rank : Address → Option ℕ
unfolding rank_loop
addr_to_rank ad =
    let rank = rank_loop (max_memb + 1) ad 0 in if ltb rank max_memb then some rank else none

-- `sprintf(s, "#%02d", rank)`.
unfoldable pub addr_to_str : Address → List ℕ
addr_to_str ad = elim (addr_to_rank ad) [
  | none ↦ b'#' ∷ b'-' ∷ b'1' ∷ []
  | some r ↦ b'#' ∷ (b'0' + r / 10) ∷ (b'0' + r % 10) ∷ []
]

-- `1<<rank`, cut to an `unsigned short`.
unfoldable pub rank_to_addr : ℕ → Address
rank_to_addr rank = u16 (2 ^ rank)

unfoldable pub addr_is_member : Address → AddressSet → Bool
addr_is_member ad set = not (bit_and ad set == 0)

unfoldable pub addr_append_arrived : AddressSet → Address → AddressSet
addr_append_arrived arrived ad = bit_or arrived ad

-- The new arrived set and the new gone set.
unfoldable pub addr_append_gone : AddressSet → AddressSet → Address → AddressSet × AddressSet
addr_append_gone arrived gone ad =
    if addr_is_member ad arrived then (bit_xor arrived ad, gone) else (arrived, bit_or gone ad)

unfoldable pub addr_update_circuit : AddressSet → Address → AddressSet → AddressSet → AddressSet
addr_update_circuit circuit ad arrived gone = bit_or (bit_xor circuit gone) arrived

-- The `do ... while` of addrPrec, on fuel; `i` is the rank before the step.
unfoldable pub prec_loop : ℕ → ℕ → AddressSet → Outcome Address
prec_loop zero i circuit = out_of_fuel
prec_loop (suc fuel) i circuit =
    let i' = (i + np - 1) % np in
    let rest = prec_loop fuel i' circuit in
    if not (addr_is_member (rank_to_addr i') circuit) then rest else ok (rank_to_addr i')

-- One round for each of the NP ranks: a round more only repeats them.
unfoldable pub addr_prec : Address → AddressSet → Outcome Address
unfolding prec_loop
addr_prec ad circuit = elim (addr_to_rank ad) [ none ↦ exited | some i ↦ prec_loop np i circuit ]

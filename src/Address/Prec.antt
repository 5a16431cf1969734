-- ===== src/Address/Prec.antt =====
-- addrPrec: the loop ends when the circuit has a member, and finds the nearest predecessor.
use native.Mathlib.Decide.{ℕ_discrete, dec_lt}
use protocol_pfe.Base.{
  Bool, ap, ◌∙◌, ◌⊎◌, ℕ, zero, suc, ◌+◌, ◌-◌, ◌%◌, ◌≤◌, ◌<◌, ◌≡◌, refl, inl, inr, true, false,
  arith, Bool-cases, ok, out_of_fuel,
}
use protocol_pfe.Address.{AddressSet, np, addr_is_member, rank_to_addr, prec_loop, addr_prec}
use protocol_pfe.Address.Rank.{addr_to_rank-rank_to_addr}

true≢false_of : {b : Bool} → b ≡ true → b ≡ false → ⊥
true≢false_of p q = cc

-- The rank `k` places before rank `i` on the ring of the NP ranks, for k up to NP.
abbrev pub back : ℕ → ℕ → ℕ
back i k = (i + 16 - k) % 16

back_step : (i k : ℕ) → i < 16 → k < 16 → back ((i + np - 1) % np) k ≡ back i (suc k)
back_step i k hi hk = omega arith

-- Rank `back i k` is the first member met on the way back from `i`.
pub record IsNearest (circuit : AddressSet) (i k : ℕ) : Type 0 where
  pub member : addr_is_member (rank_to_addr (back i k)) circuit ≡ true
  pub nearest : (j : ℕ) → 0 < j → j < k → addr_is_member (rank_to_addr (back i j)) circuit ≡ false

shift :
    (i k : ℕ) (circuit : AddressSet)
    → i < 16
    → suc k < 16
    → IsNearest circuit i (suc (suc k))
    → IsNearest circuit ((i + np - 1) % np) (suc k)
shift i k circuit hi hk near = record {
  member = rw (back_step i (suc k) hi hk) near.member;
  nearest = λ j p q.
      rw (back_step i j hi (omega arith)) (near.nearest (suc j) (omega arith) (omega arith));
}

extend :
    (n i : ℕ) (circuit : AddressSet)
    → ((j : ℕ) → 0 < j → j ≤ n → addr_is_member (rank_to_addr (back i j)) circuit ≡ false)
    → addr_is_member (rank_to_addr (back i (suc n))) circuit ≡ false
    → (j : ℕ) → 0 < j
    → j ≤ suc n
    → addr_is_member (rank_to_addr (back i j)) circuit ≡ false
extend n i circuit far e j p q = elim (ℕ_discrete j (suc n)) [
  | yes eq ↦ rw eq e
  | no ne ↦ far j p (omega arith)
]

-- Every rank is met within NP places.
not_far :
    (i m : ℕ) (circuit : AddressSet)
    → i < 16
    → m < 16
    → addr_is_member (rank_to_addr m) circuit ≡ true
    → ((j : ℕ) → 0 < j → j ≤ 16 → addr_is_member (rank_to_addr (back i j)) circuit ≡ false)
    → ⊥
not_far i m circuit hi hm mem far = elim (dec_lt m i) [
  | yes l ↦
      let e : back i (i - m) ≡ m = omega arith in
      true≢false_of mem (rw e at (far (i - m) (omega arith) (omega arith)))
  | no l ↦
      let e : back i (16 + i - m) ≡ m = omega arith in
      true≢false_of mem (rw e at (far (16 + i - m) (omega arith) (omega arith)))
]

pub prec_loop_lem :
    (fuel i k : ℕ) (circuit : AddressSet)
    → i < 16
    → k < fuel
    → fuel ≤ 16
    → IsNearest circuit i (suc k)
    → prec_loop fuel i circuit ≡ ok (rank_to_addr (back i (suc k)))
unfolding prec_loop
prec_loop_lem zero i k circuit hi hk hf near = absurd (omega arith)
prec_loop_lem (suc fuel) i zero circuit hi hk hf near =
    let e : (i + np - 1) % np ≡ back i 1 = omega arith in rw (e, near.member)
prec_loop_lem (suc fuel) i (suc k) circuit hi hk hf near =
    let e : (i + np - 1) % np ≡ back i 1 = omega arith in
    rw (near.nearest 1 (omega arith) (omega arith)) (
      prec_loop_lem fuel ((i + np - 1) % np) k circuit (omega arith) (omega arith) (omega arith)
        (shift i k circuit hi (omega arith) near)
      ∙ ap (λ (r : ℕ). ok (rank_to_addr r)) (back_step i (suc k) hi (omega arith)))

-- A search over the last `n` places before `i` finds the nearest member, or none.
search_back :
    (n i : ℕ) (circuit : AddressSet)
    → ((k : ℕ) × (0 < k) × (k ≤ n) × IsNearest circuit i k)
      ⊎ ((j : ℕ) → 0 < j → j ≤ n → addr_is_member (rank_to_addr (back i j)) circuit ≡ false)
search_back zero i circuit = inr (λ j p q. absurd (omega arith))
search_back (suc n) i circuit = elim (search_back n i circuit) [
  | inl (k, p, q, near) ↦ inl (k, p, omega arith, near)
  | inr none_near ↦ elim (Bool-cases (addr_is_member (rank_to_addr (back i (suc n))) circuit)) [
    | inl e ↦ inl (
      suc n,
      omega arith,
      omega arith,
      record { member = e; nearest = λ j p q. none_near j p (omega arith) },
    )
    | inr e ↦ inr (extend n i circuit none_near e)
  ]
]

-- On a circuit with a member of rank below 16, addrPrec of the address of a rank below 16 ends,
-- and returns the nearest member met going back round the ring of the 16 ranks.
pub addr_prec_lem :
    (i m : ℕ) (circuit : AddressSet)
    → i < 16
    → m < 16
    → addr_is_member (rank_to_addr m) circuit ≡ true
    → (k : ℕ) × (0 < k)
      × (k ≤ 16)
      × IsNearest circuit i k
      × (addr_prec (rank_to_addr i) circuit ≡ ok (rank_to_addr (back i k)))
unfolding addr_prec
addr_prec_lem i m circuit hi hm mem = elim (search_back 16 i circuit) [
  | inl (zero, p, q, near) ↦ absurd (omega arith)
  | inl (suc k, p, q, near) ↦ (
    suc k,
    p,
    q,
    near,
    rw (addr_to_rank-rank_to_addr i hi, addr_prec)
        (prec_loop_lem 16 i k circuit hi (omega arith) (omega arith) near),
  )
  | inr far ↦ absurd (not_far i m circuit hi hm mem far)
]

-- On a circuit without a member of rank below 16, the loop of addrPrec does not end within any
-- number of rounds.
pub prec_loop_diverges :
    (fuel i : ℕ) (circuit : AddressSet)
    → ((m : ℕ) → m < 16 → addr_is_member (rank_to_addr m) circuit ≡ false)
    → prec_loop fuel i circuit ≡ out_of_fuel
unfolding prec_loop
prec_loop_diverges zero i circuit h = refl
prec_loop_diverges (suc fuel) i circuit h =
    rw (h ((i + np - 1) % np) (omega arith)) (prec_loop_diverges fuel ((i + np - 1) % np) circuit h)

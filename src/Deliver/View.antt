-- ===== src/Deliver/View.antt =====
-- fillCv lists the members of a circuit.
use protocol_pfe.Base.{
  ℕ, zero, suc, ◌+◌, ◌*◌, ◌^◌, ◌≤◌, ◌<◌, ◌≡◌, refl, ap, ◌∙◌, inl, inr, true, false, ◌==◌, ok, arith,
  Bool-cases, ==_refl,
}
use protocol_pfe.Address.{AddressSet, u16, rank_to_addr, addr_is_member}
use protocol_pfe.Address.Rank.{rank_to_addr_lem}
use protocol_pfe.World.{CircuitView}
use protocol_pfe.Deliver.{zero_view, add_member, fill_loop, fill_cv}
use native.Mathlib.Nat.{pow-suc, one-le-pow}
use native.Mathlib.Decide.{ℕ_discrete}

-- The members of ranks r to 15 have been added to `cv`: nothing was taken out, each of them is
-- listed, and there is one new place at most for each rank.
pub record Filled (circuit : AddressSet) (r : ℕ) (cv cv' : CircuitView) : Type 0 where
  pub more : cv.cv_nmemb ≤ cv'.cv_nmemb
  pub bound : cv'.cv_nmemb + r ≤ cv.cv_nmemb + 16
  pub kept : (k : ℕ) → k < cv.cv_nmemb → cv'.cv_members k ≡ cv.cv_members k
  pub listed :
      (i : ℕ)
      → r ≤ i
      → i < 16
      → addr_is_member (rank_to_addr i) circuit ≡ true
      → (k : ℕ) × (k < cv'.cv_nmemb) × (cv'.cv_members k ≡ rank_to_addr i)
  pub only :
      (k : ℕ)
      → cv.cv_nmemb ≤ k
      → k < cv'.cv_nmemb
      → addr_is_member (cv'.cv_members k) circuit ≡ true

shifted : (r : ℕ) → r < 16 → u16 (rank_to_addr r * 2) ≡ rank_to_addr (suc r)
unfolding rank_to_addr
shifted r h =
    let double : 2 ^ r * 2 ≡ 2 ^ suc r = omega (arith, pow-suc 2 r) in
    rw (rank_to_addr_lem r h) (ap u16 double)

not_null : (r : ℕ) → r < 16 → (rank_to_addr r == 0) ≡ false
not_null r h = ground (arith, rank_to_addr_lem r h, one-le-pow r 2)

-- One round that adds a member, then the others.
Filled-add_member :
    (circuit : AddressSet) (r : ℕ) (cv cv' : CircuitView)
    → r < 16
    → addr_is_member (rank_to_addr r) circuit ≡ true
    → Filled circuit (suc r) (add_member (rank_to_addr r) cv) cv'
    → Filled circuit r cv cv'
unfolding add_member
Filled-add_member circuit r cv cv' h e f =
    let here : cv'.cv_members cv.cv_nmemb ≡ rank_to_addr r =
      f.kept cv.cv_nmemb (omega arith) ∙ rw (==_refl cv.cv_nmemb) refl in
    record {
      more = omega (arith, f.more);
      bound = omega (arith, f.bound);
      kept = λ k l. f.kept k (omega arith) ∙ ground arith;
      listed = λ i p q m. elim (ℕ_discrete i r) [
        | yes eq ↦ (cv.cv_nmemb, omega (arith, f.more), rw eq here)
        | no ne ↦ f.listed i (omega arith) q m
      ];
      only = λ k p q. elim (ℕ_discrete k cv.cv_nmemb) [
        | yes eq ↦ rw (eq, here) e
        | no ne ↦ f.only k (omega arith) q
      ];
    }

Filled-suc :
    (circuit : AddressSet) (r : ℕ) (cv cv' : CircuitView)
    → addr_is_member (rank_to_addr r) circuit ≡ false
    → Filled circuit (suc r) cv cv'
    → Filled circuit r cv cv'
Filled-suc circuit r cv cv' e f = record {
  more = f.more;
  bound = omega (arith, f.bound);
  kept = f.kept;
  listed = λ i p q m. elim (ℕ_discrete i r) [
    | yes eq ↦ absurd (ground arith)
    | no ne ↦ f.listed i (omega arith) q m
  ];
  only = f.only;
}

null_at_end : (r : ℕ) → r ≡ 16 → rank_to_addr r ≡ 0
unfolding rank_to_addr
null_at_end r h = rw h refl

fill_loop_lem :
    (n r : ℕ) (circuit : AddressSet) (cv : CircuitView)
    → n + r ≡ 16
    → (cv' : CircuitView) × (fill_loop (suc n) (rank_to_addr r) circuit cv ≡ ok cv')
      × Filled circuit r cv cv'
unfolding fill_loop
fill_loop_lem zero r circuit cv h = (
  cv,
  rw (null_at_end r (omega arith)) refl,
  record {
    more = omega arith;
    bound = omega arith;
    kept = λ k l. refl;
    listed = λ i p q m. absurd (omega arith);
    only = λ k p q. absurd (omega arith);
  },
)
fill_loop_lem (suc n) r circuit cv h = elim (Bool-cases (addr_is_member (rank_to_addr r) circuit)) [
  | inl e ↦
      let (cv', ran, f) =
        fill_loop_lem n (suc r) circuit (add_member (rank_to_addr r) cv) (omega arith) in
      (
        cv',
        rw (not_null r (omega arith), e, shifted r (omega arith)) ran,
        Filled-add_member circuit r cv cv' (omega arith) e f,
      )
  | inr e ↦
      let (cv', ran, f) = fill_loop_lem n (suc r) circuit cv (omega arith) in
      (
        cv',
        rw (not_null r (omega arith), e, shifted r (omega arith)) ran,
        Filled-suc circuit r cv cv' e f,
      )
]

-- fillCv ends on every circuit with at most 16 members in the view, so inside cv_members; every
-- process of rank below 16 in the circuit is listed, and everything listed is in the circuit.
pub fill_cv_lem :
    (circuit : AddressSet)
    → (cv : CircuitView) × (fill_cv circuit ≡ ok cv)
      × (cv.cv_nmemb ≤ 16)
      × ((i : ℕ)
          → i < 16
          → addr_is_member (rank_to_addr i) circuit ≡ true
          → (k : ℕ) × (k < cv.cv_nmemb) × (cv.cv_members k ≡ rank_to_addr i))
      × ((k : ℕ) → k < cv.cv_nmemb → addr_is_member (cv.cv_members k) circuit ≡ true)
unfolding fill_cv rank_to_addr
fill_cv_lem circuit =
    let (cv, ran, f) = fill_loop_lem 16 0 circuit zero_view (omega arith) in
    (
      cv,
      ran,
      omega (arith, f.bound),
      λ i p m. f.listed i (omega arith) p m,
      λ k p. f.only k (omega arith) p,
    )

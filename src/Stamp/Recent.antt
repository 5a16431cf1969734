-- ===== src/Stamp/Recent.antt =====
-- Which trains are recent.
use native.Mathlib.Decide.{ℕ_discrete}
use protocol_pfe.Base.{
  ==_refl, ==_ne, ℕ, zero, suc, ◌+◌, ◌-◌, ◌%◌, ◌≤◌, ◌<◌, ◌≡◌, ◌↔◌, ◌⊎◌, refl, true, false, arith,
}
use protocol_pfe.Address.{Address, addr_is_member}
use protocol_pfe.World.{Lts}
use protocol_pfe.Stamp.{is_recent_lc, is_recent_train, is_in_lts_loop, is_in_lts}

-- How far the clock `lc` is ahead of `last`, round the 256 values of a clock.
abbrev pub ahead : ℕ → ℕ → ℕ
ahead lc last = (lc + 256 - last) % 256

-- A clock is recent when it is 1 to 127 ahead, and also at 128 when the clock has wrapped.
pub is_recent_lc_iff :
    (lc last : ℕ)
    → lc < 256
    → last < 256
    → (is_recent_lc lc last ≡ true)
      ↔ ((0 < ahead lc last) × (ahead lc last < 128) ⊎ ((ahead lc last ≡ 128) × (lc < last)))
unfolding is_recent_lc
is_recent_lc_iff lc last h k = ground arith

-- The clock that follows the last one is recent, also where it wraps, and no clock is recent
-- over itself.
pub is_recent_lc_next :
    (last : ℕ)
    → last < 256
    → (is_recent_lc ((last + 1) % 256) last ≡ true) × (is_recent_lc last last ≡ false)
unfolding is_recent_lc
is_recent_lc_next last h = ground arith

-- Of two clocks below 256, no two are recent over one another both ways.
pub is_recent_lc_asymm :
    (a b : ℕ) → a < 256 → b < 256 → is_recent_lc a b ≡ true → is_recent_lc b a ≡ false
unfolding is_recent_lc
is_recent_lc_asymm a b h k r = ground arith

-- isInLts says whether the address is in the circuit of every train.
pub is_in_lts_loop_iff :
    (n i : ℕ) (ad : Address) (lts : ℕ → Lts)
    → (is_in_lts_loop n i ad lts ≡ true)
      ↔ ((j : ℕ) → i ≤ j → j < i + n → addr_is_member ad (lts j).circuit ≡ true)
unfolding is_in_lts_loop
is_in_lts_loop_iff zero i ad lts = (λ _ j p q. absurd (omega arith), λ _. refl)
is_in_lts_loop_iff (suc n) i ad lts =
    let ih = is_in_lts_loop_iff n (i + 1) ad lts in
    (
      λ h j p q. elim (ℕ_discrete j i) [
        | yes e ↦ rw e (ground arith)
        | no ne ↦ ih.0 (ground arith) j (omega arith) (omega arith)
      ],
      λ h. rw (h i (omega arith) (omega arith)) (ih.1 (λ j p q. h j (omega arith) (omega arith))),
    )

-- isInLts holds exactly where the address is a member of the circuit of each of the ntr trains.
pub is_in_lts_iff :
    (ntr : ℕ) (ad : Address) (lts : ℕ → Lts)
    → (is_in_lts ntr ad lts ≡ true) ↔ ((j : ℕ) → j < ntr → addr_is_member ad (lts j).circuit ≡ true)
unfolding is_in_lts
is_in_lts_iff ntr ad lts =
    let ih = is_in_lts_loop_iff ntr 0 ad lts in
    (λ h j q. ih.0 h j (omega arith) (omega arith), λ h. ih.1 (λ j p q. h j (omega arith)))

-- For clocks below 256, isRecentTrain holds exactly where the train's identifier is the one after
-- that of the last train modulo ntr, and its clock is 1 to 127 ahead of that train's last clock
-- modulo 256, or 128 ahead where it is the smaller number.
pub is_recent_train_iff :
    (ntr id lc : ℕ) (lts : ℕ → Lts) (last_id : ℕ)
    → lc < 256
    → (lts id).stamp_lc < 256
    → (is_recent_train ntr id lc lts last_id ≡ true)
      ↔ (id ≡ (last_id + 1) % ntr)
        × ((0 < ahead lc (lts id).stamp_lc) × (ahead lc (lts id).stamp_lc < 128)
            ⊎ ((ahead lc (lts id).stamp_lc ≡ 128) × (lc < (lts id).stamp_lc)))
unfolding is_recent_train
is_recent_train_iff ntr id lc lts last_id h k = elim (ℕ_discrete id ((last_id + 1) % ntr)) [
  | yes e ↦ rw (← e, ==_refl id) (ground (arith, is_recent_lc_iff lc (lts id).stamp_lc h k))
  | no ne ↦ rw (==_ne id ((last_id + 1) % ntr) ne) (ground arith)
]

-- The next train of the cycle is recent when its clock has been increased by 1 to 127 since its
-- last lap, also where the clock wraps at 256.
pub is_recent_train_lap :
    (ntr id hops last_id : ℕ) (lts : ℕ → Lts)
    → id ≡ (last_id + 1) % ntr
    → (lts id).stamp_lc < 256
    → 0 < hops
    → hops < 128
    → is_recent_train ntr id (((lts id).stamp_lc + hops) % 256) lts last_id ≡ true
unfolding is_recent_train is_recent_lc
is_recent_train_lap ntr id hops last_id lts e h p q = rw (← e, ==_refl id) (ground arith)

-- A train that has just been handled is not recent.
pub is_recent_train_twice :
    (ntr id lc : ℕ) (lts : ℕ → Lts)
    → id < ntr
    → lc < 256
    → (lts id).stamp_lc ≡ (lc + 1) % 256
    → is_recent_train ntr id lc lts id ≡ false
unfolding is_recent_train is_recent_lc
is_recent_train_twice ntr id lc lts h k e = elim (ℕ_discrete id ((id + 1) % ntr)) [
  | yes eq ↦ rw (← eq, ==_refl id, e) (ground arith)
  | no ne ↦ rw (==_ne id ((id + 1) % ntr) ne) refl
]

-- ===== src/Stamp.antt =====
-- isRecentTrain and isInLts of src/advanced_struct.c. A logical clock is an unsigned char, and
-- the difference of two is an `int`.
pub mod Recent
pub mod Tests
use protocol_pfe.Base.{
  ℕ, zero, suc, ◌+◌, ◌-◌, ◌%◌, Bool, true, false, ◌&&◌, leb, ltb, ◌==◌, if◌then◌else◌,
}
use protocol_pfe.Address.{Address, addr_is_member}
use protocol_pfe.World.{Lts}

-- M, the number of values of a logical clock.
abbrev pub lc_count : ℕ
lc_count = 256

-- With diff = lc - last: where diff > 0, diff < (1 + M) / 2 = 128; otherwise
-- diff < (1 - M) / 2 = -127, that is, lc + 127 < last.
unfoldable pub is_recent_lc : ℕ → ℕ → Bool
is_recent_lc lc last = if ltb last lc then ltb (lc - last) 128 else ltb (lc + 127) last

-- The stamp of the train, by its identifier and its logical clock.
unfoldable pub is_recent_train : ℕ → ℕ → ℕ → (ℕ → Lts) → ℕ → Bool
is_recent_train ntr id lc lts last_id =
    let waiting_id = (last_id + 1) % ntr in
    if id == waiting_id then is_recent_lc lc (lts waiting_id).stamp_lc else false

-- The `for` of isInLts with `n` rounds to go, from `i` on.
unfoldable pub is_in_lts_loop : ℕ → ℕ → Address → (ℕ → Lts) → Bool
is_in_lts_loop zero i ad lts = true
is_in_lts_loop (suc n) i ad lts =
    addr_is_member ad (lts i).circuit && is_in_lts_loop n (i + 1) ad lts

unfoldable pub is_in_lts : ℕ → Address → (ℕ → Lts) → Bool
unfolding is_in_lts_loop
is_in_lts ntr ad lts = is_in_lts_loop ntr 0 ad lts

-- ===== src/Stamp/Tests.antt =====
-- The theorems on src/advanced_struct.c's tests of stamps at concrete stamps.
use protocol_pfe.Base.{◌+◌, ◌%◌, ℕ, ◌<◌, ◌≡◌, ◌↔◌, ◌⊎◌, refl, true, arith}
use protocol_pfe.World.{Lts}
use protocol_pfe.World.Samples.{empty_lts}
use protocol_pfe.Stamp.{is_recent_lc, is_recent_train}
use protocol_pfe.Stamp.Recent.{ahead, is_recent_train_iff}

wrapped_is_recent : is_recent_lc 3 250 ≡ true
unfolding is_recent_lc
wrapped_is_recent = refl

-- The last clock of train 1 is 250.
abbrev clocks : ℕ → Lts
clocks id = record empty_lts { stamp_lc = 250 }

is_recent_train_example :
    (is_recent_train 2 1 3 clocks 0 ≡ true)
    ↔ (1 ≡ (0 + 1) % 2)
      × ((0 < ahead 3 250) × (ahead 3 250 < 128) ⊎ ((ahead 3 250 ≡ 128) × (3 < 250)))
is_recent_train_example = is_recent_train_iff 2 1 3 clocks 0 (omega arith) (omega arith)

-- ===== src/Train/Tests.antt =====
-- The loop over the wagons at a concrete train.
use protocol_pfe.Base.{ℕ, ◌+◌, [], ◌∷◌, ◌≡◌, refl, Option, ok, arith}
use protocol_pfe.Memory.{get16, get32}
use protocol_pfe.Wagon.{wagon_len, msg_len, msg_type, train_type, first_wagon}
use protocol_pfe.World.{Womim, World, State}
use protocol_pfe.World.Samples.{womim_of, world_of}
use protocol_pfe.Train.{wagons_loop}
use protocol_pfe.Train.Loop.{Laid, Handled}
use protocol_pfe.Train.Wagons.{wagons_loop_lem}

-- Train 0 with an empty wagon of process 0 and one of process 2.
abbrev train : Womim
train = womim_of (
    24 ∷ 0 ∷ 0 ∷ 0 ∷ 1 ∷ 0 ∷ 9 ∷ 0 ∷ 7 ∷ 0 ∷ 7 ∷ 0 ∷ 0 ∷ 0 ∷ 1 ∷ 0 ∷ 0 ∷ 7 ∷ 0 ∷ 0 ∷ 0 ∷ 4 ∷ 0 ∷ 0
    ∷ [])

abbrev arrived : World
arrived = world_of State.several train

wagons : Laid train.bytes 10 (10 ∷ 17 ∷ [])
unfolding wagon_len msg_len get32 get16
wagons = (
  refl,
  omega arith,
  omega arith,
  omega arith,
  (refl, omega arith, omega arith, omega arith, omega arith),
)

is_train : msg_type train.bytes ≡ train_type
unfolding msg_type
is_train = refl

short : msg_len train.bytes ≡ 24
unfolding msg_len get32 get16
short = refl

wagons_loop_example :
    (first : Option ℕ) × (v : World) × (first_wagon train.bytes ≡ ok first)
    × (wagons_loop (msg_len train.bytes + 1) 1 train.bytes 0 0 first arrived ≡ ok (tt, v))
    × Handled 1 train.bytes 0 0 (10 ∷ 17 ∷ []) arrived v
wagons_loop_example =
    wagons_loop_lem 1 train.bytes 0 0 (10 ∷ 17 ∷ []) arrived is_train wagons (train, refl)
      (omega arith) (omega arith) (omega (arith, short))

-- ===== src/Deliver/Samples.antt =====
-- The theorems on messages at concrete wagons.
use protocol_pfe.Base.{◌≡◌, refl, inl, inr, false, some, List, [], ◌∷◌, All, map, ok, arith}
use protocol_pfe.Memory.{Bytes, get16, get32}
use protocol_pfe.Wagon.{wagon_len, message_len, message_typ}
use protocol_pfe.World.{Ptr, Womim, World, State}
use protocol_pfe.World.Samples.{block, world_of}
use protocol_pfe.Base.{Option}
use protocol_pfe.Broadcast.{must_wait, newmsg, signal_arrival_departures}
use protocol_pfe.Deliver.Signal.{Signalled, signal_arrival_departures_lem}
use protocol_pfe.Deliver.Messages.{Laid}
use protocol_pfe.Deliver.Append.{Whole}
use protocol_pfe.Deliver.Newmsg.{Extended, newmsg_lem}
use protocol_pfe.Deliver.Queue.{Parcel}

-- A wagon of process 1 with an empty broadcast, and one of process 2 with a message that ends
-- the thread.
abbrev bytes : Bytes
bytes = block (
    12 ∷ 0 ∷ 0 ∷ 0 ∷ 2 ∷ 0 ∷ 0 ∷ 5 ∷ 0 ∷ 0 ∷ 0 ∷ 0 ∷ 12 ∷ 0 ∷ 0 ∷ 0 ∷ 4 ∷ 0 ∷ 0 ∷ 5 ∷ 0 ∷ 0 ∷ 0 ∷ 3
    ∷ [])

abbrev two_wagons : Womim
two_wagons = record { counter = 2; size = 32; bytes = bytes }

abbrev parcels : List Parcel
parcels =
    record { wiw = record { womim = 1; wagon = 0 }; messages = 7 ∷ [] }
    ∷ record { wiw = record { womim = 1; wagon = 12 }; messages = 19 ∷ [] }
    ∷ []

abbrev waiting : World
waiting = record (world_of State.several two_wagons) {
  wagons_to_deliver = map (λ x. x.wiw) parcels;
  wagon_to_send = record { womim = 1; wagon = 0 };
}

one_message : Laid bytes (wagon_len bytes 0) 7 (7 ∷ [])
unfolding wagon_len message_len get32 get16
one_message = (refl, omega arith, omega arith, refl)

twelve : wagon_len bytes 0 ≡ 12
unfolding wagon_len get32 get16
twelve = refl

whole : All (Whole bytes) (7 ∷ [])
unfolding message_typ
whole = (inl refl, tt)

no_wait : must_wait 32 (wagon_len bytes 0) 3 ≡ false
unfolding must_wait
no_wait = rw twelve refl

-- Three more bytes behind the broadcast.
newmsg_example :
    (v : World) × (m' : Womim) × (newmsg 3 waiting ≡ ok (some (wagon_len bytes 0), v))
    × (v.heap 1 ≡ some m')
    × (v.wagon_to_send ≡ record { womim = 1; wagon = 0 })
    × Extended 1 two_wagons 3 (7 ∷ []) (wagon_len bytes 0) m'
newmsg_example =
    newmsg_lem 3 (7 ∷ []) two_wagons waiting refl
      (record { header = omega (arith, twelve); inside = omega (arith, twelve) }) (omega arith)
      (omega (arith, twelve)) (inr (omega (arith, twelve))) no_wait one_message whole

-- Process 3 has gone; the circuit is the processes 0, 1 and 2.
signal_arrival_departures_example :
    (heap : Ptr → Option Womim) × (m' : Womim) × (signal_arrival_departures 2 8 7 waiting
      ≡ ok (tt, record waiting { heap = heap; wagon_to_send = record { womim = 1; wagon = 0 } }))
    × (heap 1 ≡ some m')
    × Signalled two_wagons 2 8 7 (wagon_len bytes 0) m'
signal_arrival_departures_example =
    signal_arrival_departures_lem 2 8 7 two_wagons waiting refl
      (record { header = omega (arith, twelve); inside = omega (arith, twelve) }) (omega arith)
      (omega (arith, twelve)) (inr (omega (arith, twelve))) (omega arith) (omega arith)
      (omega arith)

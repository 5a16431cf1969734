-- ===== src/Buffer/Tests.antt =====
-- The theorems on mallocWiw at concrete blocks.
use protocol_pfe.Base.{[], ◌∷◌, ◌<◌, ◌≡◌, ◌≢◌, ◌+◌, refl, inr, ok, arith}
use protocol_pfe.World.{Womim, World, State, Ptr}
use protocol_pfe.Buffer.Count.{free_times, left_of, free_times_lem}
use protocol_pfe.World.Samples.{womim_of, world_of}
use protocol_pfe.Memory.{get16, get32}
use protocol_pfe.Wagon.{wagon_len}
use protocol_pfe.Buffer.{append_message}
use protocol_pfe.Buffer.Room.{Fits, Appended, append_message_lem, append_message_overflows}

-- An empty wagon of process 1 in a block of 32 bytes.
abbrev empty : Womim
empty = womim_of (7 ∷ 0 ∷ 0 ∷ 0 ∷ 2 ∷ 0 ∷ 0 ∷ [])

empty_len : wagon_len empty.bytes 0 ≡ 7
unfolding wagon_len get32 get16
empty_len = refl

empty-Fits : Fits empty
empty-Fits = record { header = omega (arith, empty_len); inside = omega (arith, empty_len) }

append_message_example :
    (m' : Womim) × (append_message 32 20 empty ≡ ok (wagon_len empty.bytes 0, m'))
    × Appended empty 20 (wagon_len empty.bytes 0) m'
append_message_example =
    append_message_lem 32 20 empty empty-Fits (omega arith) (omega (arith, empty_len))
      (inr (omega (arith, empty_len)))

-- A payload of 25 bytes.
append_message_overflows_example :
    (m' : Womim) × (append_message 32 25 empty ≡ ok (7, m'))
    × (wagon_len m'.bytes 0 ≡ 12 + 25)
    × (m'.size < wagon_len m'.bytes 0)
append_message_overflows_example =
    append_message_overflows 32 25 empty refl empty_len (omega arith) (omega arith) (omega arith)
      (omega arith)

-- With two references.
abbrev shared : Womim
shared = record empty { counter = 2 }

abbrev world : World
world = world_of State.several shared

free_times_example :
    (v : World) × (free_times 2 1 world ≡ ok (tt, v))
    × (v.heap 1 ≡ left_of 2 shared)
    × ((q : Ptr) → q ≢ 1 → v.heap q ≡ world.heap q)
free_times_example = free_times_lem 2 1 shared world refl (omega arith) (omega arith) (omega arith)

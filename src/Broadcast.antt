-- ===== src/Broadcast.antt =====
-- newmsg and utoBroadcast of src/applicationMessage.c, src/signalArrival.c, and the calls of
-- src/bqueue.c on wagonsToDeliver. A queue is the list of its elements, the oldest first.
pub mod Keeps
use protocol_pfe.Base.{
  ℕ, zero, suc, ◌+◌, ◌*◌, Bool, true, false, Option, none, some, List, [], ◌∷◌, ◌++◌, ◌&&◌, not,
  ltb, ◌==◌, if◌then◌else◌, Outcome, ok, out_of_fuel, and_then, bit_and, bit_or, bit_xor,
}
use protocol_pfe.Address.{Address, AddressSet, u16, addr_is_member}
use protocol_pfe.Wagon.{wagon_len, wagon_header_size, message_header_size}
use protocol_pfe.World.{u64, Womim, Wiw, State, Counters, World, Env, update}
use protocol_pfe.World.Run.{when◌then◌else◌, M, pure, ◌>>=◌, ◌>>◌, get, modify, lift, load, store}
use protocol_pfe.Buffer.{prefix_size, as_int, write8, write16, new_wiw, malloc_wiw}

-- Types of application messages.
abbrev pub am_broadcast : ℕ
am_broadcast = 0

abbrev pub am_arrival : ℕ
am_arrival = 1

abbrev pub am_departure : ℕ
am_departure = 2

abbrev pub am_terminate : ℕ
am_terminate = 3

-- sizeof(payloadArrivalDeparture)
abbrev pub arrival_departure_size : ℕ
arrival_departure_size = 4

-- A write into the womim of wagonToSend.
unfoldable pub write_to_send : (Womim → Outcome Womim) → M (Unit {0})
write_to_send f = do
  w ← get
  m ← load w.wagon_to_send.womim
  m' ← lift (f m)
  store w.wagon_to_send.womim (some m')

-- bqueueEnqueue(wagonsToDeliver, wi) and bqueueExtend(wagonsToDeliver, list).
unfoldable pub enqueue : Wiw → M (Unit {0})
enqueue wi = modify (λ w. record w { wagons_to_deliver = w.wagons_to_deliver ++ wi ∷ [] })

unfoldable pub extend : List Wiw → M (Unit {0})
extend wis = modify (λ w. record w { wagons_to_deliver = w.wagons_to_deliver ++ wis })

-- wagonToSend = newWiw()
unfoldable pub renew_wagon_to_send : Env → M (Unit {0})
renew_wagon_to_send env = do ww ← new_wiw env; modify (λ w. record w { wagon_to_send = ww })

-- The test of the `while` in newmsg: the message does not fit, and the wagon is not empty.
unfoldable pub must_wait : ℕ → ℕ → ℕ → Bool
must_wait wagon_max_len len payload_size =
    ltb wagon_max_len (len + message_header_size + payload_size) && not (len == wagon_header_size)

flow_control : M (Option ℕ)
flow_control = do
  modify (λ v. record v {
    counters = record (v.counters) { flow_control = u64 (v.counters.flow_control + 1) };
  })
  pure none

-- One round of newmsg: `none` where the thread waits on condWagonToSend, to be tried again when
-- it is woken; otherwise the offset of the new message.
unfoldable pub newmsg_round : ℕ → M (Option ℕ)
unfolding flow_control
newmsg_round payload_size = do
  w ← get
  m ← load w.wagon_to_send.womim
  when must_wait w.wagon_max_len (wagon_len m.bytes 0) payload_size then flow_control else do
    mp ← malloc_wiw payload_size
    write_to_send (write8 (mp + 4) am_broadcast)
    pure (some mp)

unfoldable pub newmsg : ℕ → M (Option ℕ)
newmsg payload_size = do
  modify (λ v. record v { counters = record (v.counters) { newmsg = u64 (v.counters.newmsg + 1) } })
  newmsg_round payload_size

abbrev pub is_alone_insert_wait : State → Bool
is_alone_insert_wait State.alone_insert_wait = true
is_alone_insert_wait _ = false

unfoldable pub uto_broadcast : Env → M (Unit {0})
uto_broadcast env = do
  w ← get
  when is_alone_insert_wait w.automaton_state
      then (do enqueue w.wagon_to_send; renew_wagon_to_send env)
      else pure tt

-- The `realloc` of signalArrivalDepartures, where less than the payload's size is left. The length
-- that is asked for is an `int`.
unfoldable pub make_room : ℕ → Womim → Outcome Womim
make_room wagon_max_len m =
    let len = wagon_len m.bytes 0 in
    let size = len + message_header_size + arrival_departure_size in
    if ltb wagon_max_len (len + arrival_departure_size)
    then as_int (prefix_size + size) (record m { size = size })
    else ok m

unfoldable pub signal_arrival_departures : ℕ → Address → AddressSet → M (Unit {0})
signal_arrival_departures typ ad circuit = do
  w ← get
  write_to_send (make_room w.wagon_max_len)
  mp ← malloc_wiw arrival_departure_size
  write_to_send (write8 (mp + 4) typ)
  write_to_send (write16 (mp + 5) ad)
  write_to_send (write16 (mp + 7) circuit)

unfoldable pub signal_arrival : Address → AddressSet → M (Unit {0})
signal_arrival arrived circuit =
    signal_arrival_departures am_arrival arrived (bit_or circuit arrived)

-- `for (ad = 1; ad != 0; ad <<= 1)`, on fuel.
unfoldable pub departures_loop : ℕ → Address → AddressSet → AddressSet → M (Unit {0})
departures_loop zero ad gone circuit = λ _. out_of_fuel
departures_loop (suc fuel) ad gone circuit = when ad == 0 then pure tt else do
  when addr_is_member ad gone then signal_arrival_departures am_departure ad circuit else pure tt
  departures_loop fuel (u16 (ad * 2)) gone circuit

-- The address has 16 bits, so the loop makes 16 rounds and ends in the 17th test.
unfoldable pub signal_departures : AddressSet → AddressSet → M (Unit {0})
unfolding departures_loop
signal_departures gone circuit =
    when gone == 0
    then pure tt
    else departures_loop 17 1 gone (bit_and circuit (bit_xor gone 65535))

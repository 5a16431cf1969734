-- ===== src/Deliver.antt =====
-- fillCv and utoDeliveries of src/applicationMessage.c. The callbacks are actions on the outside:
-- theCallbackUtoDeliver is given the sender and the place of the message.
pub mod View
pub mod Messages
pub mod Wagons
pub mod Queue
pub mod Append
pub mod Newmsg
pub mod Signal
pub mod Samples
pub mod Tests
use protocol_pfe.Base.{
  ℕ, zero, suc, ◌+◌, ◌-◌, ◌*◌, ◌^◌, Bool, true, false, Option, none, some, List, [], ◌∷◌, ◌||◌,
  ◌==◌, if◌then◌else◌, Outcome, ok, out_of_fuel,
}
use protocol_pfe.Address.{Address, AddressSet, u16, addr_is_member}
use protocol_pfe.Memory.{Bytes, get16}
use protocol_pfe.Wagon.{
  wagon_len, wagon_sender, message_len, message_typ, first_msg, next_msg, message_header_size,
}
use protocol_pfe.World.{
  u64, Ptr, Wiw, CircuitView, World, Action, uto_delivered, circuit_changed, unknown_typ, update,
}
use protocol_pfe.World.Run.{M, pure, ◌>>=◌, ◌>>◌, get, modify, act, lift, load, when◌then◌else◌}
use protocol_pfe.Buffer.{free_womim}
use protocol_pfe.Broadcast.{am_broadcast, am_arrival, am_departure, am_terminate}

-- memset(cp, 0, sizeof(*cp))
abbrev pub zero_view : CircuitView
zero_view = record { cv_nmemb = 0; cv_members = λ k. 0; cv_joined = 0; cv_departed = 0 }

unfoldable pub add_member : Address → CircuitView → CircuitView
add_member ad cv = record cv {
  cv_members = update cv.cv_members cv.cv_nmemb ad;
  cv_nmemb = cv.cv_nmemb + 1;
}

-- The `for` over the addresses, on fuel.
unfoldable pub fill_loop : ℕ → Address → AddressSet → CircuitView → Outcome CircuitView
fill_loop zero ad circuit cv = out_of_fuel
fill_loop (suc fuel) ad circuit cv =
    let cv' = if addr_is_member ad circuit then add_member ad cv else cv in
    let rest = fill_loop fuel (u16 (ad * 2)) circuit cv' in if ad == 0 then ok cv else rest

-- `ad` is shifted out of its 16 bits after 16 rounds.
unfoldable pub fill_cv : AddressSet → Outcome CircuitView
fill_cv circuit = fill_loop 17 1 circuit zero_view

-- payloadArrivalDeparture: ad, then circuit.
unfoldable pub on_arrival : Bytes → ℕ → M (Unit {0})
on_arrival b mp = do
  cv ← lift (fill_cv (get16 b (mp + 7)))
  act (circuit_changed (record cv { cv_joined = get16 b (mp + 5) }))

unfoldable pub on_departure : Bytes → ℕ → M (Unit {0})
on_departure b mp = do
  cv ← lift (fill_cv (get16 b (mp + 7)))
  act (circuit_changed (record cv { cv_departed = get16 b (mp + 5) }))

-- The `switch` on the type of a message: whether it is AM_TERMINATE.
unfoldable pub deliver_message : Ptr → Bytes → ℕ → ℕ → M Bool
deliver_message p b wag mp =
    when message_typ b mp == am_broadcast
    then (act (uto_delivered (wagon_sender b wag) p mp) >> pure false)
    else when message_typ b mp == am_arrival
    then (on_arrival b mp >> pure false)
    else when message_typ b mp == am_departure
    then (on_departure b mp >> pure false)
    else when message_typ b mp == am_terminate
    then pure true
    else (act (unknown_typ (message_typ b mp)) >> pure false)

unfoldable pub count_delivered : Bytes → ℕ → M (Unit {0})
count_delivered b mp = modify (λ w. record w {
  counters = record (w.counters) {
    messages_delivered = u64 (w.counters.messages_delivered + 1);
    messages_bytes_delivered =
        u64
          (w.counters.messages_bytes_delivered + (message_len b mp + 2 ^ 64 - message_header_size));
  };
})

-- The `for` over the messages of a wagon, on fuel: `terminate` after it.
unfoldable pub messages_loop : ℕ → Ptr → Bytes → ℕ → Bool → Option ℕ → M Bool
messages_loop zero p b wag terminate at = λ _. out_of_fuel
messages_loop (suc fuel) p b wag terminate none = pure terminate
messages_loop (suc fuel) p b wag terminate (some mp) = do
  count_delivered b mp
  t ← deliver_message p b wag mp
  messages_loop fuel p b wag (terminate || t) (next_msg b wag mp)

-- A message has at least its header, so the length of the wagon bounds its messages.
unfoldable pub deliver_wagon : Wiw → M Bool
deliver_wagon wi = do
  modify (λ w. record w {
    counters = record (w.counters) { wagons_delivered = u64 (w.counters.wagons_delivered + 1) };
  })
  m ← load wi.womim
  let b = m.bytes
  t ← messages_loop (wagon_len b wi.wagon + 1) wi.womim b wi.wagon false (first_msg b wi.wagon)
  free_womim wi.womim
  pure t

-- The thread until it ends, which is `true`, or waits on the empty queue, which is `false`. The
-- wagons that are in the queue when it is woken are its first argument.
unfoldable pub uto_deliveries : List Wiw → M Bool
uto_deliveries [] = pure false
uto_deliveries (wi ∷ rest) = do
  modify (λ w. record w { wagons_to_deliver = rest })
  t ← deliver_wagon wi
  when t then pure true else uto_deliveries rest

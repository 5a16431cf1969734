-- ===== src/Train.antt =====
-- trainHandling of src/stateMachine.c, with the loop over the wagons of the train.
pub mod Keeps
pub mod Loop
pub mod Body
pub mod Wagons
pub mod Tests
use protocol_pfe.Base.{
  ℕ, zero, suc, ◌+◌, ◌-◌, ◌%◌, Bool, true, false, Option, none, some, List, [], ◌∷◌, ◌++◌, ◌&&◌,
  not, ◌==◌, ltb, if◌then◌else◌, Outcome, ok, out_of_fuel, and_then,
}
use protocol_pfe.Address.{AddressSet, addr_is_member, addr_is_equal, addr_update_circuit}
use protocol_pfe.Memory.{Bytes}
use protocol_pfe.Wagon.{
  wagon_len, wagon_sender, first_msg, msg_len, train_id, train_lc, train_round, train_circuit,
  first_wagon, next_wagon,
}
use protocol_pfe.World.{
  u64, Ptr, Womim, Wiw, Lts, Counters, World, Env, flow_signal, update, max_ntr,
}
use protocol_pfe.World.Run.{
  when◌then◌else◌, M, pure, ◌>>=◌, ◌>>◌, get, modify, act, lift, load, store, or_fault,
}
use protocol_pfe.Buffer.{write8, increment, retain, release_wiw}
use protocol_pfe.Broadcast.{write_to_send, extend, renew_wagon_to_send, signal_departures}

-- NR
abbrev pub nr : ℕ
nr = 3

-- lts[id] is in the array. A `char` of 128 or more is negative, which is out of it too.
unfoldable pub in_lts : ℕ → M (Unit {0})
in_lts id = or_fault (if ltb id max_ntr then some tt else none)

-- unstableWagons[id][round] is in the array.
unfoldable pub in_unstable : ℕ → ℕ → M (Unit {0})
in_unstable id round = or_fault (if ltb id max_ntr && ltb round nr then some tt else none)

-- lts[id] changed by a function.
unfoldable pub on_lts : ℕ → (Lts → Lts) → M (Unit {0})
on_lts id f = modify (λ w. record w { lts = update w.lts id (f (w.lts id)) })

-- unstableWagons[id][round] changed by a function; a fault where it is out of the array.
unfoldable pub on_unstable : ℕ → ℕ → (List Wiw → List Wiw) → M (Unit {0})
on_unstable id round f = do
  in_unstable id round
  modify (λ w. record w {
    unstable_wagons =
        update w.unstable_wagons id
          (update (w.unstable_wagons id) round (f (w.unstable_wagons id round)));
  })

-- bqueueExtend(wagonsToDeliver, unstableWagons[id][round]); cleanList(unstableWagons[id][round]);
unfoldable pub deliver : ℕ → ℕ → M (Unit {0})
deliver id round = do w ← get; extend (w.unstable_wagons id round); on_unstable id round (λ _. [])

-- The round in which the train is handled: the one after its own, if this process has sent the
-- train in that round already.
-- The `char` is negative from 128 on, as -(256 - round); the remainder of a negative number is
-- negative or 0.
unfoldable pub handled_round : ℕ → ℕ → ℕ
handled_round round last =
    if round == last
    then (if ltb round 128 then (round + 1) % nr else (256 - (255 - round) % nr) % 256)
    else round

-- (round - 2 + NR) % NR, where a negative remainder is kept as a byte.
unfoldable pub stable_round : ℕ → ℕ
stable_round round =
    if ltb round 128 then (round + nr - 2) % nr else (256 - (255 - round) % nr) % 256

-- The circuit of the train, and for train 0 the processes that came and went.
unfoldable pub renew_circuit : ℕ → AddressSet → M (Unit {0})
renew_circuit id circuit = do
  w ← get
  when id == 0
      then (do
        let c = addr_update_circuit circuit w.my_address w.came_proc w.gone_proc
        on_lts 0 (λ l. record l { circuit = c })
        modify (λ v. record v { came_proc = 0 })
        signal_departures w.gone_proc c
        modify (λ v. record v { gone_proc = 0 }))
      else on_lts id (λ l. record l { circuit = (w.lts 0).circuit })

-- The wagons of the last lap are not needed any more.
unfoldable pub release_last_lap : ℕ → M (Unit {0})
release_last_lap id = do
  w ← get
  release_wiw (w.lts id).w_w
  on_lts id (λ l. record l { w_w = none; w_len = 0 })
  release_wiw (w.lts id).p_wtosend
  on_lts id (λ l. record l { p_wtosend = none })

-- Whether a wagon of this sender is kept: the sender is in the circuit, not gone, and another
-- process.
unfoldable pub is_kept : World → ℕ → ℕ → Bool
is_kept w id sender =
    addr_is_member sender (w.lts id).circuit
    && not (addr_is_member sender w.gone_proc)
    && not (addr_is_equal sender w.my_address)

-- lts[id].w points to the first wagon that is sent on.
unfoldable pub first_passed : Ptr → ℕ → ℕ → Option Wiw → M (Unit {0})
first_passed p id wag (some _) = pure tt
first_passed p id wag none = do
  on_lts id (λ l. record l { w_w = some (record { womim = p; wagon = wag }) })
  retain p

-- The `if` in which a kept wagon is sent on to the successor, unless it is the successor's own.
unfoldable pub pass_on : Ptr → Bytes → ℕ → ℕ → M (Unit {0})
pass_on p b id wag = do
  w ← get
  when addr_is_equal w.succ (wagon_sender b wag) then pure tt else do
    first_passed p id wag (w.lts id).w_w
    on_lts id (λ l. record l { w_len = l.w_len + wagon_len b wag })

-- The body of the `for` over the wagons.
unfoldable pub handle_wagon : Ptr → Bytes → ℕ → ℕ → ℕ → M (Unit {0})
handle_wagon p b id round wag = do
  in_lts id
  w ← get
  when is_kept w id (wagon_sender b wag)
      then (do
        retain p
        on_unstable id round (λ ws. ws ++ (record { womim = p; wagon = wag }) ∷ [])
        pass_on p b id wag)
      else pure tt

-- The `for` from firstWagon by nextWagon, on fuel. Wagons with lengths that are negative or 0 can keep
-- it going for ever.
unfoldable pub wagons_loop : ℕ → Ptr → Bytes → ℕ → ℕ → Option ℕ → M (Unit {0})
wagons_loop zero p b id round at = λ _. out_of_fuel
wagons_loop (suc fuel) p b id round none = pure tt
wagons_loop (suc fuel) p b id round (some wag) =
    handle_wagon p b id round wag
    >> (lift (next_wagon b wag) >>= λ next. wagons_loop fuel p b id round next)

-- The wagon of this process joins the train if it holds a message.
unfoldable pub join_with : Env → ℕ → ℕ → Option ℕ → M (Unit {0})
join_with env id round none = pure tt
join_with env id round (some _) = do
  w ← get
  write_to_send (write8 (w.wagon_to_send.wagon + 6) round)
  retain w.wagon_to_send.womim
  on_unstable id round (λ ws. ws ++ w.wagon_to_send ∷ [])
  on_lts id (λ l. record l { p_wtosend = some w.wagon_to_send })
  renew_wagon_to_send env

unfoldable pub join_train : Env → ℕ → ℕ → M (Unit {0})
join_train env id round = do
  w ← get
  m ← load w.wagon_to_send.womim
  join_with env id round (first_msg m.bytes w.wagon_to_send.wagon)

unfoldable pub count_recent : Bytes → M (Unit {0})
count_recent b = modify (λ w. record w {
  counters = record (w.counters) {
    recent_trains_received = u64 (w.counters.recent_trains_received + 1);
    recent_trains_bytes_received = u64 (w.counters.recent_trains_bytes_received + msg_len b);
  };
})

-- Where each wagon has at least one byte, `msg_len + 1` rounds are enough for the loop.
unfoldable pub train_handling : Env → Ptr → Bytes → M (Unit {0})
train_handling env p b = do
  let id = train_id b
  w ← get
  let round = handled_round (train_round b) (w.lts id).stamp_round
  count_recent b
  deliver id (stable_round round)
  renew_circuit id (train_circuit b)
  release_last_lap id
  first ← lift (first_wagon b)
  wagons_loop (msg_len b + 1) p b id round first
  on_lts id (λ l. record l { stamp_round = round })
  join_train env id round
  act flow_signal
  on_lts id (λ l. record l { stamp_lc = (train_lc b + 1) % 256 })

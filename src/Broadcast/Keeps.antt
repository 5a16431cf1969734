-- ===== src/Broadcast/Keeps.antt =====
-- Messages are written into wagonToSend; nothing else of the protocol's state changes.
use protocol_pfe.Base.{ℕ, zero, suc, ◌*◌, Outcome}
use protocol_pfe.Address.{Address, AddressSet, u16}
use protocol_pfe.World.{Womim, Env}
use protocol_pfe.World.Ends.{spins}
use protocol_pfe.World.Ends.{kept}
use protocol_pfe.World.Keeps.{Keeps, keeps, when-Keeps, >>=-Keeps, pure-Keeps}
use protocol_pfe.Buffer.Keeps.{buffer_keeps}
use protocol_pfe.Broadcast.{
  write_to_send, renew_wagon_to_send, newmsg_round, newmsg, signal_arrival_departures,
  signal_arrival, departures_loop, signal_departures,
}

pub write_to_send-Keeps : (f : Womim → Outcome Womim) → Keeps kept (write_to_send f)
unfolding write_to_send
write_to_send-Keeps f = search keeps depth 9

pub renew_wagon_to_send-Keeps : (env : Env) → Keeps kept (renew_wagon_to_send env)
unfolding renew_wagon_to_send
renew_wagon_to_send-Keeps env = search (keeps, buffer_keeps) depth 9

pub newmsg_round-Keeps : (n : ℕ) → Keeps kept (newmsg_round n)
unfolding newmsg_round
newmsg_round-Keeps n = search (keeps, buffer_keeps, write_to_send-Keeps) depth 9

pub newmsg-Keeps : (n : ℕ) → Keeps kept (newmsg n)
unfolding newmsg
newmsg-Keeps n = search (keeps, newmsg_round-Keeps) depth 9

pub signal_arrival_departures-Keeps :
    (typ : ℕ) (ad : Address) (circuit : AddressSet)
    → Keeps kept (signal_arrival_departures typ ad circuit)
unfolding signal_arrival_departures
signal_arrival_departures-Keeps typ ad circuit =
    search (keeps, buffer_keeps, write_to_send-Keeps) depth 12

pub signal_arrival-Keeps :
    (ad : Address) (circuit : AddressSet) → Keeps kept (signal_arrival ad circuit)
unfolding signal_arrival
signal_arrival-Keeps ad circuit = signal_arrival_departures-Keeps _ ad _

departures_loop-Keeps :
    (fuel : ℕ) (ad : Address) (gone circuit : AddressSet)
    → Keeps kept (departures_loop fuel ad gone circuit)
unfolding departures_loop
departures_loop-Keeps zero ad gone circuit = record { run = λ u w s. spins }
departures_loop-Keeps (suc fuel) ad gone circuit = when-Keeps _ _ _ (pure-Keeps _) (
    >>=-Keeps _ _ (when-Keeps _ _ _ (signal_arrival_departures-Keeps _ ad circuit) (pure-Keeps _))
      (λ _. departures_loop-Keeps fuel (u16 (ad * 2)) gone circuit))

pub signal_departures-Keeps :
    (gone circuit : AddressSet) → Keeps kept (signal_departures gone circuit)
unfolding signal_departures
signal_departures-Keeps gone circuit = search (keeps, departures_loop-Keeps) depth 9

pub ruleset broadcast_keeps = (
  write_to_send-Keeps, renew_wagon_to_send-Keeps, newmsg-Keeps, signal_arrival-Keeps,
  signal_departures-Keeps,
)

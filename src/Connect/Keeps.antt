-- ===== src/Connect/Keeps.antt =====
-- Opening, closing and sending change the connections and the actions only.
use protocol_pfe.Base.{ℕ, zero, suc, ◌+◌, ◌%◌, Bool, Option, none, some, List}
use protocol_pfe.Address.{Address, np}
use protocol_pfe.World.{Comm, Wiw, Lts, Env}
use protocol_pfe.World.Ends.{spins}
use protocol_pfe.World.Ends.{kept}
use protocol_pfe.World.Keeps.{Keeps, keeps, when-Keeps, >>=-Keeps, pure-Keeps}
use protocol_pfe.Connect.{
  add_tcomm, connected, open_connection, disconnected, close_connection, succ_loop, search_succ,
  send_on, send_other, passed_on, wagon_bytes, own_wagon, send_parts, send_train,
}

pub add_tcomm-Keeps : (c : Comm) (rank : ℕ) (d : Bool) → Keeps kept (add_tcomm c rank d)
unfolding add_tcomm
add_tcomm-Keeps c rank d = search (keeps) depth 9

connected-Keeps :
    (ad : Address) (rank : ℕ) (d : Bool) (c : Option Comm) → Keeps kept (connected ad rank d c)
unfolding connected
connected-Keeps ad rank d none = search keeps
connected-Keeps ad rank d (some c) = search (keeps, add_tcomm-Keeps) depth 9

pub open_connection-Keeps :
    (env : Env) (ad : Address) (d : Bool) → Keeps kept (open_connection env ad d)
unfolding open_connection
open_connection-Keeps env ad d = search (keeps, connected-Keeps) depth 9

disconnected-Keeps : (rank : ℕ) (c : Option Comm) → Keeps kept (disconnected rank c)
unfolding disconnected
disconnected-Keeps rank none = search keeps
disconnected-Keeps rank (some c) = search (keeps) depth 9

pub close_connection-Keeps : (ad : Address) (d : Bool) → Keeps kept (close_connection ad d)
unfolding close_connection
close_connection-Keeps ad d = search (keeps, disconnected-Keeps) depth 9

succ_loop-Keeps :
    (fuel : ℕ) (env : Env) (i rank : ℕ) (ad : Address) → Keeps kept (succ_loop fuel env i rank ad)
unfolding succ_loop
succ_loop-Keeps zero env i rank ad = record { run = λ u w s. spins }
succ_loop-Keeps (suc fuel) env i rank ad = when-Keeps _ _ _ (pure-Keeps _) (
    >>=-Keeps _ _ (open_connection-Keeps env _ _)
      (λ got. when-Keeps _ _ _ (pure-Keeps _) (succ_loop-Keeps fuel env ((i + 1) % np) rank ad)))

pub search_succ-Keeps : (env : Env) (ad : Address) → Keeps kept (search_succ env ad)
unfolding search_succ
search_succ-Keeps env ad = search (keeps, succ_loop-Keeps) depth 9

send_on-Keeps : (c : Option Comm) (bytes : List ℕ) → Keeps kept (send_on c bytes)
unfolding send_on
send_on-Keeps none bytes = search keeps
send_on-Keeps (some c) bytes = search keeps

pub send_other-Keeps :
    (ad : Address) (d : Bool) (type : ℕ) (from : Address) → Keeps kept (send_other ad d type from)
unfolding send_other
send_other-Keeps ad d type from = search (keeps, send_on-Keeps) depth 9

passed_on-Keeps : (l : Lts) → Keeps kept (passed_on l)
unfolding passed_on
passed_on-Keeps l = search keeps depth 9

wagon_bytes-Keeps : (o : Option Wiw) → Keeps kept (wagon_bytes o)
unfolding wagon_bytes
wagon_bytes-Keeps none = search keeps
wagon_bytes-Keeps (some ww) = search keeps depth 9

send_parts-Keeps : (c : Option Comm) (l : Lts) → Keeps kept (send_parts c l)
unfolding send_parts own_wagon
send_parts-Keeps none l = search keeps
send_parts-Keeps (some c) l = search (keeps, passed_on-Keeps, wagon_bytes-Keeps) depth 12

pub send_train-Keeps : (ad : Address) (d : Bool) (l : Lts) → Keeps kept (send_train ad d l)
unfolding send_train
send_train-Keeps ad d l = search (keeps, send_parts-Keeps) depth 9

pub ruleset connect_keeps = (
  open_connection-Keeps, close_connection-Keeps, search_succ-Keeps, send_other-Keeps,
  send_train-Keeps,
)

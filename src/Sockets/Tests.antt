-- ===== src/Sockets/Tests.antt =====
-- The theorems on sockets at concrete runs.
use protocol_pfe.Base.{◌≡◌, refl, true, false, none, some, List, [], ◌∷◌, ok}
use protocol_pfe.Sockets.{
  returns, interrupted, Net, Candidate, Local, timer_of, comm_new_and_connect, comm_accept,
  comm_abort, comm_abort_when_it, free_comm, close_socket, remove,
}
use protocol_pfe.Sockets.Dials.{
  ended, aborting, retried, idle, refused, connected, handle_of, comm_new_and_connect_lem,
}
use protocol_pfe.Sockets.Accepting.{Round, Serves, served, handles, accept_mgt, accept_mgt_lem}
use protocol_pfe.Sockets.Binds.{comm_accept_lem}

abbrev net : Net
net = record { sockets = 3 ∷ []; doing_connect = false; timers = [] }

-- The timer ends the first connection; the second address answers.
abbrev addresses : List Candidate
addresses =
    record {
      socket = some 4;
      starts = true;
      calls = interrupted true ∷ [];
      stops = true;
      closes = true;
    }
    ∷ record { socket = some 5; starts = true; calls = returns 0 ∷ []; stops = true; closes = true }
    ∷ []

comm_new_and_connect_example :
    (n' : Net) × (comm_new_and_connect 1 1500 (some addresses) true net
      ≡ ok (handle_of (some 5) true, n'))
    × (n'.sockets ≡ 5 ∷ 3 ∷ [])
    × (n'.doing_connect ≡ false)
comm_new_and_connect_example =
    comm_new_and_connect_lem 1 1500 addresses (some 5) true net
      (refused refl refl refl refl aborting (connected refl refl refl ended)) refl

-- SO_REUSEADDR fails for the first address.
abbrev locals : List Local
locals =
    record { socket = some 4; reuses = false; binds = true; closes = true }
    ∷ record { socket = some 5; reuses = true; binds = true; closes = true }
    ∷ []

-- The socket of the new connection stays open where `setsockopt` fails.
comm_accept_example :
    comm_accept 1 (interrupted false ∷ returns 6 ∷ []) false (idle (some 3) false) net
    ≡ ok (none, (idle (some 3) false, record net { sockets = 6 ∷ 3 ∷ [] }))
comm_accept_example =
    comm_accept_lem 1 3 false false false (interrupted false ∷ returns 6 ∷ []) (some 6) net
      (retried ended)

-- A second and a half.
timer : timer_of 1500 ≡ (1, 500000)
unfolding timer_of
timer = refl

-- Without a system call to abort, the flag is left set.
stays_aborted : comm_abort 1 (idle (some 3) false) ≡ ok (idle (some 3) true)
unfolding comm_abort
stays_aborted = refl

on_alarm :
    comm_abort_when_it (idle (some 3) false) (record net { doing_connect = true })
    ≡ idle (some 3) true
unfolding comm_abort_when_it
on_alarm = refl

freed : free_comm 1 true (idle (some 3) false) net ≡ ok (record net { sockets = [] })
unfolding free_comm comm_abort close_socket remove
freed = refl

-- One connection, then an accept that is aborted.
abbrev rounds : List Round
rounds =
    record { calls = interrupted false ∷ returns 6 ∷ []; nodelay = true }
    ∷ record { calls = interrupted true ∷ []; nodelay = true }
    ∷ []

accept_mgt_example :
    accept_mgt rounds 1 (idle (some 3) false) net
    ≡ ok (handles (6 ∷ []), (idle (some 3) true, record net { sockets = 6 ∷ 3 ∷ [] }))
accept_mgt_example =
    accept_mgt_lem 1 3 false true rounds (6 ∷ []) (3 ∷ []) (6 ∷ 3 ∷ []) net
      (served (retried ended) refl (Serves.refused aborting))

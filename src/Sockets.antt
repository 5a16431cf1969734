-- ===== src/Sockets.antt =====
-- The handles of src/comm.c: commAlloc, commLongIOBegin and commLongIOEnd, commNewAndConnect,
-- commNewForAccept, commAccept, commAbortWhenIT, commAbort and freeComm. The system calls are not
-- the program's: what each of them returns is a part of its argument.
pub mod Dials
pub mod Binds
pub mod Accepting
pub mod Tests
use protocol_pfe.Base.{
  ℕ, ◌*◌, ◌/◌, ◌%◌, Bool, true, false, Option, none, some, List, [], ◌∷◌, ◌||◌, ◌==◌, if◌then◌else◌,
  Outcome, ok, exited, out_of_fuel, and_then,
}

-- trComm. `fd` is `none` for -1, and `owner` is `none` for pthread_null.
pub record Handle : Type 0 where
  pub fd : Option ℕ
  pub owner : Option ℕ
  pub locked : Bool
  pub aborted : Bool

unfoldable pub comm_alloc : Option ℕ → Handle
comm_alloc fd = record { fd = fd; owner = none; locked = false; aborted = false }

-- Of the thread `self`. A mutex that is locked blocks: no run of this thread alone unlocks it.
unfoldable pub comm_long_io_begin : ℕ → Handle → Outcome Handle
comm_long_io_begin self h =
    if h.locked then out_of_fuel else ok (record h { owner = some self; locked = true })

unfoldable pub comm_long_io_end : Handle → Handle
comm_long_io_end h = record h { owner = none; locked = false }

-- A slow system call: what it returns, or how it fails. `interrupted a`: errno is EINTR, and
-- `aborted` has been set by commAbort or commAbortWhenIT where `a` is true.
pub data Call : Type 0 where
  returns : ℕ → Call
  interrupted : Bool → Call
  failed : Call

-- The `do ... while` around `connect` and `accept`: `none` for -1. No call left is one that blocks
-- for ever.
unfoldable pub call_loop : List Call → Handle → Outcome (Option ℕ × Handle)
call_loop [] h = out_of_fuel
call_loop (returns n ∷ cs) h = ok (some n, h)
call_loop (interrupted true ∷ cs) h = ok (none, record h { aborted = true })
call_loop (interrupted false ∷ cs) h =
    let rest = call_loop cs h in if h.aborted then ok (none, h) else rest
call_loop (failed ∷ cs) h = ok (none, h)

-- The sockets that are open, whether commDoingConnect is set, and the timers that were started, the
-- latest first: seconds and microseconds.
pub record Net : Type 0 where
  pub sockets : List ℕ
  pub doing_connect : Bool
  pub timers : List (ℕ × ℕ)

-- An address that getaddrinfo has found: the results of `socket`, of `setitimer` twice, of
-- `connect`, and whether `close` succeeds.
pub record Candidate : Type 0 where
  pub socket : Option ℕ
  pub starts : Bool
  pub calls : List Call
  pub stops : Bool
  pub closes : Bool

unfoldable pub remove : ℕ → List ℕ → List ℕ
remove fd [] = []
remove fd (x ∷ xs) = if x == fd then xs else x ∷ remove fd xs

unfoldable pub close_socket : Bool → ℕ → Net → Outcome Net
close_socket closes fd n =
    if closes then ok (record n { sockets = remove fd n.sockets }) else exited

-- aTimer.it_value
unfoldable pub timer_of : ℕ → ℕ × ℕ
timer_of timeout = (timeout / 1000, timeout % 1000 * 1000)

-- The first `if (connectTimeout != 0)`: two connections at the same time are an error.
unfoldable pub start_timer : ℕ → Bool → Net → Outcome Net
start_timer timeout starts n =
    if timeout == 0
    then ok n
    else if n.doing_connect
    then exited
    else if starts
    then ok (record n { doing_connect = true; timers = timer_of timeout ∷ n.timers })
    else exited

unfoldable pub stop_timer : ℕ → Bool → Net → Outcome Net
stop_timer timeout stops n =
    if timeout == 0
    then ok n
    else if stops
    then ok (record n { doing_connect = false; timers = (0, 0) ∷ n.timers })
    else exited

-- After `connect`: the socket is kept, or closed.
unfoldable pub conclude : Candidate → ℕ → Option ℕ → Handle → Net → Outcome (Bool × (Handle × Net))
conclude c fd (some rc) h n = ok (true, (h, n))
conclude c fd none h n = and_then (close_socket c.closes fd n) (λ n'. ok (false, (h, n')))

-- The body of the `for` of commNewAndConnect, once there is a socket.
unfoldable pub dial : ℕ → ℕ → Candidate → ℕ → Handle → Net → Outcome (Bool × (Handle × Net))
dial self timeout c fd h n = and_then (comm_long_io_begin self (record h { fd = some fd })) (λ h1.
    and_then (start_timer timeout c.starts (record n { sockets = fd ∷ n.sockets })) (λ n1.
      and_then (call_loop c.calls h1) (λ r.
        and_then (stop_timer timeout c.stops n1)
          (λ n2. conclude c fd r.0 (comm_long_io_end r.1) n2))))

-- The `for` over the addresses: whether one of them was connected.
unfoldable pub dial_loop : ℕ → ℕ → List Candidate → Handle → Net → Outcome (Bool × (Handle × Net))
dial_loop self timeout [] h n = ok (false, (h, n))
dial_loop self timeout (c ∷ cs) h n = elim c.socket [
  | none ↦ dial_loop self timeout cs h n
  | some fd ↦
      and_then (dial self timeout c fd h n)
        (λ r. if r.0 then ok r else dial_loop self timeout cs r.1.0 r.1.1)
]

-- What getaddrinfo has found, `none` where it fails, and whether `setsockopt` succeeds.
unfoldable pub comm_new_and_connect :
    ℕ → ℕ → Option (List Candidate) → Bool → Net → Outcome (Option Handle × Net)
comm_new_and_connect self timeout none nodelay n = exited
comm_new_and_connect self timeout (some cs) nodelay n =
    and_then (dial_loop self timeout cs (comm_alloc none) n)
      (λ r. if r.0 then (if nodelay then ok (some r.1.0, r.1.1) else exited) else ok (none, r.1.1))

-- An address to listen on: the results of `socket`, `setsockopt`, `bind` and `close`.
pub record Local : Type 0 where
  pub socket : Option ℕ
  pub reuses : Bool
  pub binds : Bool
  pub closes : Bool

-- The `for` of commNewForAccept: the socket that is bound.
unfoldable pub bind_loop : List Local → Net → Outcome (Option ℕ × Net)
bind_loop [] n = ok (none, n)
bind_loop (c ∷ cs) n = elim c.socket [
  | none ↦ bind_loop cs n
  | some fd ↦
      let n1 : Net = record n { sockets = fd ∷ n.sockets } in
      if c.reuses
      then (if c.binds
          then ok (some fd, n1)
          else and_then (close_socket c.closes fd n1) (bind_loop cs))
      else bind_loop cs n1
]

unfoldable pub listening : Bool → Option ℕ × Net → Outcome (Option Handle × Net)
listening listens (none, n) = exited
listening listens (some fd, n) = ok (if listens then some (comm_alloc (some fd)) else none, n)

unfoldable pub comm_new_for_accept :
    Option (List Local) → Bool → Net → Outcome (Option Handle × Net)
comm_new_for_accept none listens n = exited
comm_new_for_accept (some cs) listens n = and_then (bind_loop cs n) (listening listens)

-- The handle that waits, the handle of the new connection, and the sockets.
unfoldable pub accepted : Bool → Net → Option ℕ × Handle → Option Handle × (Handle × Net)
accepted nodelay n (none, h) = (none, (comm_long_io_end h, n))
accepted nodelay n (some fd, h) = (
  if nodelay then some (comm_alloc (some fd)) else none,
  (comm_long_io_end h, record n { sockets = fd ∷ n.sockets }),
)

unfoldable pub comm_accept :
    ℕ → List Call → Bool → Handle → Net → Outcome (Option Handle × (Handle × Net))
comm_accept self calls nodelay h n =
    and_then (comm_long_io_begin self h)
      (λ h1. and_then (call_loop calls h1) (λ r. ok (accepted nodelay n r)))

-- On SIGALRM; the signal to the owner of the mutex makes its system call one that is interrupted.
unfoldable pub comm_abort_when_it : Handle → Net → Handle
comm_abort_when_it h n = if n.doing_connect then record h { aborted = true } else h

-- The thread `self` aborts what the owner does, and waits for it to end.
unfoldable pub comm_abort : ℕ → Handle → Outcome Handle
comm_abort self h =
    let h1 : Handle = record h { aborted = true } in
    elim h.owner [
      | none ↦ ok h1
      | some t ↦
          and_then (comm_long_io_begin self h1)
            (λ h2. ok (record (comm_long_io_end h2) { aborted = false }))
    ]

unfoldable pub free_comm : ℕ → Bool → Handle → Net → Outcome Net
free_comm self closes h n =
    and_then (comm_abort self h)
      (λ h1. elim h1.fd [ none ↦ exited | some fd ↦ close_socket closes fd n ])

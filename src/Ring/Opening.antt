-- ===== src/Ring/Opening.antt =====
-- create_ring of protocol_tcp/main.c with the two connections of a process: the one that it makes
-- to its successor, and the one that it awaits from its predecessor.
use protocol_pfe.Base.{
  ℕ, ◌+◌, ◌-◌, ◌≡◌, refl, inl, inr, Bool-cases, Bool, true, false, Option, none, some, List, [],
  ◌∷◌, ◌==◌, if◌then◌else◌, Outcome, ok, exited, out_of_fuel, and_then, ==_refl,
}
use protocol_pfe.Sockets.{Net, remove}

-- A round of the `while` around `connect`: whether it connects, and the socket that `socket` returns
-- for the next round.
pub record Attempt : Type 0 where
  pub connects : Bool
  pub next : ℕ

-- It tries for ever where no attempt connects.
unfoldable pub client_loop : List Attempt → ℕ → Net → Outcome (ℕ × Net)
client_loop [] sid n = out_of_fuel
client_loop (a ∷ rest) sid n =
    let again = client_loop rest a.next (record n { sockets = a.next ∷ remove sid n.sockets }) in
    if a.connects then ok (sid, n) else again

-- setTCP_NODELAY, which is `assert`ed.
unfoldable pub set_tcp_nodelay : {A : Type 0} → Bool → A → Outcome A
set_tcp_nodelay nodelay a = if nodelay then ok a else exited

unfoldable pub create_tcp_client_socket : ℕ → List Attempt → Bool → Net → Outcome (ℕ × Net)
create_tcp_client_socket sid attempts nodelay n =
    and_then (client_loop attempts sid (record n { sockets = sid ∷ n.sockets }))
      (set_tcp_nodelay nodelay)

-- The process behind this one on the ring.
unfoldable pub successor_of : ℕ → ℕ → ℕ
successor_of self_id num_nodes = if self_id == num_nodes - 1 then 0 else self_id + 1

-- A connection from the predecessor, and whether TCP_NODELAY is set on it.
pub record Accepted : Type 0 where
  pub self_sid : ℕ
  pub nodelay : Bool

-- The `while` after an `accept` that has failed. A second one that fails makes the `assert` of
-- setTCP_NODELAY fail.
unfoldable pub accept_again : List (Option ℕ) → Bool → Net → Outcome (Accepted × Net)
accept_again [] nodelay n = out_of_fuel
accept_again (none ∷ rest) nodelay n = exited
accept_again (some fd ∷ rest) nodelay n =
    set_tcp_nodelay nodelay
      (record { self_sid = fd; nodelay = true }, record n { sockets = fd ∷ n.sockets })

unfoldable pub accept_first : List (Option ℕ) → Bool → Net → Outcome (Accepted × Net)
accept_first [] nodelay n = out_of_fuel
accept_first (none ∷ rest) nodelay n = accept_again rest nodelay n
accept_first (some fd ∷ rest) nodelay n =
    ok (record { self_sid = fd; nodelay = false }, record n { sockets = fd ∷ n.sockets })

-- `sid` is the socket that listens; `binds` and `listens` are `assert`ed.
unfoldable pub create_tcp_server_socket :
    ℕ → Bool → Bool → List (Option ℕ) → Bool → Net → Outcome (Accepted × Net)
create_tcp_server_socket sid binds listens accepts nodelay n =
    if binds
    then (if listens
        then accept_first accepts nodelay (record n { sockets = sid ∷ n.sockets })
        else exited)
    else exited

-- What the system calls of a process return: the sockets, whether `bind` and `listen` succeed, and
-- the `setsockopt` of setTCP_NODELAY on the two connections.
pub record Calls : Type 0 where
  pub client : ℕ
  pub nodelay_client : Bool
  pub attempts : List Attempt
  pub server : ℕ
  pub binds : Bool
  pub listens : Bool
  pub nodelay_server : Bool
  pub accepts : List (Option ℕ)

-- Process 0 makes its connection first, each of the others awaits its own first.
unfoldable pub create_ring : ℕ → Calls → Net → Outcome (ℕ × Accepted × Net)
create_ring self_id c n =
    if self_id == 0
    then and_then (create_tcp_client_socket c.client c.attempts c.nodelay_client n) (λ r.
      and_then (create_tcp_server_socket c.server c.binds c.listens c.accepts c.nodelay_server r.1)
        (λ s. ok (r.0, s.0, s.1)))
    else and_then (create_tcp_server_socket c.server c.binds c.listens c.accepts c.nodelay_server n)
        (λ s.
          and_then (create_tcp_client_socket c.client c.attempts c.nodelay_client s.1)
            (λ r. ok (r.0, s.0, r.1)))

-- The attempts from the socket `sid` on end with a connection on `got`.
pub data Connects : ℕ → List Attempt → ℕ → Type 0 where
  now :
      {sid : ℕ} {a : Attempt} {rest : List Attempt}
      → a.connects ≡ true
      → Connects sid (a ∷ rest) sid
  later :
      {sid got : ℕ} {a : Attempt} {rest : List Attempt}
      → a.connects ≡ false
      → Connects a.next rest got
      → Connects sid (a ∷ rest) got

client_loop_lem :
    (attempts : List Attempt) (sid got : ℕ) (before : List ℕ) (n : Net)
    → Connects sid attempts got
    → client_loop attempts sid (record n { sockets = sid ∷ before })
      ≡ ok (got, record n { sockets = got ∷ before })
unfolding client_loop remove
client_loop_lem [] sid got before n t = elim t [ ]
client_loop_lem (a ∷ rest) sid got before n (now e) = rw e refl
client_loop_lem (a ∷ rest) sid got before n (later e t) =
    rw (e, ==_refl sid) (client_loop_lem rest a.next got before n t)

-- The first `accept` gives a connection, or the second one, on which TCP_NODELAY is set.
pub data Accepts : List (Option ℕ) → ℕ → Bool → Type 0 where
  at_once : {fd : ℕ} {rest : List (Option ℕ)} → Accepts (some fd ∷ rest) fd false
  second : {fd : ℕ} {rest : List (Option ℕ)} → Accepts (none ∷ some fd ∷ rest) fd true

accept_first_lem :
    (accepts : List (Option ℕ)) (fd : ℕ) (d : Bool) (n : Net)
    → Accepts accepts fd d
    → accept_first accepts true n
      ≡ ok (record { self_sid = fd; nodelay = d }, record n { sockets = fd ∷ n.sockets })
unfolding accept_first accept_again set_tcp_nodelay
accept_first_lem accepts fd d n at_once = refl
accept_first_lem accepts fd d n second = refl

-- The sockets that are open after create_ring, the latest first.
abbrev pub ring_sockets : ℕ → ℕ → ℕ → ℕ → List ℕ → List ℕ
ring_sockets self_id server fd got before =
    if self_id == 0 then fd ∷ server ∷ got ∷ before else got ∷ fd ∷ server ∷ before

-- Where one of the attempts to connect to the successor succeeds, the first or the second accept
-- gives a connection from the predecessor, and bind, listen and the setsockopt of TCP_NODELAY
-- succeed, create_ring returns, in the order of process 0 or of the others: of the sockets for
-- the successor only the connected one stays open, the listening one and the accepted one stay
-- open too, and TCP_NODELAY has been set on the accepted one exactly where the first accept has
-- failed.
pub create_ring_lem :
    (self_id fd got : ℕ) (d : Bool) (c : Calls) (n : Net)
    → Connects c.client c.attempts got
    → Accepts c.accepts fd d
    → c.binds ≡ true
    → c.listens ≡ true
    → c.nodelay_client ≡ true
    → c.nodelay_server ≡ true
    → create_ring self_id c n
      ≡ ok (
        got,
        record { self_sid = fd; nodelay = d },
        record n { sockets = ring_sockets self_id c.server fd got n.sockets },
      )
unfolding create_ring create_tcp_client_socket create_tcp_server_socket set_tcp_nodelay
create_ring_lem self_id fd got d c n t a b l k s = elim (Bool-cases (self_id == 0)) [
  | inl e ↦
      rw (e, b, l, k, s, client_loop_lem c.attempts c.client got n.sockets n t)
        (rw (accept_first_lem c.accepts fd d (record n { sockets = c.server ∷ got ∷ n.sockets }) a)
          refl)
  | inr e ↦
      rw
        (
          e,
          b,
          l,
          k,
          s,
          accept_first_lem c.accepts fd d (record n { sockets = c.server ∷ n.sockets }) a,
        )
        (rw (client_loop_lem c.attempts c.client got (fd ∷ c.server ∷ n.sockets) n t) refl)
]

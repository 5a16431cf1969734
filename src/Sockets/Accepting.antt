-- ===== src/Sockets/Accepting.antt =====
-- acceptMgt of src/stateMachine.c: the thread that awaits connections, and starts the thread
-- connectionMgt for each of them.
use protocol_pfe.Base.{
  ℕ, ◌≡◌, refl, Bool, true, false, Option, none, some, List, [], ◌∷◌, map, Outcome, ok, out_of_fuel,
  and_then, if◌then◌else◌, arith,
}
use protocol_pfe.Sockets.{Handle, Call, Net, comm_accept}
use protocol_pfe.Sockets.Dials.{Answer, idle}
use protocol_pfe.Sockets.Binds.{comm_accept_lem}

-- A round of the loop: the results of `accept`, and of `setsockopt`.
pub record Round : Type 0 where
  pub calls : List Call
  pub nodelay : Bool

-- The connections whose threads are started, until commAccept returns NULL. With no round left it
-- waits.
unfoldable pub accept_mgt : List Round → ℕ → Handle → Net → Outcome (List Handle × (Handle × Net))
accept_mgt [] self h n = out_of_fuel
accept_mgt (r ∷ rs) self h n = and_then (comm_accept self r.calls r.nodelay h n) (λ a. elim a.0 [
  | none ↦ ok ([], a.1)
  | some c ↦ and_then (accept_mgt rs self a.1.0 a.1.1) (λ b. ok (c ∷ b.0, b.1))
])

-- The sockets of the connections, in their order, with those that are open after each round; the
-- loop ends where `accept` fails, or where TCP_NODELAY cannot be set on the new connection, whose
-- socket stays open.
pub data Serves : Bool → List ℕ → List Round → List ℕ → Bool → List ℕ → Type 0 where
  refused :
      {a b : Bool} {before : List ℕ} {r : Round} {rs : List Round}
      → Answer a r.calls none b
      → Serves a before (r ∷ rs) [] b before
  delayed :
      {a b : Bool} {before : List ℕ} {r : Round} {rs : List Round} {fd : ℕ}
      → Answer a r.calls (some fd) b
      → r.nodelay ≡ false
      → Serves a before (r ∷ rs) [] b (fd ∷ before)
  served :
      {a b d : Bool} {before after : List ℕ} {r : Round} {rs : List Round} {fd : ℕ} {fds : List ℕ}
      → Answer a r.calls (some fd) b
      → r.nodelay ≡ true
      → Serves b (fd ∷ before) rs fds d after
      → Serves a before (r ∷ rs) (fd ∷ fds) d after

abbrev pub handles : List ℕ → List Handle
handles fds = map (λ fd. idle (some fd) false) fds

-- From a listening handle that no thread works on, where each call of accept before the last
-- returns a connection and TCP_NODELAY can be set on it, and the last one fails, is aborted, or
-- returns a connection on which TCP_NODELAY cannot be set, acceptMgt ends; it has started a
-- thread for each of the earlier connections, in their order, with a handle of its own socket;
-- the sockets of all the connections are open, that of the last one too, and the listening handle
-- is free, with the flag that the calls have left.
pub accept_mgt_lem :
    (self listener : ℕ) (a b : Bool) (rs : List Round) (fds before after : List ℕ) (n : Net)
    → Serves a before rs fds b after
    → accept_mgt rs self (idle (some listener) a) (record n { sockets = before })
      ≡ ok (handles fds, (idle (some listener) b, record n { sockets = after }))
unfolding accept_mgt
accept_mgt_lem self l a b [] fds before after n t = elim t [ ]
accept_mgt_lem self l a b (r ∷ rs) fds before after n (refused t) =
    let none_there : ◌≡◌ {A = Option Handle} (if r.nodelay then none else none) none =
      ground arith in
    rw (comm_accept_lem self l a b r.nodelay r.calls none (record n { sockets = before }) t)
      (rw none_there refl)
accept_mgt_lem self l a b (r ∷ rs) fds before after n (delayed {fd = fd} t e) =
    rw (e, comm_accept_lem self l a b false r.calls (some fd) (record n { sockets = before }) t)
      refl
accept_mgt_lem self l a b (r ∷ rs) fds before after n
      (served {b = mid} {fd = fd} {fds = more} t e rest) =
    rw (e, comm_accept_lem self l a mid true r.calls (some fd) (record n { sockets = before }) t)
      (rw (accept_mgt_lem self l mid b rs more (fd ∷ before) after n rest) refl)

-- ===== src/Sockets/Binds.antt =====
-- commNewForAccept and commAccept: which sockets are open after them.
use protocol_pfe.Base.{
  ℕ, ◌≡◌, refl, Bool, true, false, Option, none, some, List, [], ◌∷◌, if◌then◌else◌, Outcome, ok,
  exited,
}
use protocol_pfe.Sockets.{
  Handle, Call, Net, Local, comm_alloc, comm_long_io_begin, comm_long_io_end, accepted, comm_accept,
}
use protocol_pfe.Sockets.Dials.{Answer, idle, call_loop_lem, with_socket, handle_of}

-- The addresses are tried in their order, from the open sockets `before` to those after: one
-- whose SO_REUSEADDR fails is left open, one that cannot be bound is closed.
pub data Binds : List ℕ → List Local → Option ℕ → List ℕ → Type 0 where
  nowhere : {before : List ℕ} → Binds before [] none before
  skipped :
      {before after : List ℕ} {c : Local} {cs : List Local} {r : Option ℕ}
      → c.socket ≡ none
      → Binds before cs r after
      → Binds before (c ∷ cs) r after
  left_open :
      {before after : List ℕ} {c : Local} {cs : List Local} {r : Option ℕ} {fd : ℕ}
      → c.socket ≡ some fd
      → c.reuses ≡ false
      → Binds (fd ∷ before) cs r after
      → Binds before (c ∷ cs) r after
  refused :
      {before after : List ℕ} {c : Local} {cs : List Local} {r : Option ℕ} {fd : ℕ}
      → c.socket ≡ some fd
      → c.reuses ≡ true
      → c.binds ≡ false
      → c.closes ≡ true
      → Binds before cs r after
      → Binds before (c ∷ cs) r after
  bound :
      {before : List ℕ} {c : Local} {cs : List Local} {fd : ℕ}
      → c.socket ≡ some fd
      → c.reuses ≡ true
      → c.binds ≡ true
      → Binds before (c ∷ cs) (some fd) (fd ∷ before)

abbrev opens : Net → List ℕ → Net
opens n fds = record n { sockets = fds }

-- The end of the process where no address is bound.
abbrev pub serves : Bool → Option ℕ → Net → Outcome (Option Handle × Net)
serves listens none n = exited
serves listens (some fd) n = ok (if listens then handle_of (some fd) false else none, n)

pub comm_accept_lem :
    (self fd : ℕ) (a b nodelay : Bool) (calls : List Call) (r : Option ℕ) (n : Net)
    → Answer a calls r b
    → comm_accept self calls nodelay (idle (some fd) a) n
      ≡ ok (
        if nodelay then handle_of r false else none,
        (idle (some fd) b, record n { sockets = with_socket r n.sockets }),
      )
unfolding comm_accept accepted comm_long_io_begin comm_long_io_end comm_alloc
comm_accept_lem self fd a b true calls none n t = rw (call_loop_lem self fd a b calls none t) refl
comm_accept_lem self fd a b false calls none n t = rw (call_loop_lem self fd a b calls none t) refl
comm_accept_lem self fd a b nodelay calls (some x) n t =
    rw (call_loop_lem self fd a b calls (some x) t) refl

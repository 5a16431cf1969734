-- ===== src/Sockets/Dials.antt =====
-- commNewAndConnect: which address is connected, and what is left of the others.
use protocol_pfe.Base.{
  ℕ, ◌≡◌, refl, ap, ◌∙◌, inl, inr, Bool, true, false, Option, none, some, List, [], ◌∷◌, ◌==◌,
  Outcome, ok, Bool-cases, ==_refl,
}
use protocol_pfe.Sockets.{
  Handle, comm_long_io_end, Call, returns, interrupted, failed, call_loop, Net, Candidate,
  close_socket, remove, comm_alloc, comm_long_io_begin, start_timer, stop_timer, timer_of, conclude,
  dial, dial_loop, comm_new_and_connect,
}

-- How a slow system call ends, with the flag `aborted` before and after it: it returns, it fails,
-- it is aborted while it waits, or it is interrupted with the flag set.
pub data Answer : Bool → List Call → Option ℕ → Bool → Type 0 where
  ended : {a : Bool} {n : ℕ} {cs : List Call} → Answer a (returns n ∷ cs) (some n) a
  failing : {a : Bool} {cs : List Call} → Answer a (failed ∷ cs) none a
  aborting : {a : Bool} {cs : List Call} → Answer a (interrupted true ∷ cs) none true
  stopped : {cs : List Call} → Answer true (interrupted false ∷ cs) none true
  retried :
      {a : Bool} {r : Option ℕ} {cs : List Call}
      → Answer false cs r a
      → Answer false (interrupted false ∷ cs) r a

-- A handle that no thread works on.
abbrev pub idle : Option ℕ → Bool → Handle
idle fd a = record { fd = fd; owner = none; locked = false; aborted = a }

abbrev busy : ℕ → ℕ → Bool → Handle
busy self fd a = record { fd = some fd; owner = some self; locked = true; aborted = a }

pub call_loop_lem :
    (self fd : ℕ) (a b : Bool) (cs : List Call) (r : Option ℕ)
    → Answer a cs r b
    → call_loop cs (busy self fd a) ≡ ok (r, busy self fd b)
unfolding call_loop
call_loop_lem self fd a b cs r ended = refl
call_loop_lem self fd a b cs r failing = refl
call_loop_lem self fd a b cs r aborting = refl
call_loop_lem self fd a b cs r stopped = refl
call_loop_lem self fd a b cs r (retried t) = call_loop_lem self fd false b _ r t

-- The addresses are tried in their order, from a handle with the flag `a`: one without a socket is
-- skipped, one that refuses is closed, and the first that is connected is taken.
pub data Dials : Bool → List Candidate → Option ℕ → Bool → Type 0 where
  nowhere : {a : Bool} → Dials a [] none a
  skipped :
      {a b : Bool} {c : Candidate} {cs : List Candidate} {r : Option ℕ}
      → c.socket ≡ none
      → Dials a cs r b
      → Dials a (c ∷ cs) r b
  refused :
      {a b d : Bool} {c : Candidate} {cs : List Candidate} {r : Option ℕ} {fd : ℕ}
      → c.socket ≡ some fd
      → c.starts ≡ true
      → c.stops ≡ true
      → c.closes ≡ true
      → Answer a c.calls none b
      → Dials b cs r d
      → Dials a (c ∷ cs) r d
  connected :
      {a b : Bool} {c : Candidate} {cs : List Candidate} {fd n : ℕ}
      → c.socket ≡ some fd
      → c.starts ≡ true
      → c.stops ≡ true
      → Answer a c.calls (some n) b
      → Dials a (c ∷ cs) (some fd) b

-- The sockets `before` with the one that is handed out.
abbrev pub with_socket : Option ℕ → List ℕ → List ℕ
with_socket none before = before
with_socket (some fd) before = fd ∷ before

abbrev pub handle_of : Option ℕ → Bool → Option Handle
handle_of none a = none
handle_of (some fd) a = some (idle (some fd) a)

-- One address, with a timer or without.
dial_lem :
    (self timeout fd : ℕ) (f : Option ℕ) (a b : Bool) (c : Candidate) (r : Option ℕ) (n : Net)
    → c.starts ≡ true
    → c.stops ≡ true
    → n.doing_connect ≡ false
    → Answer a c.calls r b
    → (n' : Net) × (dial self timeout c fd (idle f a) n ≡ conclude c fd r (idle (some fd) b) n')
      × (n'.sockets ≡ fd ∷ n.sockets)
      × (n'.doing_connect ≡ false)
unfolding dial comm_long_io_begin comm_long_io_end start_timer stop_timer
dial_lem self timeout fd f a b c r n up down free t = elim (Bool-cases (timeout == 0)) [
  | inl e ↦ (
    record n { sockets = fd ∷ n.sockets },
    rw (e, call_loop_lem self fd a b c.calls r t) refl,
    refl,
    free,
  )
  | inr e ↦ (
    record n {
      sockets = fd ∷ n.sockets;
      doing_connect = false;
      timers = (0, 0) ∷ timer_of timeout ∷ n.timers;
    },
    rw (e, free, up, down, call_loop_lem self fd a b c.calls r t) refl,
    refl,
    refl,
  )
]

conclude-none :
    (c : Candidate) (fd : ℕ) (h : Handle) (n : Net)
    → c.closes ≡ true
    → conclude c fd none h n ≡ ok (false, (h, record n { sockets = remove fd n.sockets }))
unfolding conclude close_socket
conclude-none c fd h n closes = rw closes refl

module _ (self timeout fd : ℕ) (c : Candidate) (cs : List Candidate) (h h' : Handle) (n n' : Net)
    (got : c.socket ≡ some fd) where
  dial_loop-next :
      (o : Outcome (Bool × (Handle × Net)))
      → dial self timeout c fd h n ≡ ok (false, (h', n'))
      → dial_loop self timeout cs h' n' ≡ o
      → dial_loop self timeout (c ∷ cs) h n ≡ o
  unfolding dial_loop
  dial_loop-next o ran next = rw (got, ran) next

  dial_loop-found :
      dial self timeout c fd h n ≡ ok (true, (h', n'))
      → dial_loop self timeout (c ∷ cs) h n ≡ ok (true, (h', n'))
  unfolding dial_loop
  dial_loop-found ran = rw (got, ran) refl

-- A handle, and the sockets that are open.
pub record Dialled (self timeout : ℕ) (f : Option ℕ) (a : Bool) (cs : List Candidate) (r : Option ℕ)
    (b : Bool) (n n' : Net) : Type 0 where
  pub fd : Option ℕ
  pub ran :
      dial_loop self timeout cs (idle f a) n
      ≡ ok (elim r [ none ↦ false | some _ ↦ true ], (idle fd b, n'))
  pub handed_out : (x : ℕ) → r ≡ some x → fd ≡ some x
  pub sockets : n'.sockets ≡ with_socket r n.sockets
  pub free : n'.doing_connect ≡ false

dial_loop_lem :
    (self timeout : ℕ) (f : Option ℕ) (a b : Bool) (cs : List Candidate) (r : Option ℕ) (n : Net)
    → Dials a cs r b
    → n.doing_connect ≡ false
    → (n' : Net) × Dialled self timeout f a cs r b n n'
unfolding dial_loop conclude close_socket remove
dial_loop_lem self timeout f a b cs r n nowhere free = (
  n,
  record { fd = f; ran = refl; handed_out = λ x e. absurd (cc e); sockets = refl; free = free },
)
dial_loop_lem self timeout f a b (c ∷ cs) r n (skipped none_left rest) free =
    let (n', d) = dial_loop_lem self timeout f a b cs r n rest free in
    (
      n',
      record {
        fd = d.fd;
        ran = rw none_left d.ran;
        handed_out = d.handed_out;
        sockets = d.sockets;
        free = d.free;
      },
    )
dial_loop_lem self timeout f a b (c ∷ cs) r n
      (refused {b = mid} {fd = fd} got up down closes t rest) free =
    let (n1, ran, opened, free1) = dial_lem self timeout fd f a mid c none n up down free t in
    let n2 : Net = record n1 { sockets = remove fd n1.sockets } in
    let (n', d) = dial_loop_lem self timeout (some fd) mid b cs r n2 rest free1 in
    (
      n',
      record {
        fd = d.fd;
        ran =
            dial_loop-next self timeout fd c cs (idle f a) (idle (some fd) mid) n n2 got _
              (ran ∙ conclude-none c fd (idle (some fd) mid) n1 closes) d.ran;
        handed_out = d.handed_out;
        sockets = d.sockets ∙ ap (with_socket r) (rw (opened, ==_refl fd) refl);
        free = d.free;
      },
    )
dial_loop_lem self timeout f a b (c ∷ cs) r n (connected {fd = fd} {n = k} got up down t) free =
    let (n1, ran, opened, free1) = dial_lem self timeout fd f a b c (some k) n up down free t in
    (
      n1,
      record {
        fd = some fd;
        ran = dial_loop-found self timeout fd c cs (idle f a) (idle (some fd) b) n n1 got ran;
        handed_out = λ x e. e;
        sockets = opened;
        free = free1;
      },
    )

-- Where each address without a socket is skipped, each one that refuses can be closed, the timers
-- can be set and no other connection is being made, commNewAndConnect with a TCP_NODELAY that
-- succeeds returns a handle on the first address that is connected, or NULL where there is none;
-- its mutex is free; of all the sockets that it has opened exactly that one stays open; and the
-- handle's flag `aborted` is the one that the calls of connect have left, so it is set where an
-- earlier address was given up for the timer.
pub comm_new_and_connect_lem :
    (self timeout : ℕ) (cs : List Candidate) (r : Option ℕ) (a : Bool) (n : Net)
    → Dials false cs r a
    → n.doing_connect ≡ false
    → (n' : Net) × (comm_new_and_connect self timeout (some cs) true n ≡ ok (handle_of r a, n'))
      × (n'.sockets ≡ with_socket r n.sockets)
      × (n'.doing_connect ≡ false)
unfolding comm_new_and_connect comm_alloc
comm_new_and_connect_lem self timeout cs none a n t free =
    let (n', d) = dial_loop_lem self timeout none false a cs none n t free in
    (n', rw d.ran refl, d.sockets, d.free)
comm_new_and_connect_lem self timeout cs (some fd) a n t free =
    let (n', d) = dial_loop_lem self timeout none false a cs (some fd) n t free in
    (n', rw d.ran (rw (d.handed_out fd refl) refl), d.sockets, d.free)

-- ===== src/Receive/Steps.antt =====
-- A round of msgTreatment: what it does before stateMachine, and that it is a step of the automaton.
use protocol_pfe.Base.{
  ℕ, ◌+◌, ◌<◌, ◌≡◌, refl, ap, ◌∙◌, Option, none, some, Bool-cases, ltb, if◌then◌else◌, inl, inr,
  Bool, true, false, Outcome, ok, exited, fault, out_of_fuel, and_then, arith,
}
use protocol_pfe.Memory.{Bytes}
use protocol_pfe.Address.{Address, np, addr_to_rank}
use protocol_pfe.Wagon.{msg_len, msg_type, msg_sender}
use protocol_pfe.World.{u64, Ptr, Comm, Entry, Womim, World, Env, update}
use protocol_pfe.World.Run.{◌>>=◌, get, modify, lift, load, pure, run_then}
use protocol_pfe.World.Ends.{Ends, ended, exits, faults, spins, bind, result_of}
use protocol_pfe.Table.{add_entry, search_tcomm}
use protocol_pfe.Table.Laws.{Absent, search_tcomm-add_entry}
use protocol_pfe.Connect.{add_tcomm}
use protocol_pfe.Automaton.Handlers.{MsgType, train, insert, newsucc, to_msg_type}
use protocol_pfe.Automaton.Several.{state_machine}
use protocol_pfe.Automaton.Step.{Step}
use protocol_pfe.Automaton.Transitions.{state_machine-Steps}
use protocol_pfe.Receive.{count_train, add_at, add_sender, on_type, is_disconnect, treat}

-- The connection `c` is that of the sender of the message, in this direction, and nothing but the
-- table has changed.
abbrev pub Known : Comm → Bytes → Bool → World → World → Type 0
Known c b is_pred w v =
    (r : ℕ) × (addr_to_rank (msg_sender b) ≡ some r)
    × (search_tcomm np 0 c v.table ≡ some (r, is_pred))
    × (record v { table = w.table } ≡ w)

-- What msgTreatment does with a message before it gives it to stateMachine.
abbrev pub Noted : Comm → MsgType → Bytes → World → World → Type 0
Noted c train b w v = v ≡ record w {
  counters = record (w.counters) {
    trains_received = u64 (w.counters.trains_received + 1);
    trains_bytes_received = u64 (w.counters.trains_bytes_received + msg_len b);
  };
}
Noted c insert b w v = Known c b true w v
Noted c newsucc b w v = Known c b false w v
Noted c _ b w v = v ≡ w

-- The memory and the state stay.
abbrev Same : World → World → Type 0
Same w v = (v.heap ≡ w.heap) × (v.automaton_state ≡ w.automaton_state)

in_range : (n r : ℕ) → (if ltb n 16 then some n else none) ≡ some r → r < 16
in_range n r e = elim (Bool-cases (ltb n 16)) [
  | inl p ↦ let f : some n ≡ some r = rw p at e in let g : n ≡ r = cc f in ground (arith, p, g)
  | inr p ↦ let f : none ≡ some r = rw p at e in absurd (cc f)
]

addr_to_rank-lt : (ad : Address) (r : ℕ) → addr_to_rank ad ≡ some r → r < 16
unfolding addr_to_rank
addr_to_rank-lt ad r e = in_range _ r e

module _ (c : Comm) (b : Bytes) (d : Bool) (w : World) (new : (j : ℕ) → Absent c (w.table j)) where
  add_entry-Known :
      (r : ℕ) (o : Outcome Entry)
      → addr_to_rank (msg_sender b) ≡ some r
      → r < 16
      → add_entry c (w.table r) d ≡ o
      → Ends
          (λ (_ : Unit {0}) v. Known c b d w v × Same w v)
          (run_then
            (and_then o (λ e. ok (e, w)))
            (λ e. modify (λ v. record v { table = update v.table r e })))
  unfolding modify
  add_entry-Known r (ok e) known small made = ended (
    (
      r,
      known,
      search_tcomm-add_entry np 0 r c w.table e d new made (omega arith) (omega arith),
      refl,
    ),
    (refl, refl),
  )
  add_entry-Known r exited known small made = exits
  add_entry-Known r fault known small made = faults
  add_entry-Known r out_of_fuel known small made = spins

  add_at-Known :
      (o : Option ℕ)
      → addr_to_rank (msg_sender b) ≡ o
      → Ends (λ (_ : Unit {0}) v. Known c b d w v × Same w v) (add_at c d o w)
  unfolding add_at add_tcomm ◌>>=◌ get lift
  add_at-Known none known = faults
  add_at-Known (some r) known =
      add_entry-Known r (add_entry c (w.table r) d) known (addr_to_rank-lt (msg_sender b) r known)
        refl

  add_sender-Known : Ends (λ (_ : Unit {0}) v. Known c b d w v × Same w v) (add_sender c b d w)
  unfolding add_sender
  add_sender-Known = add_at-Known (addr_to_rank (msg_sender b)) refl

on_type-Noted :
    (c : Comm) (t : MsgType) (b : Bytes) (w : World)
    → ((j : ℕ) → Absent c (w.table j))
    → Ends (λ (_ : Unit {0}) v. Noted c t b w v × Same w v) (on_type c t b w)
unfolding on_type count_train modify pure
on_type-Noted c train b w new = ended (refl, (refl, refl))
on_type-Noted c insert b w new = add_sender-Known c b true w new
on_type-Noted c newsucc b w new = add_sender-Known c b false w new
on_type-Noted c _ b w new = ended (refl, (refl, refl))

-- A result with the run that it comes from.
with_run :
    {A : Type 0} {P : A → World → Type 0} {r : Outcome (A × World)}
    → Ends P r
    → Ends (λ a w. (r ≡ ok (a, w)) × P a w) r
with_run (ended p) = ended (refl, p)
with_run exits = exits
with_run faults = faults
with_run spins = spins

-- Whenever a round of msgTreatment returns on an allocated message of a connection that is not in
-- the table yet, it has first counted a TRAIN, or put the connection into the table, where
-- searchTComm finds it at the rank of the sender, as the predecessor's for INSERT and the
-- successor's for NEWSUCC, and changed nothing else; then stateMachine has run on the message
-- from there; the round is the last one exactly for the two DISCONNECTs; and the state before it,
-- the type of the message and the state after it are one of the transitions of the relation Step.
pub treat-Step :
    (env : Env) (c : Comm) (p : Ptr) (m : Womim) (w w' : World) (last : Bool)
    → w.heap p ≡ some m
    → ((j : ℕ) → Absent c (w.table j))
    → treat env c p w ≡ ok (last, w')
    → (v : World) × Noted c (to_msg_type (msg_type m.bytes)) m.bytes w v
      × (state_machine env p v ≡ ok (tt, w'))
      × (last ≡ is_disconnect (msg_type m.bytes))
      × Step w.automaton_state (to_msg_type (msg_type m.bytes)) w'.automaton_state
unfolding treat ◌>>=◌ pure load
treat-Step env c p m w w' last h new r =
    let ends : Ends
        (λ (l : Bool) u.
          (v : World) × Noted c (to_msg_type (msg_type m.bytes)) m.bytes w v
          × (state_machine env p v ≡ ok (tt, u))
          × (l ≡ is_disconnect (msg_type m.bytes))
          × Step w.automaton_state (to_msg_type (msg_type m.bytes)) u.automaton_state)
        (treat env c p w) =
      rw (h, load)
        (bind (on_type-Noted c (to_msg_type (msg_type m.bytes)) m.bytes w new)
          (λ _ v (noted, (heap, state)).
            bind (with_run (state_machine-Steps env p m v (ap (λ k. k p) heap ∙ h)))
              (λ _ u (run, st). ended (v, noted, run, refl, rw (← state) st)))) in
    result_of ends r

-- ===== src/Automaton/Transitions.antt =====
-- stateMachine as a refinement of the transitions.
use protocol_pfe.Base.{ℕ, zero, suc, ◌+◌, ◌≡◌, refl, some, ok}
use protocol_pfe.Memory.{Bytes}
use protocol_pfe.Wagon.{msg_type}
use protocol_pfe.World.{State, Ptr, Womim, World, Env}
use protocol_pfe.World.Run.{◌>>=◌, get, load}
use protocol_pfe.World.Ends
use protocol_pfe.World.Ends.{branch, Ends, ended, exits, faults, spins, bind, mono}
use protocol_pfe.World.Keeps.{Keeps, keeps, >>=-Keeps, pure-Keeps, get-Keeps}
use protocol_pfe.Train.Keeps.{train_handling-Keeps}
use protocol_pfe.Buffer.{free_womim}
use protocol_pfe.Automaton.Keeps.{
  Leads, anyhow, state_of, state_keeps, last-Leads, first-Leads, next_state_alone-Leads,
  next_state_several-Leads,
}
use protocol_pfe.Automaton.Handlers.{
  MsgType, train, insert, disconnect_pred, disconnect_succ, newsucc, to_msg_type,
}
use protocol_pfe.Automaton.Several.{
  send_lts, handle_recent_train, on_train, on_insert, resend_trains, on_newsucc, prec_search,
  reconnect, left_alone, on_disconnect_pred, in_several, in_state, state_machine,
}
use protocol_pfe.Automaton.Step.{
  Step, Steps, of_Leads, of_Keeps, exit-Ends, train_came, inserted, new_succ, lost_the_succ,
  reconnected, left_over, waiting,
}
use protocol_pfe.Automaton.Joining.{
  offline_connection_attempt-Step, offline_confirmation_wait-Step, alone_insert_wait-Step,
  alone_connection_wait-Step,
}

send_lts-Keeps : (id : ℕ) → Keeps state_of (send_lts id)
unfolding send_lts
send_lts-Keeps id = search state_keeps depth 9

handle_recent_train-Keeps :
    (env : Env) (p : Ptr) (b : Bytes) → Keeps state_of (handle_recent_train env p b)
unfolding handle_recent_train
handle_recent_train-Keeps env p b =
    search (state_keeps, train_handling-Keeps, send_lts-Keeps) depth 12

on_train-Keeps : (env : Env) (p : Ptr) (b : Bytes) → Keeps state_of (on_train env p b)
unfolding on_train
on_train-Keeps env p b = search (state_keeps, handle_recent_train-Keeps) depth 12

on_insert-Keeps : (p : Ptr) (b : Bytes) → Keeps state_of (on_insert p b)
unfolding on_insert
on_insert-Keeps p b = search state_keeps depth 12

resend_trains-Keeps : (n i : ℕ) → Keeps state_of (resend_trains n i)
unfolding resend_trains
resend_trains-Keeps zero i = pure-Keeps _
resend_trains-Keeps (suc n) i =
    >>=-Keeps _ _ get-Keeps
      (λ w. >>=-Keeps _ _ (send_lts-Keeps _) (λ _. resend_trains-Keeps n (i + 1)))

on_newsucc-Keeps : (p : Ptr) (b : Bytes) → Keeps state_of (on_newsucc p b)
unfolding on_newsucc
on_newsucc-Keeps p b = search (state_keeps, resend_trains-Keeps) depth 12

left_alone-Leads : (env : Env) (p : Ptr) → Leads (left_alone env p) State.alone_insert_wait
unfolding left_alone
left_alone-Leads env p = search (last-Leads, first-Leads, next_state_alone-Leads, keeps) depth 20

on_disconnect_pred-Step :
    (env : Env) (p : Ptr) (w : World)
    → Steps State.several disconnect_pred (on_disconnect_pred env p w)
unfolding on_disconnect_pred ◌>>=◌ reconnect
on_disconnect_pred-Step env p w = bind (anyhow (prec_search 17 env w)) (λ found v _.
    branch found _ _ v
      (λ _.
        of_Leads (reconnect env p) v reconnected
          (search (last-Leads, next_state_several-Leads) depth 12))
      (λ _. of_Leads (left_alone env p) v left_over (left_alone-Leads env p)))

several-Step :
    (env : Env) (t : MsgType) (p : Ptr) (b : Bytes) (w : World)
    → w.automaton_state ≡ State.several
    → Steps State.several t (in_several env t p b w)
unfolding in_several
several-Step env train p b w e =
    of_Keeps (in_several env train p b) w train_came e (on_train-Keeps env p b)
several-Step env insert p b w e =
    of_Keeps (in_several env insert p b) w inserted e (on_insert-Keeps p b)
several-Step env newsucc p b w e =
    of_Keeps (in_several env newsucc p b) w new_succ e (on_newsucc-Keeps p b)
several-Step env disconnect_succ p b w e =
    of_Keeps (in_several env disconnect_succ p b) w lost_the_succ e (search state_keeps depth 9)
several-Step env disconnect_pred p b w e = on_disconnect_pred-Step env p w
several-Step env _ p b w e = exit-Ends w

in_state-Step :
    (s : State) (env : Env) (t : MsgType) (p : Ptr) (b : Bytes) (w : World)
    → w.automaton_state ≡ s
    → Steps s t (in_state s env t p b w)
unfolding in_state
in_state-Step State.offline_connection_attempt env t p b w e =
    offline_connection_attempt-Step env t p b w e
in_state-Step State.offline_confirmation_wait env t p b w e =
    offline_confirmation_wait-Step env t p b w e
in_state-Step State.wait env t p b w e =
    of_Keeps (free_womim p) w (waiting t) e (search state_keeps)
in_state-Step State.alone_insert_wait env t p b w e = alone_insert_wait-Step env t p b w e
in_state-Step State.alone_connection_wait env t p b w e = alone_connection_wait-Step env t p b w e
in_state-Step State.several env t p b w e = several-Step env t p b w e

pub state_machine-Steps :
    (env : Env) (p : Ptr) (m : Womim) (w : World)
    → w.heap p ≡ some m
    → Steps w.automaton_state (to_msg_type (msg_type m.bytes)) (state_machine env p w)
unfolding state_machine ◌>>=◌ get load
state_machine-Steps env p m w h =
    rw (h, load)
      (in_state-Step w.automaton_state env (to_msg_type (msg_type m.bytes)) p m.bytes w refl)

-- Whenever stateMachine returns on an allocated message, the state before the call, the type of
-- the message and the state after the call are one of the 24 transitions of the relation Step.
pub state_machine-Step :
    (env : Env) (p : Ptr) (m : Womim) (w w' : World)
    → w.heap p ≡ some m
    → state_machine env p w ≡ ok (tt, w')
    → Step w.automaton_state (to_msg_type (msg_type m.bytes)) w'.automaton_state
state_machine-Step env p m w w' h r = Ends.result_of (state_machine-Steps env p m w h) r

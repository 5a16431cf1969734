-- ===== src/Automaton/Joining.antt =====
-- stateMachine outside the state SEVERAL refines the transitions.
use protocol_pfe.Base.{ℕ, zero, suc, ◌+◌, ◌≡◌, refl, ◌∙◌, Option, none, some}
use protocol_pfe.Memory.{Bytes}
use protocol_pfe.World.{State, Ptr, World, Env}
use protocol_pfe.World.Run.{◌>>=◌, ◌>>◌, get, pure}
use protocol_pfe.World.Ends.{branch, ended, bind, mono}
use protocol_pfe.World.Keeps.{
  control, control-Keeps, Keeps, keeps, >>=-Keeps, pure-Keeps, get-Keeps,
}
use protocol_pfe.Buffer.Keeps.{free_womim-Keeps}
use protocol_pfe.Train.Keeps.{train_keeps}
use protocol_pfe.Buffer.{free_womim}
use protocol_pfe.Connect.Keeps.{connect_keeps}
use protocol_pfe.Automaton.Keeps.{
  Leads, state_of, state_keeps, state-Keeps, last-Leads, first-Leads, next_state_alone-Leads,
  next_state_confirmation-Leads, next_state_connection-Leads, next_state_several-Leads,
}
use protocol_pfe.Automaton.Handlers.{
  MsgType, train, insert, ack_insert, nak_insert, disconnect_pred, disconnect_succ, newsucc, refuse,
  in_offline_connection_attempt, in_offline_confirmation_wait, in_alone_insert_wait,
  in_alone_connection_wait, forward_train, keep_wagons, become_member, enter_circuit, launch_trains,
}
use protocol_pfe.Automaton.Step.{
  Steps, of_Leads, of_Keeps, exit-Ends, to_wait, nak, lost_pred, lost_succ, refused, acked,
  overtaken, unconfirmed_pred, unconfirmed_succ, refused_early, not_yet, confirmed,
  second_loss_pred, second_loss_succ, invited, gave_up, refused_busy, joined,
}

pub offline_connection_attempt-Step :
    (env : Env) (t : MsgType) (p : Ptr) (b : Bytes) (w : World)
    → w.automaton_state ≡ State.offline_connection_attempt
    → Steps State.offline_connection_attempt t (in_offline_connection_attempt env t p b w)
unfolding in_offline_connection_attempt refuse
offline_connection_attempt-Step env nak_insert p b w e =
    of_Leads (in_offline_connection_attempt env nak_insert p b) w nak (search to_wait)
offline_connection_attempt-Step env disconnect_pred p b w e =
    of_Leads (in_offline_connection_attempt env disconnect_pred p b) w lost_pred (search to_wait)
offline_connection_attempt-Step env disconnect_succ p b w e =
    of_Leads (in_offline_connection_attempt env disconnect_succ p b) w lost_succ (search to_wait)
offline_connection_attempt-Step env insert p b w e =
    of_Keeps (in_offline_connection_attempt env insert p b) w refused e (search state_keeps depth 9)
offline_connection_attempt-Step env ack_insert p b w e =
    of_Leads (in_offline_connection_attempt env ack_insert p b) w acked
      (search (last-Leads, next_state_confirmation-Leads) depth 12)
offline_connection_attempt-Step env _ p b w e = exit-Ends w

launch_trains-Keeps : (n i : ℕ) → Keeps state_of (launch_trains n i)
unfolding launch_trains
launch_trains-Keeps zero i = pure-Keeps _
launch_trains-Keeps (suc n) i = >>=-Keeps _ _ get-Keeps (λ w.
    >>=-Keeps _ _ (search state_keeps) (λ _.
      >>=-Keeps _ _ get-Keeps
        (λ w'. >>=-Keeps _ _ (search state_keeps) (λ _. launch_trains-Keeps n (i + 1)))))

keep_wagons-Keeps :
    (p : Ptr) (b : Bytes) (id : ℕ) (o : Option ℕ) → Keeps control (keep_wagons p b id o)
unfolding keep_wagons
keep_wagons-Keeps p b id none = search train_keeps
keep_wagons-Keeps p b id (some wag) = search train_keeps depth 9

forward_train-Keeps : (p : Ptr) (b : Bytes) → Keeps control (forward_train p b)
unfolding forward_train
forward_train-Keeps p b = search (train_keeps, connect_keeps, keep_wagons-Keeps) depth 24

become_member-Leads : (env : Env) (b : Bytes) → Leads (become_member env b) State.several
unfolding become_member
become_member-Leads env b = last-Leads _ _ (λ _.
    last-Leads _ _ (λ _.
      last-Leads _ _ (λ _. first-Leads _ _ (next_state_several-Leads env) (λ _. search keeps))))

enter_circuit-Step :
    (env : Env) (b : Bytes) (w : World)
    → w.automaton_state ≡ State.offline_confirmation_wait
    → Steps State.offline_confirmation_wait train (enter_circuit env b w)
unfolding enter_circuit ◌>>=◌ get pure
enter_circuit-Step env b w e =
    branch _ _ _ w (λ _. of_Leads (become_member env b) w confirmed (become_member-Leads env b))
      (λ _. ended (rw e not_yet))

confirmation_train :
    (env : Env) (p : Ptr) (b : Bytes) (w : World)
    → w.automaton_state ≡ State.offline_confirmation_wait
    → Steps State.offline_confirmation_wait train
        ((forward_train p b >> (enter_circuit env b >> free_womim p)) w)
unfolding ◌>>=◌
confirmation_train env p b w e =
    bind ((state-Keeps _ (forward_train-Keeps p b)).run w w refl) (λ _ v f.
      bind (enter_circuit-Step env b v (f ∙ e)) (λ _ v' st.
        mono ((state-Keeps _ (control-Keeps _ (free_womim-Keeps p))).run v' v' refl)
          (λ _ v'' g. rw g st)))

pub offline_confirmation_wait-Step :
    (env : Env) (t : MsgType) (p : Ptr) (b : Bytes) (w : World)
    → w.automaton_state ≡ State.offline_confirmation_wait
    → Steps State.offline_confirmation_wait t (in_offline_confirmation_wait env t p b w)
unfolding in_offline_confirmation_wait refuse
offline_confirmation_wait-Step env newsucc p b w e =
    of_Leads (in_offline_confirmation_wait env newsucc p b) w overtaken (search to_wait)
offline_confirmation_wait-Step env disconnect_pred p b w e =
    of_Leads (in_offline_confirmation_wait env disconnect_pred p b) w unconfirmed_pred
      (search to_wait)
offline_confirmation_wait-Step env disconnect_succ p b w e =
    of_Leads (in_offline_confirmation_wait env disconnect_succ p b) w unconfirmed_succ
      (search to_wait)
offline_confirmation_wait-Step env insert p b w e =
    of_Keeps (in_offline_confirmation_wait env insert p b) w refused_early e
      (search state_keeps depth 9)
offline_confirmation_wait-Step env train p b w e = confirmation_train env p b w e
offline_confirmation_wait-Step env _ p b w e = exit-Ends w

pub alone_insert_wait-Step :
    (env : Env) (t : MsgType) (p : Ptr) (b : Bytes) (w : World)
    → w.automaton_state ≡ State.alone_insert_wait
    → Steps State.alone_insert_wait t (in_alone_insert_wait env t p b w)
unfolding in_alone_insert_wait
alone_insert_wait-Step env disconnect_pred p b w e =
    of_Keeps (in_alone_insert_wait env disconnect_pred p b) w second_loss_pred e
      (search state_keeps)
alone_insert_wait-Step env disconnect_succ p b w e =
    of_Keeps (in_alone_insert_wait env disconnect_succ p b) w second_loss_succ e
      (search state_keeps)
alone_insert_wait-Step env insert p b w e =
    of_Leads (in_alone_insert_wait env insert p b) w invited
      (search (last-Leads, next_state_connection-Leads) depth 12)
alone_insert_wait-Step env _ p b w e = exit-Ends w

pub alone_connection_wait-Step :
    (env : Env) (t : MsgType) (p : Ptr) (b : Bytes) (w : World)
    → w.automaton_state ≡ State.alone_connection_wait
    → Steps State.alone_connection_wait t (in_alone_connection_wait env t p b w)
unfolding in_alone_connection_wait refuse
alone_connection_wait-Step env disconnect_pred p b w e =
    of_Leads (in_alone_connection_wait env disconnect_pred p b) w gave_up
      (first-Leads _ _ (next_state_alone-Leads env) (λ _. search state_keeps))
alone_connection_wait-Step env insert p b w e =
    of_Keeps (in_alone_connection_wait env insert p b) w refused_busy e (search state_keeps depth 9)
alone_connection_wait-Step env newsucc p b w e =
    of_Leads (in_alone_connection_wait env newsucc p b) w joined
      (search (last-Leads, next_state_several-Leads) depth 12)
alone_connection_wait-Step env _ p b w e = exit-Ends w

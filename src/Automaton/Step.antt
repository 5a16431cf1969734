-- ===== src/Automaton/Step.antt =====
-- The transitions of the automaton as a relation.
use protocol_pfe.Base.{◌≡◌, refl, ◌∙◌, Outcome}
use protocol_pfe.World.{State, World}
use protocol_pfe.World.Run.{M, exit}
use protocol_pfe.World.Ends.{Ends, exits, mono}
use protocol_pfe.World.Keeps.{Keeps}
use protocol_pfe.Automaton.Keeps.{
  Leads, anyhow, state_of, state_keeps, state-Keeps, last-Leads, first-Leads, exit-Leads,
  next_state_wait-Leads, next_state_alone-Leads, next_state_confirmation-Leads,
  next_state_connection-Leads, next_state_several-Leads,
}
use protocol_pfe.Automaton.Handlers.{
  MsgType, train, insert, ack_insert, nak_insert, disconnect_pred, disconnect_succ, newsucc,
}

-- The message that each step handles. No other pair of a state and a message is handled.
pub data Step : State → MsgType → State → Type 0 where
  nak : Step State.offline_connection_attempt nak_insert State.wait
  lost_pred : Step State.offline_connection_attempt disconnect_pred State.wait
  lost_succ : Step State.offline_connection_attempt disconnect_succ State.wait
  refused : Step State.offline_connection_attempt insert State.offline_connection_attempt
  acked : Step State.offline_connection_attempt ack_insert State.offline_confirmation_wait
  overtaken : Step State.offline_confirmation_wait newsucc State.wait
  unconfirmed_pred : Step State.offline_confirmation_wait disconnect_pred State.wait
  unconfirmed_succ : Step State.offline_confirmation_wait disconnect_succ State.wait
  refused_early : Step State.offline_confirmation_wait insert State.offline_confirmation_wait
  not_yet : Step State.offline_confirmation_wait train State.offline_confirmation_wait
  confirmed : Step State.offline_confirmation_wait train State.several
  second_loss_pred : Step State.alone_insert_wait disconnect_pred State.alone_insert_wait
  second_loss_succ : Step State.alone_insert_wait disconnect_succ State.alone_insert_wait
  invited : Step State.alone_insert_wait insert State.alone_connection_wait
  gave_up : Step State.alone_connection_wait disconnect_pred State.alone_insert_wait
  refused_busy : Step State.alone_connection_wait insert State.alone_connection_wait
  joined : Step State.alone_connection_wait newsucc State.several
  train_came : Step State.several train State.several
  inserted : Step State.several insert State.several
  new_succ : Step State.several newsucc State.several
  lost_the_succ : Step State.several disconnect_succ State.several
  reconnected : Step State.several disconnect_pred State.several
  left_over : Step State.several disconnect_pred State.alone_insert_wait
  waiting : (t : MsgType) → Step State.wait t State.wait

-- A run leads by a step.
abbrev pub Steps : {A : Type 0} → State → MsgType → Outcome (A × World) → Type 0
Steps s t = Ends (λ _ v. Step s t v.automaton_state)

pub of_Leads :
    {A : Type 0} {s s' : State} {t : MsgType} (m : M A) (w : World)
    → Step s t s'
    → Leads m s'
    → Steps s t (m w)
of_Leads {s} {t} m w st h = mono (h.run w) (λ _ v e. rw e st)

pub of_Keeps :
    {A : Type 0} {s : State} {t : MsgType} (m : M A) (w : World)
    → Step s t s
    → w.automaton_state ≡ s
    → Keeps state_of m
    → Steps s t (m w)
of_Keeps {s} {t} m w st e h = mono (h.run w w refl) (λ _ v f. rw (f ∙ e) st)

pub exit-Ends : {s : State} {t : MsgType} (w : World) → Steps s t (exit {A = Unit {0}} w)
unfolding exit
exit-Ends w = exits

pub ruleset to_wait = (last-Leads, first-Leads, next_state_wait-Leads, exit-Leads)

-- ===== src/Automaton/Keeps.antt =====
-- Which parts of the automaton leave its state as it is, and which lead to a given state.
use protocol_pfe.Base.{◌≡◌, refl, ap, ◌∙◌, Outcome}
use protocol_pfe.World.{State, World, Env}
use protocol_pfe.World.Run.{M, ◌>>=◌, exit, modify}
use protocol_pfe.World.Ends.{Ends, ended, exits, faults, spins, bind, mono}
use protocol_pfe.World.Keeps.{
  Keeps, keeps, control, Control, >>=-Keeps, pure-Keeps, get-Keeps, modify-Keeps, when-Keeps,
}
use protocol_pfe.Connect.Keeps.{connect_keeps}
use protocol_pfe.Train.Keeps.{train_keeps, train_handling-Keeps, deliver-Keeps}
use protocol_pfe.Automaton.{set_state, start_alone, next_state}

abbrev pub state_of : World → State
state_of w = w.automaton_state

pub state-Keeps : {A : Type 0} (m : M A) → Keeps control m → Keeps state_of m
state-Keeps m h = record {
  run = λ u w s. mono (h.run w w refl) (λ a v t. ap (λ (c : Control). c.automaton_state) t ∙ s);
}

-- Whatever the world, a run that ends leaves the automaton in state `s`.
pub record Leads {A : Type 0} (m : M A) (s : State) : Type 0 where
  pub run : (w : World) → Ends (λ _ v. v.automaton_state ≡ s) (m w)

pub anyhow : {A : Type 0} (r : Outcome (A × World)) → Ends (λ _ _. Unit {0}) r
anyhow (Outcome.ok (a, w)) = ended tt
anyhow Outcome.exited = exits
anyhow Outcome.fault = faults
anyhow Outcome.out_of_fuel = spins

module _ {A B : Type 0} {s : State} where
  pub last-Leads : (m : M A) (f : A → M B) → ((a : A) → Leads (f a) s) → Leads (m >>= f) s
  unfolding ◌>>=◌
  last-Leads m f h = record { run = λ w. bind (anyhow (m w)) (λ a v _. (h a).run v) }

  pub first-Leads :
      (m : M A) (f : A → M B) → Leads m s → ((a : A) → Keeps state_of (f a)) → Leads (m >>= f) s
  unfolding ◌>>=◌
  first-Leads m f h k = record {
    run = λ w. bind (h.run w) (λ a v e. mono ((k a).run v v refl) (λ _ v' t. t ∙ e));
  }

pub set_state-Leads : (s : State) → Leads (set_state s) s
unfolding set_state modify
set_state-Leads s = record { run = λ w. ended refl }

pub exit-Leads : {A : Type 0} {s : State} → Leads (exit {A = A}) s
unfolding exit
exit-Leads = record { run = λ w. exits }

pub next_state_wait-Leads : (env : Env) → Leads (next_state env State.wait) State.wait
unfolding next_state
next_state_wait-Leads env = last-Leads _ _ (λ _. set_state-Leads State.wait)

pub next_state_alone-Leads :
    (env : Env) → Leads (next_state env State.alone_insert_wait) State.alone_insert_wait
unfolding next_state
next_state_alone-Leads env = last-Leads _ _ (λ _. set_state-Leads State.alone_insert_wait)

pub next_state_confirmation-Leads :
    (env : Env)
    → Leads (next_state env State.offline_confirmation_wait) State.offline_confirmation_wait
unfolding next_state
next_state_confirmation-Leads env = set_state-Leads _

pub next_state_connection-Leads :
    (env : Env) → Leads (next_state env State.alone_connection_wait) State.alone_connection_wait
unfolding next_state
next_state_connection-Leads env = set_state-Leads _

pub next_state_several-Leads : (env : Env) → Leads (next_state env State.several) State.several
unfolding next_state
next_state_several-Leads env = set_state-Leads _

start_alone-Leads : (env : Env) → Leads (start_alone env) State.alone_insert_wait
unfolding start_alone
start_alone-Leads env = search (last-Leads, first-Leads, set_state-Leads, keeps) depth 20

pub ruleset state_keeps = (keeps, connect_keeps, train_keeps, state-Keeps)

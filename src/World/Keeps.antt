-- ===== src/World/Keeps.antt =====
-- Pieces of code that leave a view of the world as it is. One rule for each construct.
use protocol_pfe.Base.{
  ℕ, ◌≡◌, refl, ap, ◌∙◌, inl, inr, Bool, true, false, Option, none, some, ◌∷◌, Option-cases,
  Outcome,
}
use protocol_pfe.Address.{Address}
use protocol_pfe.World.{State, Ptr, Womim, Action, World, update}
use protocol_pfe.World.Run.{
  M, pure, ◌>>=◌, get, modify, exit, or_exit, or_fault, act, lift, load, store, when◌then◌else◌,
}
use protocol_pfe.World.Ends.{Ends, ended, exits, faults, Kept, kept, bind, mono, of_lift}

pub record Keeps {X : Type 0} (view : World → X) {A : Type 0} (m : M A) : Type 0 where
  pub run : (u w : World) → view w ≡ view u → Ends (λ _ v. view v ≡ view u) (m w)

module _ {X : Type 0} {view : World → X} where
  module _ {A : Type 0} where
    pub pure-Keeps : (a : A) → Keeps view (pure a)
    unfolding pure
    pure-Keeps a = record { run = λ u w s. ended s }

    pub exit-Keeps : Keeps view (exit {A = A})
    unfolding exit
    exit-Keeps = record { run = λ u w s. exits }

    pub or_exit-Keeps : (o : Option A) → Keeps view (or_exit o)
    unfolding or_exit
    or_exit-Keeps none = exit-Keeps
    or_exit-Keeps (some a) = pure-Keeps a

    pub or_fault-Keeps : (o : Option A) → Keeps view (or_fault o)
    unfolding or_fault
    or_fault-Keeps none = record { run = λ u w s. faults }
    or_fault-Keeps (some a) = pure-Keeps a

    pub lift-Keeps : (r : Outcome A) → Keeps view (lift r)
    lift-Keeps r = record { run = λ u w s. of_lift r w (λ a. s) }

    pub when-Keeps :
        (b : Bool) (m n : M A) → Keeps view m → Keeps view n → Keeps view (when b then m else n)
    unfolding when◌then◌else◌
    when-Keeps true m n h k = h
    when-Keeps false m n h k = k

    pub >>=-Keeps :
        {B : Type 0} (m : M A) (f : A → M B)
        → Keeps view m
        → ((a : A) → Keeps view (f a))
        → Keeps view (m >>= f)
    unfolding ◌>>=◌
    >>=-Keeps m f h k = record { run = λ u w s. bind (h.run u w s) (λ a v t. (k a).run u v t) }

  pub get-Keeps : Keeps view get
  unfolding get
  get-Keeps = record { run = λ u w s. ended s }

  pub modify-Keeps :
      (f : World → World) → ((w : World) → view (f w) ≡ view w) → Keeps view (modify f)
  unfolding modify
  modify-Keeps f h = record { run = λ u w s. ended (h w ∙ s) }

  pub act-Keeps :
      (a : Action)
      → ((w : World) → view (record w { actions = a ∷ w.actions }) ≡ view w)
      → Keeps view (act a)
  unfolding act
  act-Keeps a h = record { run = λ u w s. ended (h w ∙ s) }

  pub load-Keeps : (p : Ptr) → Keeps view (load p)
  unfolding load
  load-Keeps p = record {
    run = λ u w s. elim (Option-cases (w.heap p)) [
      | inl e ↦ rw (e, load) faults
      | inr (m, e) ↦ rw (e, load) (ended s)
    ];
  }

  pub store-Keeps :
      (p : Ptr) (c : Option Womim)
      → ((w : World) → view (record w { heap = update w.heap p c }) ≡ view w)
      → Keeps view (store p c)
  unfolding store
  store-Keeps p c h = record { run = λ u w s. ended (h w ∙ s) }

pub ruleset keeps = (
  pure-Keeps, exit-Keeps, or_exit-Keeps, or_fault-Keeps, lift-Keeps, when-Keeps, >>=-Keeps,
  get-Keeps, modify-Keeps, act-Keeps, load-Keeps, store-Keeps,
)

-- The variables that the automaton itself sets.
pub record Control : Type 0 where
  pub automaton_state : State
  pub my_address : Address
  pub prec : Address
  pub succ : Address
  pub wait_nb : ℕ
  pub lis : ℕ
  pub ntr : ℕ
  pub wagon_max_len : ℕ

abbrev pub control_of : Kept → Control
control_of k = record {
  automaton_state = k.automaton_state;
  my_address = k.my_address;
  prec = k.prec;
  succ = k.succ;
  wait_nb = k.wait_nb;
  lis = k.lis;
  ntr = k.ntr;
  wagon_max_len = k.wagon_max_len;
}

abbrev pub control : World → Control
control w = control_of (kept w)

pub control-Keeps : {A : Type 0} (m : M A) → Keeps kept m → Keeps control m
control-Keeps m h = record { run = λ u w s. mono (h.run w w refl) (λ a v t. ap control_of t ∙ s) }

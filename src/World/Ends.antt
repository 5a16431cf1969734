-- ===== src/World/Ends.antt =====
-- What holds whenever a piece of code ends with a result. `Ends P r`: if the run `r` gives a
-- result, it satisfies P. `Same`: only the memory, the connections, wagonToSend, the counters and
-- the actions may have changed.
use protocol_pfe.Base.{
  ℕ, ◌≡◌, refl, subst, Bool, true, false, List, Outcome, ok, exited, fault, out_of_fuel,
  if◌then◌else◌,
}
use protocol_pfe.Address.{Address, AddressSet}
use protocol_pfe.World.{State, Wiw, Lts, World}
use protocol_pfe.World.Run.{when◌then◌else◌, M, run_then, lift}

pub data Ends {A : Type 0} (P : A → World → Type 0) : Outcome (A × World) → Type 0 where
  ended : {a : A} {w : World} → P a w → Ends P (ok (a, w))
  exits : Ends P exited
  faults : Ends P fault
  spins : Ends P out_of_fuel

module _ {A : Type 0} {P : A → World → Type 0} where
  pub bind :
      {B : Type 0} {Q : B → World → Type 0} {r : Outcome (A × World)} {k : A → M B}
      → Ends P r
      → ((a : A) (w : World) → P a w → Ends Q (k a w))
      → Ends Q (run_then r k)
  bind (ended p) next = next _ _ p
  bind exits next = exits
  bind faults next = faults
  bind spins next = spins

  pub mono :
      {Q : A → World → Type 0} {r : Outcome (A × World)}
      → Ends P r
      → ((a : A) (w : World) → P a w → Q a w)
      → Ends Q r
  mono (ended p) weaken = ended (weaken _ _ p)
  mono exits weaken = exits
  mono faults weaken = faults
  mono spins weaken = spins

  pub of_lift : (r : Outcome A) (w : World) → ((a : A) → P a w) → Ends P (lift r w)
  unfolding lift
  of_lift (ok a) w h = ended (h a)
  of_lift exited w h = exits
  of_lift fault w h = faults
  of_lift out_of_fuel w h = spins

  pub branch :
      (b : Bool) (m n : M A) (w : World)
      → (b ≡ true → Ends P (m w))
      → (b ≡ false → Ends P (n w))
      → Ends P ((when b then m else n) w)
  unfolding when◌then◌else◌
  branch true m n w h k = h refl
  branch false m n w h k = k refl

  -- The result of a run that ends.
  pub result : {a : A} {w : World} → Ends P (ok (a, w)) → P a w
  result (ended p) = p

  pub result_of : {r : Outcome (A × World)} {a : A} {w : World} → Ends P r → r ≡ ok (a, w) → P a w
  result_of h e = result (subst (Ends P) e h)

-- What is kept.
pub record Kept : Type 0 where
  pub automaton_state : State
  pub my_address : Address
  pub prec : Address
  pub succ : Address
  pub came_proc : AddressSet
  pub gone_proc : AddressSet
  pub wait_nb : ℕ
  pub lis : ℕ
  pub lts : ℕ → Lts
  pub unstable_wagons : ℕ → ℕ → List Wiw
  pub wagons_to_deliver : List Wiw
  pub ntr : ℕ
  pub wagon_max_len : ℕ

abbrev pub kept : World → Kept
kept w = record {
  automaton_state = w.automaton_state;
  my_address = w.my_address;
  prec = w.prec;
  succ = w.succ;
  came_proc = w.came_proc;
  gone_proc = w.gone_proc;
  wait_nb = w.wait_nb;
  lis = w.lis;
  lts = w.lts;
  unstable_wagons = w.unstable_wagons;
  wagons_to_deliver = w.wagons_to_deliver;
  ntr = w.ntr;
  wagon_max_len = w.wagon_max_len;
}

abbrev pub Same : World → World → Type 0
Same u w = kept w ≡ kept u

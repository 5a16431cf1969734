-- ===== src/World/Halts.antt =====
-- What holds of a piece of code that does not run out of fuel. `Halts P r`: the run `r` ends, and
-- if it gives a result, the result satisfies P.
use protocol_pfe.Base.{◌≡◌, ◌≢◌, refl, Bool, true, false, Outcome, ok, exited, fault, out_of_fuel}
use protocol_pfe.World.{World}
use protocol_pfe.World.Run.{M, run_then, when◌then◌else◌}
use protocol_pfe.World.Ends.{Ends, ended, exits, faults, spins}

pub data Halts {A : Type 0} (P : A → World → Type 0) : Outcome (A × World) → Type 0 where
  returns : {a : A} {w : World} → P a w → Halts P (ok (a, w))
  stops : Halts P exited
  breaks : Halts P fault

module _ {A : Type 0} {P : A → World → Type 0} where
  pub Halts-bind :
      {B : Type 0} {Q : B → World → Type 0} {r : Outcome (A × World)} {k : A → M B}
      → Halts P r
      → ((a : A) (w : World) → P a w → Halts Q (k a w))
      → Halts Q (run_then r k)
  Halts-bind (returns p) next = next _ _ p
  Halts-bind stops next = stops
  Halts-bind breaks next = breaks

  pub Halts-Ends : {r : Outcome (A × World)} → Ends P r → r ≢ out_of_fuel → Halts P r
  Halts-Ends (ended p) h = returns p
  Halts-Ends exits h = stops
  Halts-Ends faults h = breaks
  Halts-Ends spins h = absurd (h refl)

  pub Halts-when :
      (b : Bool) (m n : M A) (w : World)
      → (b ≡ true → Halts P (m w))
      → (b ≡ false → Halts P (n w))
      → Halts P ((when b then m else n) w)
  unfolding when◌then◌else◌
  Halts-when true m n w h k = h refl
  Halts-when false m n w h k = k refl

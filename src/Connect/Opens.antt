-- ===== src/Connect/Opens.antt =====
-- openConnection has no loop.
use protocol_pfe.Base.{
  ℕ, ◌≡◌, ◌≢◌, refl, Option, none, some, Bool, Outcome, ok, exited, fault, out_of_fuel, arith,
}
use protocol_pfe.Address.{Address, addr_to_rank}
use protocol_pfe.World.{Comm, Entry, World, Env}
use protocol_pfe.World.Run.{◌>>=◌, get, modify, act, lift, pure, or_exit, exit}
use protocol_pfe.World.Ends.{kept}
use protocol_pfe.World.Halts.{Halts, returns, stops, breaks, Halts-bind, Halts-Ends, Halts-when}
use protocol_pfe.Table.{add_entry}
use protocol_pfe.Connect.{add_tcomm, connected, open_connection}
use protocol_pfe.Connect.Keeps.{open_connection-Keeps}

abbrev Any : {A : Type 0} → A → World → Type 0
Any a w = Unit

lift-Halts : {A : Type 0} (r : Outcome A) (w : World) → r ≢ out_of_fuel → Halts Any (lift r w)
unfolding lift
lift-Halts (ok a) w h = returns tt
lift-Halts exited w h = stops
lift-Halts fault w h = breaks
lift-Halts out_of_fuel w h = absurd (h refl)

add_entry_ends : (c : Comm) (e : Entry) (d : Bool) → add_entry c e d ≢ out_of_fuel
unfolding add_entry
add_entry_ends c e d = ground arith

connected-Halts :
    (ad : Address) (r : ℕ) (d : Bool) (o : Option Comm) (w : World)
    → Halts Any (connected ad r d o w)
unfolding connected add_tcomm ◌>>=◌ get modify act pure
connected-Halts ad r d none w = returns tt
connected-Halts ad r d (some c) w =
    Halts-bind {P = Any}
      (Halts-bind (lift-Halts (add_entry c (w.table r) d) w (add_entry_ends c (w.table r) d))
        (λ e v _. returns tt))
      (λ _ v _. returns tt)

or_exit-Halts : {A : Type 0} (o : Option A) (w : World) → Halts Any (or_exit o w)
unfolding or_exit pure exit
or_exit-Halts none w = stops
or_exit-Halts (some a) w = returns tt

dials-Halts :
    (env : Env) (ad : Address) (d : Bool) (w : World) → Halts Any (open_connection env ad d w)
unfolding open_connection ◌>>=◌ get modify pure
dials-Halts env ad d w = Halts-bind (or_exit-Halts (addr_to_rank ad) w) (λ r v _.
    Halts-when _ _ _ v (λ _. connected-Halts ad r d (env.dial v.dials) _) (λ _. returns tt))

not_spinning : {A : Type 0} {r : Outcome (A × World)} → Halts Any r → r ≢ out_of_fuel
not_spinning (returns p) = λ e. ground arith
not_spinning stops = λ e. ground arith
not_spinning breaks = λ e. ground arith

pub open_connection-Halts :
    (env : Env) (ad : Address) (d : Bool) (w : World)
    → Halts (λ _ v. kept v ≡ kept w) (open_connection env ad d w)
open_connection-Halts env ad d w =
    Halts-Ends ((open_connection-Keeps env ad d).run w w refl)
      (not_spinning (dials-Halts env ad d w))

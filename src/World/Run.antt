-- ===== src/World/Run.antt =====
-- Pieces of C code as functions of the world.
use protocol_pfe.Base.{
  Bool, true, false, Option, none, some, ◌∷◌, Outcome, ok, exited, fault, out_of_fuel, and_then,
}
use protocol_pfe.World.{Ptr, Womim, Action, World, update}

abbrev pub M : Type 0 → Type 0
M A = World → Outcome (A × World)

unfoldable pub pure : {A : Type 0} → A → M A
pure a w = ok (a, w)

-- The rest of a run.
abbrev pub run_then : {A B : Type 0} → Outcome (A × World) → (A → M B) → Outcome (B × World)
run_then (ok (a, w)) k = k a w
run_then exited k = exited
run_then fault k = fault
run_then out_of_fuel k = out_of_fuel

infixl 5 ◌>>=◌ ◌>>◌
unfoldable pub ◌>>=◌ : {A B : Type 0} → M A → (A → M B) → M B
m >>= f = λ w. run_then (m w) f

abbrev pub ◌>>◌ : {B : Type 0} → M (Unit {0}) → M B → M B
m >> k = m >>= λ _. k

unfoldable pub get : M World
get w = ok (w, w)

unfoldable pub modify : (World → World) → M (Unit {0})
modify f w = ok (tt, f w)

-- error_at_line(EXIT_FAILURE, ...), a failed `assert`, `abort`.
unfoldable pub exit : {A : Type 0} → M A
exit w = exited

unfoldable pub act : Action → M (Unit {0})
act a w = ok (tt, record w { actions = a ∷ w.actions })

unfoldable pub lift : {A : Type 0} → Outcome A → M A
lift r w = and_then r (λ a. ok (a, w))

-- `*p`: a fault where no block is allocated at `p`.
unfoldable pub load : Ptr → M Womim
load p w = elim (w.heap p) [ none ↦ fault | some m ↦ ok (m, w) ]

-- Fills the block at `p` anew, or frees it.
unfoldable pub store : Ptr → Option Womim → M (Unit {0})
store p c w = ok (tt, record w { heap = update w.heap p c })

-- `if (b) m else n`, kept as a call so that a lemma can be applied to it.
infix 1 when◌then◌else◌
unfoldable pub when◌then◌else◌ : {A : Type 0} → Bool → M A → M A → M A
when true then m else n = m
when false then m else n = n

-- The value, or the end of the process where there is none.
unfoldable pub or_exit : {A : Type 0} → Option A → M A
or_exit none = exit
or_exit (some a) = pure a

-- The value, or a fault where there is none: a read through NULL.
unfoldable pub or_fault : {A : Type 0} → Option A → M A
or_fault none = λ _. fault
or_fault (some a) = pure a

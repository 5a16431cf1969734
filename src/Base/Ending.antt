-- ===== src/Base/Ending.antt =====
-- How a piece of the C code ends.

-- `exited`: `error_at_line(EXIT_FAILURE, ...)`, `assert`, `abort` or `exit` has ended the process.
-- `fault`: undefined behaviour, such as a write past the end of a buffer or a use after `free`.
-- `out_of_fuel`: a loop has not ended within the rounds that the model gives it.
use mathlib.Core.Path.{◌≡◌, refl, subst}

pub data Outcome {ℓ} (A : Type ℓ) : Type ℓ where
  ok : A → Outcome A
  exited : Outcome A
  fault : Outcome A
  out_of_fuel : Outcome A

abbrev pub and_then {ℓ κ} : {A : Type ℓ} {B : Type κ} → Outcome A → (A → Outcome B) → Outcome B
and_then (ok a) k = k a
and_then exited k = exited
and_then fault k = fault
and_then out_of_fuel k = out_of_fuel

-- What holds of the result of a call, however it has been found.
pub ok_same :
    {A : Type 0} (P : A → Type 0) (r : Outcome A) (a b : A) → r ≡ ok a → r ≡ ok b → P a → P b
ok_same P r a b e f h = let same : a ≡ b = cc (e, f) in subst P same h

-- A chain that returns has come through its first call.
pub and_then-ok :
    {A B : Type 0} (r : Outcome A) (k : A → Outcome B) (b : B)
    → and_then r k ≡ ok b
    → (a : A) × (r ≡ ok a) × (k a ≡ ok b)
and_then-ok (ok a) k b e = (a, refl, e)
and_then-ok exited k b e = absurd (cc e)
and_then-ok fault k b e = absurd (cc e)
and_then-ok out_of_fuel k b e = absurd (cc e)

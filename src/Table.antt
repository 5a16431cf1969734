-- ===== src/Table.antt =====
-- The connections kept in globalAddrArray: addTComm, getTComm, removeTComm and searchTComm of
-- src/management_addr.c.
pub mod Laws
pub mod Tests
use protocol_pfe.Base.{
  ℕ, zero, suc, ◌+◌, Bool, true, false, Option, none, some, ◌&&◌, ◌==◌, if◌then◌else◌, Outcome, ok,
  exited,
}
use protocol_pfe.World.{Comm, Entry, update}

abbrev pub bool_eq : Bool → Bool → Bool
bool_eq true b = b
bool_eq false true = false
bool_eq false false = true

-- `slot == tcomm`, for a tcomm that is not NULL.
abbrev pub holds : Option Comm → Comm → Bool
holds none c = false
holds (some d) c = d == c

-- `array[i]` after addTComm, which aborts where both places are taken.
unfoldable pub add_entry : Comm → Entry → Bool → Outcome Entry
add_entry tcomm e is_pred = elim e.tcomm0 [
  | none ↦ ok (record e { tcomm0 = some tcomm; is_pred0 = is_pred })
  | some _ ↦ elim e.tcomm1 [
    | none ↦ ok (record e { tcomm1 = some tcomm; is_pred1 = is_pred })
    | some _ ↦ exited
  ]
]

unfoldable pub get_entry : Bool → Entry → Option Comm
get_entry is_pred e = elim e.tcomm0 [
  | some c ↦ if bool_eq e.is_pred0 is_pred then some c else second e.tcomm1
  | none ↦ second e.tcomm1
]
  where
    second : Option Comm → Option Comm
    second none = none
    second (some c) = if bool_eq e.is_pred1 is_pred then some c else none

unfoldable pub remove_entry : Comm → Entry → Entry
remove_entry tcomm e =
    if holds e.tcomm0 tcomm
    then record e { tcomm0 = none }
    else if holds e.tcomm1 tcomm
    then record e { tcomm1 = none }
    else e

-- The `for` of searchTComm from rank `i` on, with `n` ranks to go: the rank and the direction of
-- the first place that holds `tcomm`, or `none` for the rank -1.
unfoldable pub search_tcomm : ℕ → ℕ → Comm → (ℕ → Entry) → Option (ℕ × Bool)
search_tcomm zero i tcomm table = none
search_tcomm (suc n) i tcomm table =
    let e = table i in
    let rest = search_tcomm n (i + 1) tcomm table in
    if holds e.tcomm0 tcomm
    then some (i, e.is_pred0)
    else if holds e.tcomm1 tcomm
    then some (i, e.is_pred1)
    else rest

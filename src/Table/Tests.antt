-- ===== src/Table/Tests.antt =====
-- The theorems on globalAddrArray at concrete entries.
use protocol_pfe.Base.{◌≡◌, refl, none, some, true, false, ok, arith}
use protocol_pfe.World.{Entry, update}
use protocol_pfe.World.Samples.{no_entry}
use protocol_pfe.Table.{add_entry, get_entry, search_tcomm}
use protocol_pfe.Table.Laws.{search_tcomm-add_entry}

-- Connection 9 with the predecessor.
abbrev one_entry : Entry
one_entry = record no_entry { tcomm0 = some 9; is_pred0 = true }

abbrev two_entries : Entry
two_entries = record one_entry { tcomm1 = some 5; is_pred1 = false }

no_successor : get_entry false one_entry ≡ none
unfolding get_entry
no_successor = refl

added : add_entry 5 one_entry false ≡ ok two_entries
unfolding add_entry
added = refl

first_added : add_entry 9 no_entry true ≡ ok one_entry
unfolding add_entry
first_added = refl

search_tcomm-add_entry_example :
    search_tcomm 16 0 9 (update (λ r. no_entry) 3 one_entry) ≡ some (3, true)
search_tcomm-add_entry_example =
    search_tcomm-add_entry 16 0 3 9 (λ r. no_entry) one_entry true (λ j. (refl, refl)) first_added
      (omega arith) (omega arith)

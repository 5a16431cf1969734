-- ===== src/Table/Laws.antt =====
-- Each place of the array serves one connection with the predecessor and one with the successor.
use protocol_pfe.Base.{
  ℕ, zero, suc, ◌+◌, ◌≤◌, ◌<◌, ◌≡◌, refl, Bool, false, not, none, some, ok, arith,
}
use protocol_pfe.World.{Comm, Entry, update}
use protocol_pfe.Table.{holds, add_entry, get_entry, remove_entry, search_tcomm}

-- Where getTComm finds no connection of a direction, after a successful addTComm it finds the
-- added connection under that direction, and under the other direction what it found before.
pub get_entry-add_entry :
    (c : Comm) (e e' : Entry) (d : Bool)
    → get_entry d e ≡ none
    → add_entry c e d ≡ ok e'
    → (get_entry d e' ≡ some c) × (get_entry (not d) e' ≡ get_entry (not d) e)
unfolding get_entry add_entry
get_entry-add_entry c e e' d h k = ground arith

-- Where a connection is in neither place of an entry, a successful addTComm of it followed by
-- removeTComm leaves what getTComm finds under each direction.
pub get_entry-remove_entry :
    (c : Comm) (e e' : Entry) (d b : Bool)
    → holds e.tcomm0 c ≡ false
    → holds e.tcomm1 c ≡ false
    → add_entry c e d ≡ ok e'
    → get_entry b (remove_entry c e') ≡ get_entry b e
unfolding get_entry add_entry remove_entry
get_entry-remove_entry c e e' d b h k l = ground arith

abbrev pub Absent : Comm → Entry → Type 0
Absent c e = (holds e.tcomm0 c ≡ false) × (holds e.tcomm1 c ≡ false)

-- A connection that is at no rank and is then added at one of the ranks searched is found by
-- searchTComm at that rank with its direction.
pub search_tcomm-add_entry :
    (n i r : ℕ) (c : Comm) (table : ℕ → Entry) (e : Entry) (d : Bool)
    → ((j : ℕ) → Absent c (table j))
    → add_entry c (table r) d ≡ ok e
    → i ≤ r
    → r < i + n
    → search_tcomm n i c (update table r e) ≡ some (r, d)
unfolding search_tcomm add_entry
search_tcomm-add_entry zero i r c table e d abs h p q = absurd (omega arith)
search_tcomm-add_entry (suc n) i r c table e d abs h p q =
    ground (arith, abs i, abs r, search_tcomm-add_entry n (i + 1) r c table e d abs h)

-- A connection that is at no rank is not found.
pub search_tcomm-Absent :
    (n i : ℕ) (c : Comm) (table : ℕ → Entry)
    → ((j : ℕ) → Absent c (table j))
    → search_tcomm n i c table ≡ none
unfolding search_tcomm
search_tcomm-Absent zero i c table abs = refl
search_tcomm-Absent (suc n) i c table abs =
    ground (arith, abs i, search_tcomm-Absent n (i + 1) c table abs)

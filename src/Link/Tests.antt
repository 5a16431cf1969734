-- ===== src/Link/Tests.antt =====
-- A read in three parts.
use protocol_pfe.Base.{[], ◌∷◌, ◌≡◌, refl, true, none, some, ok, false}
use protocol_pfe.Link.{Link, moves, interrupted, gathered, comm_writev}
use protocol_pfe.Link.Writev.{moved, Sent, comm_writev-again}

-- Five bytes have come, and they are handed over in parts, with an interruption.
abbrev in_parts : Link
in_parts = record {
  aborted = false;
  input = 1 ∷ 2 ∷ 3 ∷ 4 ∷ 5 ∷ [];
  output = [];
  turns = moves 1 ∷ interrupted false ∷ moves 0 ∷ moves 9 ∷ moves 0 ∷ [];
  reads = 0;
  read_bytes = 0;
  full_reads = 0;
  full_read_bytes = 0;
  writes = 0;
  written_bytes = 0;
  writevs = 0;
  writev_bytes = 0;
}

-- An aborted connection, with a first call of `write` that moves two bytes.
abbrev aborted : Link
aborted = record in_parts { aborted = true }

comm_writev-again_example :
    (l1 : Link) × (l2 : Link) × (comm_writev ((7 ∷ 8 ∷ []) ∷ (9 ∷ []) ∷ []) aborted ≡ ok (none, l1))
    × (l1.output ≡ [])
    × (comm_writev ((7 ∷ 8 ∷ []) ∷ (9 ∷ []) ∷ []) l1 ≡ ok (some 2, l2))
    × Sent
        (gathered ((7 ∷ 8 ∷ []) ∷ (9 ∷ []) ∷ []))
        (some 2)
        false
        (interrupted false ∷ moves 0 ∷ moves 9 ∷ moves 0 ∷ [])
        aborted
        l2
unfolding gathered
comm_writev-again_example =
    comm_writev-again ((7 ∷ 8 ∷ []) ∷ (9 ∷ []) ∷ []) _ aborted (some 2) false refl moved

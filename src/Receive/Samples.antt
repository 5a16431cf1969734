-- ===== src/Receive/Samples.antt =====
-- Messages on concrete connections.
use protocol_pfe.Base.{ℕ, ◌≡◌, refl, false, some, List, [], ◌∷◌, ◌++◌, ok, arith}
use protocol_pfe.World.{Womim}
use protocol_pfe.World.Samples.{empty_lts}
use protocol_pfe.Link.{moves, interrupted, Link}
use protocol_pfe.Link.Fully.{Calm}
use protocol_pfe.Connect.{new_msg, msg_bytes, train_header}
use protocol_pfe.Receive.{read_message}
use protocol_pfe.Receive.Frames.{Message, Train, read-new_msg, read-train_header}

-- The bytes of one message and the first of the next, read in pieces.
abbrev link_of : List ℕ → Link
link_of xs = record {
  aborted = false;
  input = xs ++ 7 ∷ [];
  output = [];
  turns =
      moves 2
      ∷ interrupted false
      ∷ moves 0
      ∷ moves 9
      ∷ moves 0
      ∷ moves 5
      ∷ moves 1
      ∷ moves 0
      ∷ moves 3
      ∷ moves 3
      ∷ moves 3
      ∷ moves 3
      ∷ moves 3
      ∷ moves 3
      ∷ [];
  reads = 0;
  read_bytes = 0;
  full_reads = 0;
  full_read_bytes = 0;
  writes = 0;
  written_bytes = 0;
  writevs = 0;
  writev_bytes = 0;
}

abbrev inserting : Link
inserting = link_of (msg_bytes (new_msg 2 8))

read-new_msg_example :
    (l' : Link) × (m : Womim) × (read_message inserting ≡ ok (some m, l'))
    × Message 2 8 m
    × (l'.input ≡ 7 ∷ [])
    × (l'.aborted ≡ false)
    × Calm 6 l'.turns
read-new_msg_example =
    read-new_msg 2 8 (7 ∷ []) 6 inserting (omega arith) (omega arith) (omega arith) refl tt refl

-- A train with one byte of wagons.
abbrev training : Link
training = link_of (train_header empty_lts 11 ++ 9 ∷ [])

read-train_header_example :
    (l' : Link) × (m : Womim) × (read_message training ≡ ok (some m, l'))
    × Train empty_lts (9 ∷ []) m
    × (l'.input ≡ 7 ∷ [])
    × (l'.aborted ≡ false)
    × Calm 2 l'.turns
unfolding train_header
read-train_header_example =
    read-train_header empty_lts (9 ∷ []) (7 ∷ []) 2 training
      (record { id = omega arith; lc = omega arith; round = omega arith; circuit = omega arith })
      (omega arith) refl tt refl

-- ===== src/Receive.antt =====
-- receive of src/iomsg.c, and the two threads of a connection in src/connect.c: connectionMgt, which
-- receives, and msgTreatment, which handles what was received, by a queue between them.
pub mod Steps
pub mod Wire
pub mod Frames
pub mod Samples
pub mod Tests
use protocol_pfe.Base.{
  ℕ, zero, suc, ◌+◌, ◌-◌, ◌*◌, ◌^◌, Bool, true, false, Option, none, some, List, [], ◌∷◌, length,
  ltb, ◌||◌, ◌==◌, if◌then◌else◌, Outcome, ok, exited, fault, out_of_fuel, and_then,
}
use protocol_pfe.Address.{Address, np, addr_to_rank, rank_to_addr}
use protocol_pfe.Memory.{Bytes, put32}
use protocol_pfe.Wagon.{msg_len, msg_type, msg_sender, disconnect_pred_type, disconnect_succ_type}
use protocol_pfe.World.{u64, Ptr, Womim, Comm, World, Env}
use protocol_pfe.World.Run.{
  M, pure, ◌>>=◌, ◌>>◌, get, modify, exit, or_exit, lift, load, store, when◌then◌else◌,
}
use protocol_pfe.Table.{search_tcomm}
use protocol_pfe.Link.{Link, comm_read_fully}
use protocol_pfe.Connect.{add_tcomm, close_connection, new_msg, msg_bytes}
use protocol_pfe.Automaton.Handlers.{
  MsgType, train, insert, newsucc, disconnect_pred, disconnect_succ, to_msg_type,
}
use protocol_pfe.Automaton.Several.{state_machine}

-- The bytes of a list, and zero after it: calloc.
unfoldable pub zeroed : List ℕ → Bytes
zeroed [] o = 0
zeroed (x ∷ xs) zero = x
zeroed (x ∷ xs) (suc o) = zeroed xs o

-- Little-endian.
unfoldable pub number_of : List ℕ → ℕ
number_of [] = 0
number_of (x ∷ xs) = x + 256 * number_of xs

-- The block of a message whose bytes after the length are given.
unfoldable pub received : ℕ → List ℕ → Womim
received len xs = record {
  counter = 1;
  size = len;
  bytes = put32 (zeroed (0 ∷ 0 ∷ 0 ∷ 0 ∷ xs)) 0 len;
}

-- The second read and what is made of it: `none` where the connection has been closed. A length
-- below 4 makes the block smaller than the length that is stored in it; a negative one, that is
-- 2 ^ 31 or more, makes calloc fail.
unfoldable pub read_body : ℕ → Link → Outcome (Option Womim × Link)
read_body len l =
    let body = and_then (comm_read_fully (len - 4) l) (λ r. ok (whole r)) in
    if ltb len 4 then fault else if ltb len (2 ^ 31) then body else exited
  where
    whole : Option (List ℕ) × Link → Option Womim × Link
    whole (none, l') = (none, l')
    whole (some xs, l') = (if length xs == len - 4 then some (received len xs) else none, l')

unfoldable pub read_head : Option (List ℕ) × Link → Outcome (Option Womim × Link)
unfolding read_body number_of
read_head (none, l) = ok (none, l)
read_head (some xs, l) =
    let body = read_body (number_of xs) l in if length xs == 4 then body else ok (none, l)

-- Up to the comment `Connection has been closed`.
unfoldable pub read_message : Link → Outcome (Option Womim × Link)
read_message l = and_then (comm_read_fully 4 l) read_head

-- A block for a message is allocated and filled, or what happens where calloc returns NULL.
unfoldable pub allocate : Env → M Ptr → Womim → M Ptr
allocate env failed m = do
  w ← get
  let p = env.malloc w.allocations
  modify (λ v. record v { allocations = v.allocations + 1 })
  when p == 0 then failed else do store p (some m); pure p

-- A closed connection is announced by a message of its own, unless it is in globalAddrArray no more.
unfoldable pub announce : Env → Option (ℕ × Bool) → M (Option Ptr)
announce env none = pure none
announce env (some (j, is_pred)) = do
  let typ = if is_pred then disconnect_pred_type else disconnect_succ_type
  let xs = msg_bytes (new_msg typ (rank_to_addr j))
  p ← allocate env (λ _. fault) (record { counter = 1; size = length xs; bytes = zeroed xs })
  close_connection (rank_to_addr j) is_pred
  pure (some p)

unfoldable pub receive_from : Env → Comm → Option Womim → M (Option Ptr)
receive_from env c none = do w ← get; announce env (search_tcomm np 0 c w.table)
receive_from env c (some m) = do p ← allocate env exit m; pure (some p)

unfoldable pub receive : Env → Comm → Link → M (Option Ptr × Link)
receive env c l = do (r, l') ← lift (read_message l); p ← receive_from env c r; pure (p, l')

unfoldable pub is_disconnect : ℕ → Bool
is_disconnect t = t == disconnect_pred_type || t == disconnect_succ_type

-- The condition of the `do ... while` of connectionMgt.
unfoldable pub goes_on : Option Ptr → M Bool
goes_on none = pure false
goes_on (some p) = do m ← load p; pure (if is_disconnect (msg_type m.bytes) then false else true)

-- The loop of connectionMgt, on fuel: what it puts into the queue.
unfoldable pub connection_mgt : ℕ → Env → Comm → Link → M (List (Option Ptr))
connection_mgt zero env c l = λ _. out_of_fuel
connection_mgt (suc fuel) env c l = do
  (p, l') ← receive env c l
  more ← goes_on p
  when more then (connection_mgt fuel env c l' >>= λ rest. pure (p ∷ rest)) else pure (p ∷ [])

unfoldable pub count_train : Bytes → M (Unit {0})
count_train b = modify (λ w. record w {
  counters = record (w.counters) {
    trains_received = u64 (w.counters.trains_received + 1);
    trains_bytes_received = u64 (w.counters.trains_bytes_received + msg_len b);
  };
})

-- The `switch` of msgTreatment. For a sender that is no address, addTComm would be called with the
-- rank -1, outside the array.
unfoldable pub add_at : Comm → Bool → Option ℕ → M (Unit {0})
add_at c is_pred none = λ _. fault
add_at c is_pred (some r) = add_tcomm c r is_pred

unfoldable pub add_sender : Comm → Bytes → Bool → M (Unit {0})
add_sender c b is_pred = add_at c is_pred (addr_to_rank (msg_sender b))

unfoldable pub on_type : Comm → MsgType → Bytes → M (Unit {0})
on_type c train b = count_train b
on_type c insert b = add_sender c b true
on_type c newsucc b = add_sender c b false
on_type c _ b = pure tt

-- One round of msgTreatment: whether it is the last.
unfoldable pub treat : Env → Comm → Ptr → M Bool
treat env c p = do
  m ← load p
  on_type c (to_msg_type (msg_type m.bytes)) m.bytes
  state_machine env p
  pure (is_disconnect (msg_type m.bytes))

-- The messages in the order of the queue: `true` where the thread has ended, `false` where it
-- waits for the next one.
unfoldable pub msg_treatment : Env → Comm → List (Option Ptr) → M Bool
msg_treatment env c [] = pure false
msg_treatment env c (none ∷ rest) = pure true
msg_treatment env c (some p ∷ rest) = do
  last ← treat env c p
  when last then pure true else msg_treatment env c rest

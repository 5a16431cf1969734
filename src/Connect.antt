-- ===== src/Connect.antt =====
-- openConnection, closeConnection and searchSucc of src/connect.c, newMsg of src/msg.c,
-- sendOther and sendTrain of src/iomsg.c.
pub mod Keeps
pub mod Opens
use protocol_pfe.Base.{
  ltb, length, ◌-◌, ◌^◌, ℕ, zero, suc, ◌+◌, ◌/◌, ◌%◌, Bool, true, false, Option, none, some, List,
  [], ◌∷◌, ◌++◌, ◌==◌, if◌then◌else◌, Outcome, ok, exited, fault, out_of_fuel,
}
use protocol_pfe.Address.{Address, np, addr_to_rank, rank_to_addr}
use protocol_pfe.Memory.{Bytes}
use protocol_pfe.Wagon.{wagon_len, first_msg, train_header_size, default_type, train_type}
use protocol_pfe.World.{Comm, Wiw, Lts, World, Env, opened, closed, sent, update}
use protocol_pfe.World.Run.{
  when◌then◌else◌, M, pure, ◌>>=◌, ◌>>◌, get, modify, exit, or_exit, or_fault, act, lift, load,
}
use protocol_pfe.Table.{add_entry, get_entry, remove_entry}

-- addTComm(tcomm, rank, globalAddrArray, isPred)
unfoldable pub add_tcomm : Comm → ℕ → Bool → M (Unit {0})
add_tcomm c rank is_pred = do
  w ← get
  e ← lift (add_entry c (w.table rank) is_pred)
  modify (λ v. record v { table = update v.table rank e })

unfoldable pub connected : Address → ℕ → Bool → Option Comm → M Bool
connected addr rank is_pred none = pure false
connected addr rank is_pred (some c) = do
  add_tcomm c rank is_pred
  act (opened c addr is_pred)
  pure true

-- `true` for the result 1, `false` for -1. The thread that reads the connection is started.
unfoldable pub open_connection : Env → Address → Bool → M Bool
open_connection env addr is_pred = do
  rank ← or_exit (addr_to_rank addr)
  w ← get
  when (w.table rank).named
      then (do
        modify (λ v. record v { dials = v.dials + 1 })
        connected addr rank is_pred (env.dial w.dials))
      else pure false

disconnected : ℕ → Option Comm → M (Unit {0})
disconnected rank none = pure tt
disconnected rank (some c) = do
  modify (λ v. record v { table = update v.table rank (remove_entry c (v.table rank)) })
  act (closed c)

unfoldable pub close_connection : Address → Bool → M (Unit {0})
unfolding disconnected
close_connection addr is_pred = do
  rank ← or_exit (addr_to_rank addr)
  w ← get
  disconnected rank (get_entry is_pred (w.table rank))

-- The `while` of searchSucc from rank `i` on, on fuel; `result` is myAddress.
unfoldable pub succ_loop : ℕ → Env → ℕ → ℕ → Address → M Address
succ_loop zero env i rank result = λ _. out_of_fuel
succ_loop (suc fuel) env i rank result = when i == rank then pure result else do
  got ← open_connection env (rank_to_addr i) false
  when got then pure (rank_to_addr i) else succ_loop fuel env ((i + 1) % np) rank result

unfoldable pub search_succ : Env → Address → M Address
unfolding succ_loop
search_succ env ad = do
  rank ← or_exit (addr_to_rank ad)
  w ← get
  succ_loop np env ((rank + 1) % np) rank w.my_address

-- A Msg as newMsg makes it: a `def` with its problem_id, or a body with a sender.
pub data Body : Type 0 where
  def : ℕ → Body
  sender : Address → Body

pub record Msg : Type 0 where
  pub len : ℕ
  pub type : ℕ
  pub body : Body

-- sizeof(Msg)
abbrev pub msg_size : ℕ
msg_size = 13

unfoldable pub init_msg : Msg
init_msg = record { len = msg_size; type = default_type; body = def 0 }

-- A problem_id of -1 is the pattern 2 ^ 32 - 1.
unfoldable pub new_msg : ℕ → Address → Msg
unfolding init_msg
new_msg type ad =
    if type == default_type
    then init_msg
    else if type == train_type
    then record init_msg { body = def 1 }
    else if ltb type 8
    then record { len = 7; type = type; body = sender ad }
    else record init_msg { body = def (2 ^ 32 - 1) }

unfoldable pub bytes_of : ℕ → ℕ → List ℕ
bytes_of zero v = []
bytes_of (suc n) v = (v % 256) ∷ bytes_of n (v / 256)

-- The `len` bytes that are written of a Msg. The body of a `def` has 4 bytes that are not set,
-- taken for 0 here; no caller sends one.
unfoldable pub msg_bytes : Msg → List ℕ
unfolding bytes_of
msg_bytes m =
    bytes_of 4 m.len
    ++ (m.type % 256)
      ∷ elim m.body [ def id ↦ bytes_of 4 id ++ bytes_of 4 0 | sender ad ↦ bytes_of 2 ad ]

send_on : Option Comm → List ℕ → M Bool
send_on none bytes = pure false
send_on (some c) bytes = do act (sent c bytes); pure true

-- `false` where there is no connection to send on.
unfoldable pub send_other : Address → Bool → ℕ → Address → M Bool
unfolding send_on msg_bytes
send_other addr is_pred type ad = when type == train_type then exit else do
  rank ← or_exit (addr_to_rank addr)
  w ← get
  send_on (get_entry is_pred (w.table rank)) (msg_bytes (new_msg type ad))

-- The bytes of a block from an offset on.
unfoldable pub read_bytes : Bytes → ℕ → ℕ → List ℕ
read_bytes b o zero = []
read_bytes b o (suc n) = b o ∷ read_bytes b (o + 1) n

-- iov[1]: `w.len` bytes from the first wagon that is passed on.
unfoldable pub passed_on : Lts → M (List ℕ)
passed_on l =
    when l.w_len == 0
    then pure []
    else do ww ← or_fault l.w_w; m ← load ww.womim; pure (read_bytes m.bytes ww.wagon l.w_len)

-- iov[2]: the wagon of this process, unless it is just a header.
wagon_bytes : Option Wiw → M (List ℕ)
wagon_bytes none = pure []
wagon_bytes (some ww) = do
  m ← load ww.womim
  pure (elim (first_msg m.bytes ww.wagon) [
    | none ↦ []
    | some _ ↦ read_bytes m.bytes ww.wagon (wagon_len m.bytes ww.wagon)
  ])

unfoldable pub own_wagon : Lts → M (List ℕ)
unfolding wagon_bytes
own_wagon l = wagon_bytes l.p_wtosend

-- iov[0]: the first fields of the ltsStruct, `lng` being the length of the three parts.
unfoldable pub train_header : Lts → ℕ → List ℕ
unfolding bytes_of
train_header l lng =
    bytes_of 4 lng
    ++ train_type
      ∷ (l.stamp_id % 256)
      ∷ (l.stamp_lc % 256)
      ∷ (l.stamp_round % 256)
      ∷ bytes_of 2 l.circuit

send_parts : Option Comm → Lts → M Bool
send_parts none l = pure false
send_parts (some c) l = do
  w1 ← passed_on l
  w2 ← own_wagon l
  act (sent c (train_header l (train_header_size + length w1 + length w2) ++ (w1 ++ w2)))
  pure true

unfoldable pub send_train : Address → Bool → Lts → M Bool
unfolding send_parts train_header
send_train addr is_pred l = do
  rank ← or_exit (addr_to_rank addr)
  w ← get
  send_parts (get_entry is_pred (w.table rank)) l

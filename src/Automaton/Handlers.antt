-- ===== src/Automaton/Handlers.antt =====
-- stateMachine of src/stateMachine.c: one function for each state, by the type of the message.
use protocol_pfe.Base.{
  ℕ, zero, suc, ◌+◌, ◌-◌, ◌%◌, true, false, Option, none, some, ◌==◌, if◌then◌else◌, bit_or,
}
use protocol_pfe.Address.{Address, addr_is_member}
use protocol_pfe.Memory.{Bytes, put8}
use protocol_pfe.Wagon.{
  first_wagon, msg_len, msg_sender, train_id, train_lc, train_round, train_circuit,
  train_header_size, ack_insert_type, nak_insert_type, newsucc_type,
}
use protocol_pfe.World.{State, Ptr, Env, init_done}
use protocol_pfe.World.Run.{
  when◌then◌else◌, M, pure, ◌>>=◌, ◌>>◌, get, modify, exit, act, lift, load, store,
}
use protocol_pfe.Stamp.{is_in_lts}
use protocol_pfe.Buffer.{retain, free_womim, release_wiw}
use protocol_pfe.Broadcast.{signal_arrival}
use protocol_pfe.Connect.{open_connection, send_other, send_train}
use protocol_pfe.Train.{on_lts}
use protocol_pfe.Automaton.{next_state}

-- MType; any other value is `unknown`.
pub data MsgType : Type 0 where
  default : MsgType
  train : MsgType
  insert : MsgType
  ack_insert : MsgType
  nak_insert : MsgType
  disconnect_pred : MsgType
  disconnect_succ : MsgType
  newsucc : MsgType
  unknown : MsgType

unfoldable pub to_msg_type : ℕ → MsgType
to_msg_type n =
    if n == 0
    then default
    else if n == 1
    then train
    else if n == 2
    then insert
    else if n == 3
    then ack_insert
    else if n == 4
    then nak_insert
    else if n == 5
    then disconnect_pred
    else if n == 6
    then disconnect_succ
    else if n == 7
    then newsucc
    else unknown

-- sendOther(sender, true, NAK_INSERT, myAddress)
unfoldable pub refuse : Address → M (Unit {0})
refuse sender = do w ← get; _ ← send_other sender true nak_insert_type w.my_address; pure tt

unfoldable pub in_offline_connection_attempt : Env → MsgType → Ptr → Bytes → M (Unit {0})
in_offline_connection_attempt env nak_insert p b = do free_womim p; next_state env State.wait
in_offline_connection_attempt env disconnect_pred p b = do free_womim p; next_state env State.wait
in_offline_connection_attempt env disconnect_succ p b = do free_womim p; next_state env State.wait
in_offline_connection_attempt env insert p b = do
  modify (λ w. record w { prec = msg_sender b })
  refuse (msg_sender b)
  free_womim p
in_offline_connection_attempt env ack_insert p b = do
  modify (λ w. record w { prec = msg_sender b })
  _ ← open_connection env (msg_sender b) true
  w ← get
  _ ← send_other (msg_sender b) true newsucc_type w.my_address
  free_womim p
  next_state env State.offline_confirmation_wait
in_offline_connection_attempt env _ p b = exit

-- The train's bytes after `stamp.lc++`, made where this process is in the circuit.
unfoldable pub tick_train : Address → Bytes → Bytes
tick_train my_address b =
    if addr_is_member my_address (train_circuit b) then put8 b 6 (train_lc b + 1) else b

-- The train becomes the last train sent; its wagons are passed on as they are.
unfoldable pub keep_wagons : Ptr → Bytes → ℕ → Option ℕ → M (Unit {0})
keep_wagons p b id none = pure tt
keep_wagons p b id (some wag) = do
  on_lts id (λ l. record l {
    w_w = some (record { womim = p; wagon = wag });
    w_len = msg_len b - train_header_size;
  })
  retain p

unfoldable pub forward_train : Ptr → Bytes → M (Unit {0})
forward_train p b = do
  let id = train_id b
  w ← get
  m ← load p
  let b' = tick_train w.my_address b
  store p (some (record m { bytes = b' }))
  release_wiw (w.lts id).w_w
  on_lts id (λ l. record l { w_w = none; w_len = 0 })
  first ← lift (first_wagon b')
  keep_wagons p b' id first
  on_lts id (λ l. record l {
    circuit = train_circuit b';
    stamp_id = train_id b';
    stamp_lc = train_lc b';
    stamp_round = train_round b';
  })
  w' ← get
  _ ← send_train w'.succ false (w'.lts id)
  pure tt

unfoldable pub become_member : Env → Bytes → M (Unit {0})
become_member env b = do
  modify (λ v. record v { lis = train_id b })
  w ← get
  signal_arrival w.my_address (w.lts w.lis).circuit
  next_state env State.several
  act init_done

-- `if (isInLts(myAddress, lts))`
unfoldable pub enter_circuit : Env → Bytes → M (Unit {0})
enter_circuit env b = do
  w ← get
  when is_in_lts w.ntr w.my_address w.lts then become_member env b else pure tt

unfoldable pub in_offline_confirmation_wait : Env → MsgType → Ptr → Bytes → M (Unit {0})
in_offline_confirmation_wait env newsucc p b = do free_womim p; next_state env State.wait
in_offline_confirmation_wait env disconnect_pred p b = do free_womim p; next_state env State.wait
in_offline_confirmation_wait env disconnect_succ p b = do free_womim p; next_state env State.wait
in_offline_confirmation_wait env insert p b = do refuse (msg_sender b); free_womim p
in_offline_confirmation_wait env train p b = do forward_train p b; enter_circuit env b; free_womim p
in_offline_confirmation_wait env _ p b = exit

unfoldable pub in_alone_insert_wait : Env → MsgType → Ptr → Bytes → M (Unit {0})
in_alone_insert_wait env disconnect_pred p b = free_womim p
in_alone_insert_wait env disconnect_succ p b = free_womim p
in_alone_insert_wait env insert p b = do
  w ← get
  _ ← send_other (msg_sender b) true ack_insert_type w.my_address
  modify (λ v. record v { prec = msg_sender b })
  free_womim p
  next_state env State.alone_connection_wait
in_alone_insert_wait env _ p b = exit

-- The trains are sent for the first time, in their order after `lis`.
unfoldable pub launch_trains : ℕ → ℕ → M (Unit {0})
launch_trains zero i = pure tt
launch_trains (suc n) i = do
  w ← get
  let id = (w.lis + i) % w.ntr
  on_lts id (λ l. record l {
    stamp_lc = (l.stamp_lc + 1) % 256;
    circuit = bit_or w.my_address w.prec;
    w_w = none;
    w_len = 0;
  })
  w' ← get
  _ ← send_train w'.succ false (w'.lts id)
  launch_trains n (i + 1)

unfoldable pub in_alone_connection_wait : Env → MsgType → Ptr → Bytes → M (Unit {0})
in_alone_connection_wait env disconnect_pred p b = do
  next_state env State.alone_insert_wait
  free_womim p
in_alone_connection_wait env insert p b = do refuse (msg_sender b); free_womim p
in_alone_connection_wait env newsucc p b = do
  modify (λ w. record w { succ = msg_sender b })
  w ← get
  launch_trains w.ntr 1
  free_womim p
  next_state env State.several
in_alone_connection_wait env _ p b = exit

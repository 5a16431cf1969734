-- ===== src/Automaton/Several.antt =====
-- stateMachine of src/stateMachine.c in the state SEVERAL, and the `switch` over the states.
use protocol_pfe.Base.{ℕ, zero, suc, ◌+◌, ◌%◌, Bool, true, false, ◌==◌, if◌then◌else◌, out_of_fuel}
use protocol_pfe.Address.{
  np, addr_is_member, addr_is_equal, addr_append_arrived, addr_append_gone, addr_prec,
}
use protocol_pfe.Memory.{Bytes}
use protocol_pfe.Wagon.{
  msg_type, msg_sender, train_id, train_lc, train_circuit, ack_insert_type, newsucc_type,
}
use protocol_pfe.World.{State, Ptr, Env, flow_signal}
use protocol_pfe.World.Run.{
  when◌then◌else◌, M, pure, ◌>>=◌, ◌>>◌, get, modify, exit, act, lift, load,
}
use protocol_pfe.Stamp.{is_recent_train}
use protocol_pfe.Buffer.{free_womim}
use protocol_pfe.Broadcast.{enqueue, renew_wagon_to_send, signal_departures}
use protocol_pfe.Connect.{open_connection, close_connection, send_other, send_train}
use protocol_pfe.Train.{nr, deliver, train_handling}
use protocol_pfe.Automaton.{next_state}
use protocol_pfe.Automaton.Handlers.{
  MsgType, train, insert, disconnect_pred, disconnect_succ, newsucc, to_msg_type,
  in_offline_connection_attempt, in_offline_confirmation_wait, in_alone_insert_wait,
  in_alone_connection_wait,
}

-- sendTrain(succ, false, lts[id])
unfoldable pub send_lts : ℕ → M (Unit {0})
send_lts id = do w ← get; _ ← send_train w.succ false (w.lts id); pure tt

unfoldable pub handle_recent_train : Env → Ptr → Bytes → M (Unit {0})
handle_recent_train env p b = do
  train_handling env p b
  modify (λ w. record w { lis = train_id b })
  w ← get
  when w.succ == 0 then pure tt else send_lts (train_id b)

unfoldable pub on_train : Env → Ptr → Bytes → M (Unit {0})
on_train env p b = do
  w ← get
  (when addr_is_member w.my_address (train_circuit b)
      then when is_recent_train w.ntr (train_id b) (train_lc b) w.lts w.lis
        then handle_recent_train env p b
        else pure tt
      else exit)
  free_womim p

unfoldable pub on_insert : Ptr → Bytes → M (Unit {0})
on_insert p b = do
  w ← get
  close_connection w.prec true
  _ ← send_other (msg_sender b) true ack_insert_type w.prec
  modify (λ v. record v {
    prec = msg_sender b;
    came_proc = addr_append_arrived v.came_proc (msg_sender b);
  })
  free_womim p

-- All the trains are sent again, in their order after `lis`.
unfoldable pub resend_trains : ℕ → ℕ → M (Unit {0})
resend_trains zero i = pure tt
resend_trains (suc n) i = do w ← get; send_lts ((w.lis + i) % w.ntr); resend_trains n (i + 1)

unfoldable pub on_newsucc : Ptr → Bytes → M (Unit {0})
on_newsucc p b = do
  w ← get
  when w.succ == 0 then pure tt else close_connection w.succ false
  modify (λ v. record v { succ = msg_sender b })
  resend_trains w.ntr 1
  free_womim p

-- The process `prec` is taken for gone, and the one before it in the circuit becomes `prec`.
unfoldable pub lose_prec : M (Unit {0})
lose_prec = do
  w ← get
  let sets = addr_append_gone w.came_proc w.gone_proc w.prec
  q ← lift (addr_prec w.prec (w.lts w.lis).circuit)
  modify (λ v. record v { came_proc = sets.0; gone_proc = sets.1; prec = q })

-- The `while` that looks for a predecessor, on fuel: `true` where one has been connected to.
unfoldable pub prec_search : ℕ → Env → M Bool
prec_search zero env = λ _. out_of_fuel
prec_search (suc fuel) env = do
  w ← get
  when addr_is_equal w.prec w.my_address then pure false else do
    got ← open_connection env w.prec true
    when got then pure true else do lose_prec; prec_search fuel env

-- The inner `for`, over the trains after `lis`.
unfoldable pub flush_round : ℕ → ℕ → ℕ → M (Unit {0})
flush_round zero i a_round = pure tt
flush_round (suc n) i a_round = do
  w ← get
  let id = (w.lis + i) % w.ntr
  deliver id (((w.lts id).stamp_round + a_round) % nr)
  flush_round n (i + 1) a_round

-- What is left when no other process answers: all wagons are delivered, the oldest round first.
unfoldable pub left_alone : Env → Ptr → M (Unit {0})
left_alone env p = do
  w ← get
  signal_departures w.gone_proc (w.lts w.lis).circuit
  modify (λ v. record v { gone_proc = 0 })
  flush_round w.ntr 1 1
  flush_round w.ntr 1 2
  flush_round w.ntr 1 3
  w' ← get
  enqueue w'.wagon_to_send
  renew_wagon_to_send env
  free_womim p
  next_state env State.alone_insert_wait
  act flow_signal

unfoldable pub reconnect : Env → Ptr → M (Unit {0})
reconnect env p = do
  w ← get
  _ ← send_other w.prec true newsucc_type w.my_address
  free_womim p
  next_state env State.several

-- Each round steps back over a member of the circuit, so NP + 1 rounds are enough where this
-- process is in the circuit.
unfoldable pub on_disconnect_pred : Env → Ptr → M (Unit {0})
on_disconnect_pred env p = do
  found ← prec_search (np + 1) env
  when found then reconnect env p else left_alone env p

unfoldable pub in_several : Env → MsgType → Ptr → Bytes → M (Unit {0})
in_several env train p b = on_train env p b
in_several env insert p b = on_insert p b
in_several env newsucc p b = on_newsucc p b
in_several env disconnect_pred p b = on_disconnect_pred env p
in_several env disconnect_succ p b = do modify (λ w. record w { succ = 0 }); free_womim p
in_several env _ p b = exit

unfoldable pub in_state : State → Env → MsgType → Ptr → Bytes → M (Unit {0})
in_state State.offline_connection_attempt env t p b = in_offline_connection_attempt env t p b
in_state State.offline_confirmation_wait env t p b = in_offline_confirmation_wait env t p b
in_state State.wait env t p b = free_womim p
in_state State.alone_insert_wait env t p b = in_alone_insert_wait env t p b
in_state State.alone_connection_wait env t p b = in_alone_connection_wait env t p b
in_state State.several env t p b = in_several env t p b

unfoldable pub state_machine : Env → Ptr → M (Unit {0})
state_machine env p = do
  w ← get
  m ← load p
  in_state w.automaton_state env (to_msg_type (msg_type m.bytes)) p m.bytes

-- ===== src/Automaton.antt =====
-- The automaton of src/stateMachine.c: automatonInit, offlineInit, waitBeforeConnect,
-- sleepTreatment, nextState and stateMachine. A call of stateMachine holds stateMachineMutex from
-- end to end, so it is one step.
pub mod Keeps
pub mod Handlers
pub mod Several
pub mod Step
pub mod Joining
pub mod Transitions
pub mod Repeats
pub mod Search
pub mod Tests
use protocol_pfe.Base.{
  ℕ, ◌+◌, ◌-◌, ◌*◌, ◌%◌, ◌^◌, Bool, true, false, Option, none, some, List, [], ◌∷◌, not, ltb, leb,
  ◌==◌, if◌then◌else◌,
}
use protocol_pfe.Address.{Address, null_address, addr_is_equal}
use protocol_pfe.Wagon.{insert_type}
use protocol_pfe.World.{State, Wiw, Lts, World, Env, accepting, slept, init_done, update, max_ntr}
use protocol_pfe.World.Run.{when◌then◌else◌, M, pure, ◌>>=◌, ◌>>◌, get, modify, exit, or_fault, act}
use protocol_pfe.Buffer.{new_wiw}
use protocol_pfe.Broadcast.{enqueue, renew_wagon_to_send, signal_arrival}
use protocol_pfe.Connect.{close_connection, search_succ, send_other}

unfoldable pub set_state : State → M (Unit {0})
set_state s = modify (λ w. record w { automaton_state = s })

-- participate(true) listens for connections, participate(false) stops it.
unfoldable pub participate : Bool → M (Unit {0})
participate b = act (accepting b)

-- What offlineInit does where no other process answers.
unfoldable pub start_alone : Env → M (Unit {0})
start_alone env = do
  w ← get
  signal_arrival w.my_address w.my_address
  w' ← get
  enqueue w'.wagon_to_send
  renew_wagon_to_send env
  set_state State.alone_insert_wait
  act init_done
  modify (λ v. record v { prec = v.my_address })

unfoldable pub offline_init : Env → M (Unit {0})
offline_init env = do
  participate true
  w ← get
  s ← search_succ env w.my_address
  modify (λ v. record v { succ = s })
  when addr_is_equal s w.my_address then start_alone env else do
    _ ← send_other s false insert_type w.my_address
    set_state State.offline_connection_attempt

-- The n-th sleep is the one with waitNb = n.
unfoldable pub rand_sleep : Env → ℕ → ℕ → ℕ
rand_sleep env n maxms = env.rand n % maxms

-- What the sleeping thread does when it wakes up.
unfoldable pub sleep_treatment : Env → M (Unit {0})
sleep_treatment env = do modify (λ w. record w { wait_nb = w.wait_nb + 1 }); offline_init env

-- closeConnection(prec, true); prec = 0; if prec is not 0, and so for succ.
unfoldable pub leave_prec : M (Unit {0})
leave_prec = do
  w ← get
  when w.prec == 0
      then pure tt
      else do close_connection w.prec true; modify (λ v. record v { prec = 0 })

unfoldable pub leave_succ : M (Unit {0})
leave_succ = do
  w ← get
  when w.succ == 0
      then pure tt
      else do close_connection w.succ false; modify (λ v. record v { succ = 0 })

-- The thread of sleepTreatment is started with its time to sleep.
unfoldable pub wait_before_connect : Env → M (Unit {0})
wait_before_connect env = do
  w ← get
  when ltb w.wait_nb_max w.wait_nb then exit else do
    participate false
    leave_prec
    leave_succ
    act (slept (rand_sleep env w.wait_nb (2 ^ w.wait_nb * w.wait_default_time * 1000)))

unfoldable pub next_state : Env → State → M (Unit {0})
next_state env State.offline_connection_attempt = offline_init env
next_state env State.offline_confirmation_wait = set_state State.offline_confirmation_wait
next_state env State.wait = do wait_before_connect env; set_state State.wait
next_state env State.alone_insert_wait = do
  modify (λ w. record w { prec = w.my_address; succ = w.my_address })
  set_state State.alone_insert_wait
next_state env State.alone_connection_wait = set_state State.alone_connection_wait
next_state env State.several = set_state State.several

abbrev pub initial_lts : ℕ → Lts
initial_lts id = record {
  stamp_id = id;
  stamp_lc = 0;
  stamp_round = 0;
  circuit = 0;
  w_w = none;
  w_len = 0;
  p_wtosend = none;
}

-- newBqueue() is the empty queue, newList() the empty list. With more than MAX_NTR trains, memory
-- behind the arrays is written.
unfoldable pub automaton_init : Env → M (Unit {0})
automaton_init env = do
  w ← get
  or_fault (if leb w.ntr max_ntr then some tt else none)
  modify (λ w. record w {
    lis = w.ntr - 1;
    lts = λ id. if ltb id w.ntr then initial_lts id else w.lts id;
    unstable_wagons = λ id round. if ltb id w.ntr then [] else w.unstable_wagons id round;
    came_proc = 0;
    gone_proc = 0;
  })
  renew_wagon_to_send env
  modify (λ w. record w { wagons_to_deliver = []; prec = 0; succ = 0 })
  next_state env State.offline_connection_attempt

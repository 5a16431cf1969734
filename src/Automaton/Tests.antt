-- ===== src/Automaton/Tests.antt =====
-- A step of the automaton.
use protocol_pfe.Base.{◌+◌, [], ◌∷◌, true, arith, ◌≡◌, sym, refl, ok}
use protocol_pfe.Address.{np, rank_to_addr, addr_is_member}
use protocol_pfe.World.Halts.{Halts}
use protocol_pfe.Automaton.Search.{Left, prec_search_lem}
use protocol_pfe.Memory.{get16}
use protocol_pfe.Automaton.Repeats.{on_train_twice}
use protocol_pfe.Wagon.{msg_type, train_id, train_lc, train_circuit}
use protocol_pfe.World.{Womim, World, State}
use protocol_pfe.World.Samples.{empty_lts, womim_of, world_of, env, end_of}
use protocol_pfe.World.Run.{◌>>=◌, get, modify, load, store, pure}
use protocol_pfe.Buffer.{free_womim}
use protocol_pfe.Automaton.{next_state, set_state}
use protocol_pfe.Automaton.Handlers.{to_msg_type, in_alone_connection_wait}
use protocol_pfe.Automaton.Several.{prec_search, on_train, in_state, state_machine}
use protocol_pfe.Automaton.Step.{Step}
use protocol_pfe.Automaton.Transitions.{state_machine-Step}

-- DISCONNECT_PRED from process 0.
abbrev disconnection : Womim
disconnection = womim_of (7 ∷ 0 ∷ 0 ∷ 0 ∷ 5 ∷ 1 ∷ 0 ∷ [])

abbrev before : World
before = world_of State.alone_connection_wait disconnection

abbrev after : World
after = end_of (state_machine env 1 before) before

handled : state_machine env 1 before ≡ ok (tt, after)
unfolding state_machine in_state in_alone_connection_wait next_state set_state free_womim ◌>>=◌ get
    modify load store pure to_msg_type msg_type
handled = refl

state_machine-Step_example :
    Step State.alone_connection_wait
      (to_msg_type (msg_type disconnection.bytes))
      after.automaton_state
state_machine-Step_example = state_machine-Step env 1 disconnection before after refl handled

-- Train 0 with the clock 9, after it has been handled: the clock of its last lap is 10.
abbrev train : Womim
train = womim_of (10 ∷ 0 ∷ 0 ∷ 0 ∷ 1 ∷ 0 ∷ 9 ∷ 0 ∷ 7 ∷ 0 ∷ [])

abbrev after_lap : World
after_lap = record (world_of State.several train) { lts = λ id. record empty_lts { stamp_lc = 10 } }

on_board : addr_is_member 2 (train_circuit train.bytes) ≡ true
unfolding addr_is_member train_circuit get16
on_board = refl

stamp : (train_id train.bytes ≡ 0) × (train_lc train.bytes ≡ 9)
unfolding train_id train_lc
stamp = (refl, refl)

on_train_twice_example : on_train env 1 train.bytes after_lap ≡ free_womim 1 after_lap
on_train_twice_example =
    on_train_twice env 1 train.bytes after_lap on_board (sym stamp.0) (rw stamp.0 (omega arith))
      (rw stamp.1 (omega arith)) (rw stamp.1 refl)

rank_zero : 1 ≡ rank_to_addr 0
unfolding rank_to_addr
rank_zero = refl

rank_one : 2 ≡ rank_to_addr 1
unfolding rank_to_addr
rank_one = refl

own_member : addr_is_member 2 7 ≡ true
unfolding addr_is_member
own_member = refl

prec_search_example : Halts Left (prec_search (np + 1) env (world_of State.several disconnection))
prec_search_example =
    prec_search_lem env (world_of State.several disconnection) 0 1 (omega arith) (omega arith)
      rank_zero rank_one own_member

-- ===== src/Receive/Tests.antt =====
-- A message of a connection that is not known yet.
use protocol_pfe.Base.{[], ◌∷◌, ◌≡◌, refl, ok, false}
use protocol_pfe.Memory.{get16}
use protocol_pfe.Wagon.{msg_type, msg_sender}
use protocol_pfe.Address.{addr_to_rank, rank_loop, rank_to_addr}
use protocol_pfe.World.Run.{
  ◌>>=◌, get, modify, load, store, pure, lift, or_exit, or_fault, act, when◌then◌else◌,
}
use protocol_pfe.Table.{add_entry, get_entry}
use protocol_pfe.Buffer.{free_womim}
use protocol_pfe.Connect.{add_tcomm, send_other, new_msg, msg_bytes, bytes_of, init_msg}
use protocol_pfe.World.{Womim, World, State}
use protocol_pfe.World.Samples.{womim_of, world_of, env, end_of}
use protocol_pfe.Automaton.Handlers.{to_msg_type, refuse, in_alone_connection_wait}
use protocol_pfe.Automaton.Several.{in_state, state_machine}
use protocol_pfe.Automaton.Step.{Step}
use protocol_pfe.Receive.{treat, on_type, add_sender, add_at, is_disconnect}
use protocol_pfe.Receive.Steps.{Noted, treat-Step}

-- INSERT from process 3.
abbrev insertion : Womim
insertion = womim_of (7 ∷ 0 ∷ 0 ∷ 0 ∷ 2 ∷ 8 ∷ 0 ∷ [])

abbrev before : World
before = world_of State.alone_connection_wait insertion

abbrev after : World
after = end_of (treat env 9 1 before) before

treated : treat env 9 1 before ≡ ok (false, after)
unfolding treat ◌>>=◌ load on_type to_msg_type msg_type add_sender add_at addr_to_rank rank_loop
    msg_sender get16 add_tcomm get lift add_entry modify state_machine in_state
    in_alone_connection_wait refuse send_other get_entry or_exit or_fault act pure free_womim store
    is_disconnect new_msg msg_bytes bytes_of when◌then◌else◌ init_msg rank_to_addr
treated = refl

treat-Step_example :
    (v : World) × Noted 9 (to_msg_type (msg_type insertion.bytes)) insertion.bytes before v
    × (state_machine env 1 v ≡ ok (tt, after))
    × (false ≡ is_disconnect (msg_type insertion.bytes))
    × Step State.alone_connection_wait
        (to_msg_type (msg_type insertion.bytes))
        after.automaton_state
treat-Step_example =
    treat-Step env 9 1 insertion before after false refl (λ j. (refl, refl)) treated

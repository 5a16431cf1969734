-- ===== src/Startup/Init.antt =====
-- trInit of a process that no other answers.
use protocol_pfe.Base.{ℕ, ◌-◌, ◌≡◌, true, some, [], ◌∷◌, if◌then◌else◌, ltb}
use protocol_pfe.Address.{rank_to_addr}
use protocol_pfe.Wagon.{wagon_len}
use protocol_pfe.World.{Womim, State, World, Env, init_done, accepting}
use protocol_pfe.Hosts.{Hosts}
use protocol_pfe.Broadcast.{am_arrival}
use protocol_pfe.Automaton.{initial_lts}
use protocol_pfe.Deliver.Signal.{Signalled}
use protocol_pfe.Startup.{Params, positive}

-- The first assignments of automatonInit.
abbrev begun : World → World
begun w = record w {
  lis = w.ntr - 1;
  lts = λ id. if ltb id w.ntr then initial_lts id else w.lts id;
  unstable_wagons = λ id round. if ltb id w.ntr then [] else w.unstable_wagons id round;
  came_proc = 0;
  gone_proc = 0;
}

-- A process that has started alone at the rank `r`.
pub record Started (env : Env) (ps : Params) (r : ℕ) (w v : World) : Type 0 where
  pub state : v.automaton_state ≡ State.alone_insert_wait
  pub mine : v.my_address ≡ rank_to_addr r
  pub prec : v.prec ≡ rank_to_addr r
  pub succ : v.succ ≡ rank_to_addr r
  pub trains : v.ntr ≡ positive ps.trains_number w.ntr
  pub lis : v.lis ≡ positive ps.trains_number w.ntr - 1
  pub queue : v.wagons_to_deliver ≡ record { womim = env.malloc w.allocations; wagon = 0 } ∷ []
  pub actions : v.actions ≡ init_done ∷ accepting true ∷ w.actions
  pub empty : Womim
  pub block : Womim
  pub empty_len : wagon_len empty.bytes 0 ≡ 7
  pub held : v.heap (env.malloc w.allocations) ≡ some block
  pub arrival : Signalled empty am_arrival (rank_to_addr r) (rank_to_addr r) 7 block

-- ===== src/World/Samples.antt =====
-- Concrete worlds for the tests.
use protocol_pfe.Base.{
  ℕ, zero, suc, ◌+◌, true, false, none, some, List, [], ◌∷◌, ◌==◌, if◌then◌else◌, Outcome, ok,
  exited, fault, out_of_fuel,
}
use protocol_pfe.Memory.{Bytes}
use protocol_pfe.World.{Womim, Lts, State, Counters, Entry, World, Env}

-- The bytes of a block, zero past its end.
abbrev pub block : List ℕ → Bytes
block [] o = 0
block (x ∷ xs) zero = x
block (x ∷ xs) (suc o) = block xs o

abbrev pub womim_of : List ℕ → Womim
womim_of xs = record { counter = 1; size = 32; bytes = block xs }

abbrev pub no_counters : Counters
no_counters = record {
  messages_delivered = 0;
  messages_bytes_delivered = 0;
  trains_bytes_received = 0;
  trains_received = 0;
  recent_trains_bytes_received = 0;
  recent_trains_received = 0;
  wagons_delivered = 0;
  newmsg = 0;
  flow_control = 0;
}

abbrev pub empty_lts : Lts
empty_lts = record {
  stamp_id = 0;
  stamp_lc = 0;
  stamp_round = 0;
  circuit = 7;
  w_w = none;
  w_len = 0;
  p_wtosend = none;
}

abbrev pub no_entry : Entry
no_entry = record { named = true; tcomm0 = none; tcomm1 = none; is_pred0 = false; is_pred1 = false }

-- Process 1 between the processes 0 and 2, with one message at the address 1.
abbrev pub world_of : State → Womim → World
world_of s m = record {
  automaton_state = s;
  my_address = 2;
  prec = 1;
  succ = 4;
  came_proc = 0;
  gone_proc = 0;
  wait_nb = 0;
  lis = 0;
  lts = λ id. empty_lts;
  unstable_wagons = λ id r. [];
  wagons_to_deliver = [];
  wagon_to_send = record { womim = 2; wagon = 0 };
  ntr = 1;
  wagon_max_len = 32;
  wait_nb_max = 4;
  wait_default_time = 1;
  heap = λ q. if q == 1 then some m else none;
  allocations = 0;
  dials = 0;
  table = λ r. no_entry;
  counters = no_counters;
  actions = [];
}

abbrev pub env : Env
env = record { malloc = λ n. n + 3; garbage = λ n o. 0; dial = λ n. none; rand = λ n. 0 }

-- The world where a run ends.
abbrev pub end_of : {A : Type 0} → Outcome (A × World) → World → World
end_of (ok (a, w)) v = w
end_of exited v = v
end_of fault v = v
end_of out_of_fuel v = v

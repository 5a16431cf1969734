-- ===== src/Startup.antt =====
-- trInit of src/interface.c up to the wait for sem_init_done: the parameters, the table of
-- addresses, the address of this process, and the start of the automaton.
pub mod Alone
pub mod Init
pub mod Tests
use protocol_pfe.Base.{ℕ, Bool, true, false, Option, none, some, List, [], ◌∷◌, ◌==◌, if◌then◌else◌}
use protocol_pfe.Address.{rank_to_addr}
use protocol_pfe.World.{Entry, World, Env}
use protocol_pfe.World.Run.{M, ◌>>=◌, ◌>>◌, modify, or_exit, lift}
use protocol_pfe.Hosts.{Hosts, Line, addr_generator, addr_id}
use protocol_pfe.Automaton.{automaton_init}

-- The parameters of trInit; 0 stands for any that is not positive.
pub record Params : Type 0 where
  pub trains_number : ℕ
  pub wagon_length : ℕ
  pub wait_nb : ℕ
  pub wait_time : ℕ

-- The value where it is positive, and the one before otherwise.
unfoldable pub positive : ℕ → ℕ → ℕ
positive n before = if n == 0 then before else n

unfoldable pub set_params : Params → World → World
set_params ps w = record w {
  ntr = positive ps.trains_number w.ntr;
  wagon_max_len = positive ps.wagon_length w.wagon_max_len;
  wait_nb_max = positive ps.wait_nb w.wait_nb_max;
  wait_default_time = positive ps.wait_time w.wait_default_time;
}

-- The first character of a string is not its end.
unfoldable pub named_of : List ℕ → Bool
named_of [] = false
named_of (c ∷ cs) = true

-- globalAddrArray, without connections.
unfoldable pub entries_of : Hosts → ℕ → Entry
entries_of t r = record {
  named = named_of (t.array r).chan;
  tcomm0 = none;
  tcomm1 = none;
  is_pred0 = false;
  is_pred1 = false;
}

-- With the file of addresses, the name of this host, `none` where gethostname fails, and
-- TRAINS_PORT, `none` where it is not defined.
unfoldable pub tr_init : Env → Params → List Line → Option (List ℕ) → Option (List ℕ) → M (Unit {0})
tr_init env ps ls host port = do
  modify (set_params ps)
  hostname ← or_exit host
  t ← lift (addr_generator hostname ls)
  modify (λ w. record w { table = entries_of t })
  trains_port ← or_exit port
  rank ← or_exit (addr_id hostname trains_port t.array)
  modify (λ w. record w { my_address = rank_to_addr rank })
  automaton_init env

-- ===== src/Startup/Alone.antt =====
-- A process that no other answers starts alone.
use protocol_pfe.Base.{
  ℕ, zero, suc, ◌+◌, ◌%◌, ◌^◌, ◌≤◌, ◌<◌, ◌≡◌, ◌≢◌, refl, ap, sym, ◌∙◌, inl, inr, true, false, none,
  some, [], ◌∷◌, ◌==◌, ok, arith, Bool-cases, ==_refl, ==_ne,
}
use protocol_pfe.Base.{◌++◌, leb, subst, bit_or, bit_or_self, bit_or-lt}
use protocol_pfe.Address.{Address, rank_to_addr, addr_to_rank}
use protocol_pfe.Address.Rank.{addr_to_rank-rank_to_addr}
use protocol_pfe.Memory.{Bytes, put8, put16, put32}
use protocol_pfe.Memory.Laws.{get32-put32, put16_outside, get32_cong}
use protocol_pfe.Wagon.{wagon_len}
use protocol_pfe.World.{null, Womim, State, World, Env, init_done, accepting, update}
use protocol_pfe.World.Run.{pure, ◌>>=◌, get, modify, act, lift, store, or_exit, when◌then◌else◌}
use protocol_pfe.Buffer.{prefix_size, new_wiw, empty_wagon, write8, write16, write32}
use protocol_pfe.Buffer.Room.{Fits}
use protocol_pfe.Broadcast.{am_arrival, enqueue, renew_wagon_to_send, signal_arrival}
use protocol_pfe.Connect.{connected, open_connection, succ_loop, search_succ}
use protocol_pfe.Automaton.{participate, set_state, start_alone, offline_init}
use protocol_pfe.Deliver.Signal.{Signalled, signal_arrival_departures_lem}
use native.Mathlib.Decide.{ℕ_discrete}

module _ (env : Env) (refused : (n : ℕ) → env.dial n ≡ none) where
  open_refused :
      (i : ℕ) (w : World)
      → i < 16
      → (d : ℕ) × (open_connection env (rank_to_addr i) false w
          ≡ ok (false, record w { dials = d }))
  unfolding open_connection connected ◌>>=◌ pure get modify or_exit when◌then◌else◌
  open_refused i w h = elim (Bool-cases (w.table i).named) [
    | inl e ↦ (w.dials + 1, rw (addr_to_rank-rank_to_addr i h, e, refused w.dials) refl)
    | inr e ↦ (w.dials, rw (addr_to_rank-rank_to_addr i h, e) refl)
  ]

  -- From rank `i` on, `k` ranks before its own.
  succ_loop_refused :
      (fuel k i r : ℕ) (result : Address) (w : World)
      → i < 16
      → (i + k) % 16 ≡ r
      → k < fuel
      → (d : ℕ) × (succ_loop fuel env i r result w ≡ ok (result, record w { dials = d }))
  unfolding succ_loop pure ◌>>=◌ when◌then◌else◌
  succ_loop_refused zero k i r result w h e f = absurd (omega arith)
  succ_loop_refused (suc fuel) zero i r result w h e f =
      let same : (i == r) ≡ true = ground arith in (w.dials, rw same refl)
  succ_loop_refused (suc fuel) (suc k) i r result w h e f = elim (ℕ_discrete i r) [
    | yes p ↦ (w.dials, rw (p, ==_refl r) refl)
    | no ne ↦
        let (d, ran) = open_refused i w h in
        let (d', ran') =
          succ_loop_refused fuel k ((i + 1) % 16) r result (record w { dials = d }) (omega arith)
            (omega arith) (omega arith) in
        (d', rw (==_ne i r ne, ran) ran')
  ]

  search_refused :
      (r : ℕ) (ad : Address) (w : World)
      → r < 16
      → ad ≡ rank_to_addr r
      → (d : ℕ) × (search_succ env ad w ≡ ok (w.my_address, record w { dials = d }))
  unfolding search_succ ◌>>=◌ get or_exit pure
  search_refused r ad w h e =
      let known : addr_to_rank ad ≡ some r = ap addr_to_rank e ∙ addr_to_rank-rank_to_addr r h in
      let (d, ran) =
        succ_loop_refused 16 15 ((r + 1) % 16) r w.my_address w (omega arith) (omega arith)
          (omega arith) in
      (d, rw known ran)

-- A process alone: it waits for others in ALONE_INSERT_WAIT, is its own predecessor and
-- successor, and the wagon with its arrival is the last to be delivered.
pub record Alone (w : World) (m : Womim) (v : World) : Type 0 where
  pub state : v.automaton_state ≡ State.alone_insert_wait
  pub mine : v.my_address ≡ w.my_address
  pub prec : v.prec ≡ w.my_address
  pub succ : v.succ ≡ w.my_address
  pub queue :
      v.wagons_to_deliver
      ≡ w.wagons_to_deliver ++ record { womim = w.wagon_to_send.womim; wagon = 0 } ∷ []
  pub actions : v.actions ≡ init_done ∷ accepting true ∷ w.actions
  pub trains : v.ntr ≡ w.ntr
  pub lis : v.lis ≡ w.lis
  pub block : Womim
  pub held : v.heap w.wagon_to_send.womim ≡ some block
  pub arrival : Signalled m am_arrival w.my_address w.my_address (wagon_len m.bytes 0) block

rank_to_addr-lt : (r : ℕ) → rank_to_addr r < 2 ^ 16
unfolding rank_to_addr
rank_to_addr-lt r = omega arith

header_len : (b : Bytes) (ad : Address) → wagon_len (put8 (put16 (put32 b 0 7) 4 ad) 6 0) 0 ≡ 7
unfolding wagon_len put8
header_len b ad =
    get32_cong _ (put32 b 0 7) 0
      (λ q l h. rw (==_ne q 6 (λ e. omega arith)) (put16_outside (put32 b 0 7) 4 ad q (inl h)))
    ∙ get32-put32 b 0 7 (omega arith)

pub new_block_lem :
    (env : Env) (w : World)
    → env.malloc w.allocations ≢ null
    → 7 ≤ w.wagon_max_len
    → (m : Womim) × (wagon_len m.bytes 0 ≡ 7)
      × (m.size ≡ w.wagon_max_len)
      × (m.counter ≡ 1)
      × (new_wiw env w
          ≡ ok (
            record { womim = env.malloc w.allocations; wagon = 0 },
            record w {
              allocations = w.allocations + 1;
              heap = update w.heap (env.malloc w.allocations) (some m);
            },
          ))
unfolding new_wiw empty_wagon write8 write16 write32 ◌>>=◌ get modify lift store pure
    when◌then◌else◌
new_block_lem env w z room =
    let i1 : leb 4 w.wagon_max_len ≡ true = ground arith in
    let i2 : leb 6 w.wagon_max_len ≡ true = ground arith in
    let i3 : leb 7 w.wagon_max_len ≡ true = ground arith in
    (
      record {
        counter = 1;
        size = w.wagon_max_len;
        bytes = put8 (put16 (put32 (env.garbage w.allocations) 0 7) 4 w.my_address) 6 0;
      },
      header_len (env.garbage w.allocations) w.my_address,
      refl,
      refl,
      rw (==_ne (env.malloc w.allocations) null z, i1, i2, i3) refl,
    )

module _ (env : Env) (refused : (n : ℕ) → env.dial n ≡ none) (r : ℕ) (m : Womim) (w : World)
    (small : r < 16) (mine : w.my_address ≡ rank_to_addr r)
    (held : w.heap w.wagon_to_send.womim ≡ some m) (fits : Fits m)
    (room : wagon_len m.bytes 0 + 9 ≤ m.size) (size : m.size < 2 ^ 31)
    (low_len : wagon_len m.bytes 0 + 9 + prefix_size < 2 ^ 31) (z : env.malloc w.allocations ≢ null)
    (new : env.malloc w.allocations ≢ w.wagon_to_send.womim) (max : 7 ≤ w.wagon_max_len) where
  pub offline_init_lem : (v : World) × (offline_init env w ≡ ok (tt, v)) × Alone w m v
  unfolding offline_init start_alone participate set_state signal_arrival enqueue
      renew_wagon_to_send ◌>>=◌ get modify act when◌then◌else◌
  offline_init_lem =
      let low : w.my_address < 2 ^ 16 = rw mine (rank_to_addr-lt r) in
      let (d, searched) =
        search_refused env refused r w.my_address
          (record w { actions = accepting true ∷ w.actions }) small mine in
      let w3 : World = record w {
        actions = accepting true ∷ w.actions;
        dials = d;
        succ = w.my_address;
      } in
      let (heap, block, signalled, there, s) =
        signal_arrival_departures_lem am_arrival w.my_address (bit_or w.my_address w.my_address) m
          w3 held fits size low_len (inr room) (omega arith) low
          (bit_or-lt 16 w.my_address w.my_address low low) in
      let w4 : World = record w3 {
        heap = heap;
        wagon_to_send = record { womim = w.wagon_to_send.womim; wagon = 0 };
        wagons_to_deliver =
            w.wagons_to_deliver ++ record { womim = w.wagon_to_send.womim; wagon = 0 } ∷ [];
      } in
      let (m', _, _, _, renewed) = new_block_lem env w4 z max in
      (
        record w4 {
          allocations = w.allocations + 1;
          heap = update heap (env.malloc w.allocations) (some m');
          wagon_to_send = record { womim = env.malloc w.allocations; wagon = 0 };
          automaton_state = State.alone_insert_wait;
          actions = init_done ∷ accepting true ∷ w.actions;
          prec = w.my_address;
        },
        rw searched (rw (==_refl w.my_address) (rw signalled (rw renewed refl))),
        record {
          state = refl;
          mine = refl;
          prec = refl;
          succ = refl;
          queue = refl;
          actions = refl;
          trains = refl;
          lis = refl;
          block = block;
          held =
              rw (==_ne w.wagon_to_send.womim (env.malloc w.allocations) (λ e. new (sym e))) there;
          arrival =
              subst (λ c. Signalled m am_arrival w.my_address c (wagon_len m.bytes 0) block)
                (bit_or_self 16 w.my_address low) s;
        },
      )

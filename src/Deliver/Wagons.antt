-- ===== src/Deliver/Wagons.antt =====
-- The delivery of one wagon: its messages, then the reference on its womim.
use protocol_pfe.Base.{
  ℕ, zero, suc, ◌+◌, ◌-◌, ◌^◌, ◌%◌, ◌≤◌, ◌<◌, ◌≡◌, refl, inl, inr, true, false, Option, none, some,
  List, [], ◌∷◌, ◌==◌, leb, if◌then◌else◌, length, ok, arith, Bool-cases,
}
use protocol_pfe.Memory.{Bytes}
use protocol_pfe.Wagon.{wagon_len, message_len, first_msg}
use protocol_pfe.World.{u64, Ptr, Womim, Wiw, World, update}
use protocol_pfe.World.Run.{pure, ◌>>=◌, modify, load, store}
use protocol_pfe.Buffer.{decrement, free_womim}
use protocol_pfe.Deliver.{deliver_wagon}
use protocol_pfe.Deliver.Messages.{Laid, told_all, ends, payloads, entry, loop_lem}

-- A block after `n` references are given back: freed with the last of them.
abbrev pub given_back : ℕ → Option Womim → Option Womim
given_back zero c = c
given_back (suc n) none = none
given_back (suc n) (some m) =
    if leb m.counter (suc n) then none else some (record m { counter = m.counter - suc n })

pub given_back-suc :
    (n : ℕ) (c : Option Womim) → given_back n (given_back 1 c) ≡ given_back (suc n) c
given_back-suc zero none = refl
given_back-suc zero (some m) = refl
given_back-suc (suc n) none = refl
given_back-suc (suc n) (some m) = elim (Bool-cases (leb m.counter 1)) [
  | inl e ↦ let late : leb m.counter (suc (suc n)) ≡ true = ground arith in rw (e, late) refl
  | inr e ↦
      let both : leb (m.counter - 1) (suc n) ≡ leb m.counter (suc (suc n)) = ground arith in
      let left : m.counter - 1 - suc n ≡ m.counter - suc (suc n) = omega arith in
      rw (e, both, left) refl
]

free_womim_lem :
    (p : Ptr) (m : Womim) (w : World)
    → w.heap p ≡ some m
    → 0 < m.counter
    → m.counter < 2 ^ 32
    → free_womim p w ≡ ok (tt, record w { heap = update w.heap p (given_back 1 (some m)) })
unfolding free_womim decrement ◌>>=◌ load store
free_womim_lem p m w h some_left bound =
    let less : (m.counter + 2 ^ 32 - 1) % 2 ^ 32 ≡ m.counter - 1 = omega arith in
    let last : (m.counter - 1 == 0) ≡ leb m.counter 1 = ground arith in
    rw (h, load) (rw (less, last) refl)

pub Laid-length : (b : Bytes) (e o : ℕ) (mps : List ℕ) → Laid b e o mps → length mps + o ≤ e
Laid-length b e o [] laid = omega arith
Laid-length b e o (x ∷ xs) (at, inside, header, rest) =
    omega (arith, Laid-length b e (o + message_len b o) xs rest)

first_msg_lem :
    (p : Ptr) (b : Bytes) (wag : ℕ) (mps : List ℕ)
    → Laid b (wag + wagon_len b wag) (wag + 7) mps
    → first_msg b wag ≡ entry p b wag (wag + 7)
unfolding first_msg
first_msg_lem p b wag [] laid = ground arith
first_msg_lem p b wag (x ∷ xs) (at, inside, header, rest) = ground arith

-- What the delivery of one wagon does to the world.
pub record Delivered (wi : Wiw) (b : Bytes) (mps : List ℕ) (w v : World) : Type 0 where
  pub actions : v.actions ≡ told_all wi.womim b wi.wagon mps w.actions
  pub messages :
      u64 v.counters.messages_delivered ≡ u64 (w.counters.messages_delivered + length mps)
  pub bytes :
      u64 v.counters.messages_bytes_delivered
      ≡ u64 (w.counters.messages_bytes_delivered + payloads wi.womim b wi.wagon mps)
  pub wagons : u64 v.counters.wagons_delivered ≡ u64 (w.counters.wagons_delivered + 1)
  pub heap : v.heap ≡ update w.heap wi.womim (given_back 1 (w.heap wi.womim))
  pub queue : v.wagons_to_deliver ≡ w.wagons_to_deliver

pub deliver_wagon_lem :
    (wi : Wiw) (m : Womim) (mps : List ℕ) (w : World)
    → w.heap wi.womim ≡ some m
    → 0 < m.counter
    → m.counter < 2 ^ 32
    → Laid m.bytes (wi.wagon + wagon_len m.bytes wi.wagon) (wi.wagon + 7) mps
    → (v : World) × (deliver_wagon wi w ≡ ok (ends wi.womim m.bytes wi.wagon mps, v))
      × Delivered wi m.bytes mps w v
unfolding deliver_wagon ◌>>=◌ modify load pure
deliver_wagon_lem wi m mps w h some_left bound laid =
    let w1 : World = record w {
      counters = record (w.counters) { wagons_delivered = u64 (w.counters.wagons_delivered + 1) };
    } in
    let enough = Laid-length m.bytes _ (wi.wagon + 7) mps laid in
    let (v, ran, t) =
      loop_lem wi.womim m.bytes wi.wagon (wagon_len m.bytes wi.wagon + 1) (wi.wagon + 7) false mps
        w1 laid (omega (arith, enough)) in
    let here : v.heap wi.womim ≡ some m = rw t.heap h in
    (
      record v { heap = update v.heap wi.womim (given_back 1 (some m)) },
      rw (h, load)
          (rw (first_msg_lem wi.womim m.bytes wi.wagon mps laid)
            (rw (ran) (rw (free_womim_lem wi.womim m v here some_left bound) refl))),
      record {
        actions = t.actions;
        messages = t.messages;
        bytes = t.bytes;
        wagons = omega (arith, t.wagons);
        heap = rw (t.heap, h) refl;
        queue = t.queue;
      },
    )

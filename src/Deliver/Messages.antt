-- ===== src/Deliver/Messages.antt =====
-- The loop of utoDeliveries over the messages of a wagon.
use protocol_pfe.Base.{
  ℕ, zero, suc, ◌+◌, ◌-◌, ◌^◌, ◌≤◌, ◌<◌, ◌≡◌, refl, inl, inr, Bool, false, Option, none, some, List,
  [], ◌∷◌, ◌++◌, ◌||◌, ◌==◌, leb, if◌then◌else◌, length, ok, arith, Bool-cases,
}
use protocol_pfe.Address.{AddressSet}
use mathlib.Core.Bool.{or-false, or_assoc}
use protocol_pfe.Memory.{Bytes, get16}
use protocol_pfe.Wagon.{wagon_len, wagon_sender, message_len, message_typ, next_msg}
use protocol_pfe.World.{
  u64, Ptr, CircuitView, World, Action, uto_delivered, circuit_changed, unknown_typ,
}
use protocol_pfe.World.Run.{pure, ◌>>=◌, modify, act, lift, when◌then◌else◌}
use protocol_pfe.Broadcast.{am_broadcast, am_arrival, am_departure, am_terminate}
use protocol_pfe.Deliver.{
  fill_cv, on_arrival, on_departure, deliver_message, count_delivered, messages_loop,
}
use protocol_pfe.Deliver.View.{fill_cv_lem}

-- The messages at the offsets `ms` stand one behind the other from `o` to `e`, each of at least
-- its header.
abbrev pub Laid : Bytes → ℕ → ℕ → List ℕ → Type 0
Laid b e o [] = o ≡ e
Laid b e o (x ∷ xs) = (x ≡ o) × (o < e) × (5 ≤ message_len b o) × Laid b e (o + message_len b o) xs

-- The members of a circuit, as fillCv lists them.
abbrev pub members : AddressSet → CircuitView
members circuit = (fill_cv_lem circuit).0

members_lem : (circuit : AddressSet) → fill_cv circuit ≡ ok (members circuit)
members_lem circuit = (fill_cv_lem circuit).1

module _ (p : Ptr) (b : Bytes) (wag : ℕ) where
  -- What the application is told about a message.
  abbrev pub told : ℕ → List Action
  told mp =
      if message_typ b mp == am_broadcast
      then uto_delivered (wagon_sender b wag) p mp ∷ []
      else if message_typ b mp == am_arrival
      then circuit_changed (record (members (get16 b (mp + 7))) { cv_joined = get16 b (mp + 5) })
        ∷ []
      else if message_typ b mp == am_departure
      then circuit_changed (record (members (get16 b (mp + 7))) { cv_departed = get16 b (mp + 5) })
        ∷ []
      else if message_typ b mp == am_terminate
      then []
      else unknown_typ (message_typ b mp) ∷ []

  -- And about several, the first of them first, in front of what was done before.
  abbrev pub told_all : List ℕ → List Action → List Action
  told_all [] before = before
  told_all (mp ∷ mps) before = told_all mps (told mp ++ before)

  -- Whether one of them ends the thread.
  abbrev pub ends : List ℕ → Bool
  ends [] = false
  ends (mp ∷ mps) = (message_typ b mp == am_terminate) || ends mps

  abbrev pub payloads : List ℕ → ℕ
  payloads [] = 0
  payloads (mp ∷ mps) = message_len b mp - 5 + payloads mps

  -- What the loop does to the world.
  pub record Told (mps : List ℕ) (w v : World) : Type 0 where
    pub actions : v.actions ≡ told_all mps w.actions
    pub messages :
        u64 v.counters.messages_delivered ≡ u64 (w.counters.messages_delivered + length mps)
    pub bytes :
        u64 v.counters.messages_bytes_delivered
        ≡ u64 (w.counters.messages_bytes_delivered + payloads mps)
    pub wagons : v.counters.wagons_delivered ≡ w.counters.wagons_delivered
    pub heap : v.heap ≡ w.heap
    pub queue : v.wagons_to_deliver ≡ w.wagons_to_deliver

  -- One message: the actions are added and the counters advance.
  deliver_message_lem :
      (mp : ℕ) (w : World)
      → deliver_message p b wag mp w
        ≡ ok (message_typ b mp == am_terminate, record w { actions = told mp ++ w.actions })
  unfolding deliver_message on_arrival on_departure ◌>>=◌ pure act lift when◌then◌else◌
  deliver_message_lem mp w = elim (Bool-cases (message_typ b mp == am_broadcast)) [
    | inl e ↦
        let other : (message_typ b mp == am_terminate) ≡ false = ground arith in rw (e, other) refl
    | inr e ↦ elim (Bool-cases (message_typ b mp == am_arrival)) [
      | inl f ↦
          let other : (message_typ b mp == am_terminate) ≡ false = ground arith in
          rw (e, f, members_lem (get16 b (mp + 7)), other) refl
      | inr f ↦ elim (Bool-cases (message_typ b mp == am_departure)) [
        | inl g ↦
            let other : (message_typ b mp == am_terminate) ≡ false = ground arith in
            rw (e, f, g, members_lem (get16 b (mp + 7)), other) refl
        | inr g ↦ elim (Bool-cases (message_typ b mp == am_terminate)) [
          | inl h ↦ rw (e, f, g, h) refl
          | inr h ↦ rw (e, f, g, h) refl
        ]
      ]
    ]
  ]

  -- The message at an offset, or NULL at the end of the wagon.
  abbrev pub entry : ℕ → Option ℕ
  entry o = if leb (wag + wagon_len b wag) o then none else some o

  -- The world after one message.
  abbrev shown : ℕ → World → World
  shown mp w = record w {
    actions = told mp ++ w.actions;
    counters = record (w.counters) {
      messages_delivered = u64 (w.counters.messages_delivered + 1);
      messages_bytes_delivered =
          u64 (w.counters.messages_bytes_delivered + (message_len b mp + 2 ^ 64 - 5));
    };
  }

  next_msg_lem : (o : ℕ) → next_msg b wag o ≡ entry (o + message_len b o)
  unfolding next_msg
  next_msg_lem o = refl

  round :
      (fuel mp : ℕ) (t : Bool) (w : World)
      → messages_loop (suc fuel) p b wag t (some mp) w
        ≡ messages_loop fuel p b wag
            (t || (message_typ b mp == am_terminate))
            (entry (mp + message_len b mp))
            (shown mp w)
  unfolding messages_loop count_delivered ◌>>=◌ modify
  round fuel mp t w = rw (deliver_message_lem, next_msg_lem) refl

  Told-cons :
      (mp : ℕ) (mps : List ℕ) (w v : World)
      → 5 ≤ message_len b mp
      → Told mps (shown mp w) v
      → Told (mp ∷ mps) w v
  Told-cons mp mps w v h r = record {
    actions = r.actions;
    messages = omega (arith, r.messages);
    bytes = omega (arith, r.bytes);
    wagons = r.wagons;
    heap = r.heap;
    queue = r.queue;
  }

  at_end : entry (wag + wagon_len b wag) ≡ none
  at_end = ground arith

  not_at_end : (o : ℕ) → o < wag + wagon_len b wag → entry o ≡ some o
  not_at_end o h = ground arith

  pub loop_lem :
      (fuel o : ℕ) (t : Bool) (mps : List ℕ) (w : World)
      → Laid b (wag + wagon_len b wag) o mps
      → length mps < fuel
      → (v : World) × (messages_loop fuel p b wag t (entry o) w ≡ ok (t || ends mps, v))
        × Told mps w v
  unfolding messages_loop pure
  loop_lem zero o t mps w laid f = elim f [ ]
  loop_lem (suc fuel) o t [] w laid f = (
    w,
    rw (laid, at_end, or-false) refl,
    record {
      actions = refl;
      messages = omega arith;
      bytes = omega arith;
      wagons = refl;
      heap = refl;
      queue = refl;
    },
  )
  loop_lem (suc fuel) o t (x ∷ xs) w (at, inside, header, rest) f =
      let (v, ran, h) =
        loop_lem fuel (o + message_len b o) (t || (message_typ b o == am_terminate)) xs (shown o w)
          rest (omega arith) in
      (
        v,
        rw
            (
              not_at_end o inside,
              round,
              ran,
              at,
              or_assoc t (message_typ b o == am_terminate) (ends xs),
            )
            refl,
        rw at (Told-cons o xs w v header h),
      )

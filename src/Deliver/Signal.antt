-- ===== src/Deliver/Signal.antt =====
-- signalArrivalDepartures, seen from the delivery of the wagon that it writes into.
use protocol_pfe.Base.{
  ℕ, ◌+◌, ◌^◌, ◌≤◌, ◌<◌, ◌≡◌, ◌⊎◌, refl, ap, sym, ◌∙◌, inl, inr, true, leb, Option, some, [], ◌∷◌,
  ok, arith, ==_refl, ==_ne, ltb, if◌then◌else◌, Bool-cases,
}
use protocol_pfe.Address.{Address, AddressSet}
use protocol_pfe.Memory.{put8, put16, get16}
use protocol_pfe.Memory.Laws.{get16-put16, put16_outside, get16_cong, get32_cong}
use protocol_pfe.Wagon.{wagon_len, message_len, message_typ}
use protocol_pfe.World.{Ptr, Womim, World, circuit_changed, update}
use protocol_pfe.World.Run.{pure, ◌>>=◌, get, modify, lift, load, store}
use protocol_pfe.Buffer.{prefix_size, as_int, write8, write16, append_message, malloc_wiw}
use protocol_pfe.Buffer.Room.{Fits, Appended, append_message_lem}
use protocol_pfe.Deliver.Messages.{members, told}
use protocol_pfe.Broadcast.{
  am_arrival, am_departure, make_room, write_to_send, signal_arrival_departures,
}

-- The block after the three writes behind mallocWiw.
abbrev filled_in : ℕ → ℕ → Address → AddressSet → Womim → Womim
filled_in mp typ ad circuit m = record m {
  bytes = put16 (put16 (put8 m.bytes (mp + 4) typ) (mp + 5) ad) (mp + 7) circuit;
}

-- The block after the `realloc`, where there is one.
abbrev with_room : ℕ → Womim → Womim
with_room max m =
    if ltb max (wagon_len m.bytes 0 + 4) then record m { size = wagon_len m.bytes 0 + 9 } else m

make_room_lem :
    (max : ℕ) (m : Womim)
    → wagon_len m.bytes 0 + 9 + prefix_size < 2 ^ 31
    → make_room max m ≡ ok (with_room max m)
unfolding make_room as_int
make_room_lem max m total = elim (Bool-cases (ltb max (wagon_len m.bytes 0 + 4))) [
  | inl e ↦
      let small : ltb (prefix_size + (wagon_len m.bytes 0 + 5 + 4)) (2 ^ 31) ≡ true =
        ground arith in
      let same : wagon_len m.bytes 0 + 5 + 4 ≡ wagon_len m.bytes 0 + 9 = omega arith in
      rw (e, small, same) refl
  | inr e ↦ rw e refl
]

-- The room that the message finds in the block.
room_made :
    (max : ℕ) (m : Womim)
    → (max < wagon_len m.bytes 0 + 4) ⊎ (wagon_len m.bytes 0 + 9 ≤ m.size)
    → wagon_len m.bytes 0 + 9 ≤ (with_room max m).size
room_made max m room = ground arith

room_small :
    (max : ℕ) (m : Womim)
    → m.size < 2 ^ 31
    → wagon_len m.bytes 0 + 9 < 2 ^ 31
    → (with_room max m).size < 2 ^ 31
room_small max m small bound = ground arith

same_bytes : (max : ℕ) (m : Womim) → (with_room max m).bytes ≡ m.bytes
same_bytes max m = ground arith

same_counter : (max : ℕ) (m : Womim) → (with_room max m).counter ≡ m.counter
same_counter max m = ground arith

-- After signalArrivalDepartures: one more message at the old end of the wagon, with the type, the
-- process and the circuit.
pub record Signalled (m : Womim) (typ : ℕ) (ad : Address) (circuit : AddressSet) (mp : ℕ)
    (m' : Womim) : Type 0 where
  pub place : mp ≡ wagon_len m.bytes 0
  pub longer : wagon_len m'.bytes 0 ≡ wagon_len m.bytes 0 + 9
  pub its_len : message_len m'.bytes mp ≡ 9
  pub its_typ : message_typ m'.bytes mp ≡ typ
  pub process : get16 m'.bytes (mp + 5) ≡ ad
  pub members : get16 m'.bytes (mp + 7) ≡ circuit
  pub kept : (q : ℕ) → 4 ≤ q → q < wagon_len m.bytes 0 → m'.bytes q ≡ m.bytes q
  pub counter : m'.counter ≡ m.counter
  pub fits : Fits m'

module _ (m m1 : Womim) (typ : ℕ) (ad : Address) (circuit : AddressSet) (f : Fits m)
    (a : Appended m 4 (wagon_len m.bytes 0) m1) where
  abbrev len : ℕ
  len = wagon_len m.bytes 0

  abbrev m2 : Womim
  m2 = filled_in len typ ad circuit m1

  untouched : (q : ℕ) → q < len + 4 → m2.bytes q ≡ m1.bytes q
  unfolding put8
  untouched q h =
      put16_outside _ (len + 7) circuit q (inl (omega arith))
      ∙ put16_outside _ (len + 5) ad q (inl (omega arith))
      ∙ rw (==_ne q (len + 4) (λ e. omega arith)) refl

  typ_there : typ < 256 → message_typ m2.bytes len ≡ typ
  unfolding message_typ put8
  typ_there h =
      put16_outside _ (len + 7) circuit (len + 4) (inl (omega arith))
      ∙ put16_outside _ (len + 5) ad (len + 4) (inl (omega arith))
      ∙ rw (==_refl (len + 4)) (omega arith)

  process_there : ad < 2 ^ 16 → get16 m2.bytes (len + 5) ≡ ad
  process_there h =
      get16_cong m2.bytes (put16 (put8 m1.bytes (len + 4) typ) (len + 5) ad) (len + 5)
        (put16_outside _ (len + 7) circuit (len + 5) (inl (omega arith)))
        (put16_outside _ (len + 7) circuit (len + 5 + 1) (inl (omega arith)))
      ∙ get16-put16 (put8 m1.bytes (len + 4) typ) (len + 5) ad h

  longer : wagon_len m2.bytes 0 ≡ len + 9
  unfolding wagon_len
  longer =
      get32_cong m2.bytes m1.bytes 0 (λ q l h. untouched q (omega (arith, f.header)))
      ∙ omega (arith, a.longer)

  its_len : message_len m2.bytes len ≡ 9
  unfolding message_len
  its_len = get32_cong m2.bytes m1.bytes len (λ q l h. untouched q h) ∙ a.its_len

  Signalled-filled_in :
      typ < 256 → ad < 2 ^ 16 → circuit < 2 ^ 16 → Signalled m typ ad circuit len m2
  Signalled-filled_in ht ha hc = record {
    place = refl;
    longer = longer;
    its_len = its_len;
    its_typ = typ_there ht;
    process = process_there ha;
    members = get16-put16 _ (len + 7) circuit hc;
    kept = λ q l h. untouched q (omega arith) ∙ a.kept q l h;
    counter = a.counter;
    fits = record {
      header = omega (arith, f.header, longer);
      inside = omega (arith, a.fits.inside, a.longer, longer);
    };
  }

-- A block with the same bytes and counter.
Appended-bytes :
    (n : ℕ) (m m0 m1 : Womim)
    → m0.bytes ≡ m.bytes
    → m0.counter ≡ m.counter
    → Appended m0 n (wagon_len m0.bytes 0) m1
    → Appended m n (wagon_len m.bytes 0) m1
Appended-bytes n m m0 m1 e c a =
    let len : wagon_len m0.bytes 0 ≡ wagon_len m.bytes 0 = ap (λ b. wagon_len b 0) e in
    record {
      place = refl;
      longer = omega (arith, a.longer, len);
      its_len = ap (message_len m1.bytes) (sym len) ∙ a.its_len;
      fits = a.fits;
      counter = a.counter ∙ c;
      kept = λ q l h. a.kept q l (omega (arith, len)) ∙ ap (λ b. b q) e;
    }

-- The heap after the writes, each of which stores the block anew.
abbrev stored :
    ℕ → ℕ → Address → AddressSet → Womim → Womim → Ptr → (Ptr → Option Womim) → Ptr → Option Womim
stored mp typ ad circuit m0 m1 p heap =
    let a1 : Womim = record m1 { bytes = put8 m1.bytes (mp + 4) typ } in
    let a2 : Womim = record m1 { bytes = put16 a1.bytes (mp + 5) ad } in
    update (update (update (update (update heap p (some m0)) p (some m1)) p (some a1)) p (some a2))
      p (some (filled_in mp typ ad circuit m1))

run_lem :
    (typ : ℕ) (ad : Address) (circuit : AddressSet) (mp : ℕ) (m m1 : Womim) (w : World)
    → w.heap w.wagon_to_send.womim ≡ some m
    → make_room w.wagon_max_len m ≡ ok (with_room w.wagon_max_len m)
    → append_message w.wagon_max_len 4 (with_room w.wagon_max_len m) ≡ ok (mp, m1)
    → mp + 9 ≤ m1.size
    → signal_arrival_departures typ ad circuit w
      ≡ ok (
        tt,
        record w {
          heap =
              stored mp typ ad circuit
                (with_room w.wagon_max_len m)
                m1
                w.wagon_to_send.womim
                w.heap;
          wagon_to_send = record { womim = w.wagon_to_send.womim; wagon = 0 };
        },
      )
unfolding signal_arrival_departures malloc_wiw write_to_send write8 write16 ◌>>=◌ pure get modify
    lift load store
run_lem typ ad circuit mp m m1 w h made did inside =
    let p = w.wagon_to_send.womim in
    let i1 : leb (mp + 4 + 1) m1.size ≡ true = ground arith in
    let i2 : leb (mp + 5 + 2) m1.size ≡ true = ground arith in
    let i3 : leb (mp + 7 + 2) m1.size ≡ true = ground arith in
    rw (h, load)
      (rw made (
        rw (==_refl p, load)
          (rw (did, ==_refl p, load)
            (rw (i1, ==_refl p, load) (rw (i2, ==_refl p, load) (rw i3 refl))))))

-- Where wagonToSend fits its block of less than 2^31 bytes, the wagon with 9 more bytes and the
-- 48 of the prefix stays below 2^31 bytes, and the wagon is longer than wagonMaxLen - 4 or the
-- block has room for 9 more bytes, signalArrivalDepartures of a type below 256 and of a process
-- and a circuit below 2^16 returns and changes nothing but the block and wagonToSend's own
-- pointer into it: the wagon has one more message of 9 bytes at its old end, in which the type,
-- the process and the circuit are read back, still fits its block, and keeps its bytes from
-- offset 4 on and its counter.
pub signal_arrival_departures_lem :
    (typ : ℕ) (ad : Address) (circuit : AddressSet) (m : Womim) (w : World)
    → w.heap w.wagon_to_send.womim ≡ some m
    → Fits m
    → m.size < 2 ^ 31
    → wagon_len m.bytes 0 + 9 + prefix_size < 2 ^ 31
    → (w.wagon_max_len < wagon_len m.bytes 0 + 4) ⊎ (wagon_len m.bytes 0 + 9 ≤ m.size)
    → typ < 256
    → ad < 2 ^ 16
    → circuit < 2 ^ 16
    → (heap : Ptr → Option Womim) × (m' : Womim) × (signal_arrival_departures typ ad circuit w
        ≡ ok (
          tt,
          record w {
            heap = heap;
            wagon_to_send = record { womim = w.wagon_to_send.womim; wagon = 0 };
          },
        ))
      × (heap w.wagon_to_send.womim ≡ some m')
      × Signalled m typ ad circuit (wagon_len m.bytes 0) m'
signal_arrival_departures_lem typ ad circuit m w h f small bound room ht ha hc =
    let m0 = with_room w.wagon_max_len m in
    let same = same_bytes w.wagon_max_len m in
    let enough = room_made w.wagon_max_len m room in
    let len_same : wagon_len m0.bytes 0 ≡ wagon_len m.bytes 0 = ap (λ b. wagon_len b 0) same in
    let size_small : m0.size < 2 ^ 31 = room_small w.wagon_max_len m small (omega arith) in
    let (m1, did, a) =
      append_message_lem w.wagon_max_len 4 m0
        (record { header = omega (arith, len_same); inside = omega (arith, len_same) }) size_small
        (omega (arith, len_same)) (inr (omega (arith, len_same))) in
    let a' : Appended m 4 (wagon_len m.bytes 0) m1 =
      Appended-bytes 4 m m0 m1 same (same_counter w.wagon_max_len m) a in
    let did' : append_message w.wagon_max_len 4 m0 ≡ ok (wagon_len m.bytes 0, m1) =
      did ∙ ap (λ n. ok (n, m1)) len_same in
    (
      _,
      filled_in (wagon_len m.bytes 0) typ ad circuit m1,
      run_lem typ ad circuit (wagon_len m.bytes 0) m m1 w h (make_room_lem w.wagon_max_len m bound)
          did' (omega (arith, a'.fits.inside, a'.longer)),
      rw (==_refl w.wagon_to_send.womim) refl,
      Signalled-filled_in m m1 typ ad circuit f a' ht ha hc,
    )

-- What the application is told of the message.
pub told-arrival :
    (p : Ptr) (wag : ℕ) (ad : Address) (circuit : AddressSet) (mp : ℕ) (m m' : Womim)
    → Signalled m am_arrival ad circuit mp m'
    → told p m'.bytes wag mp ≡ circuit_changed (record (members circuit) { cv_joined = ad }) ∷ []
told-arrival p wag ad circuit mp m m' s = rw (s.its_typ, s.process, s.members) refl

pub told-departure :
    (p : Ptr) (wag : ℕ) (ad : Address) (circuit : AddressSet) (mp : ℕ) (m m' : Womim)
    → Signalled m am_departure ad circuit mp m'
    → told p m'.bytes wag mp ≡ circuit_changed (record (members circuit) { cv_departed = ad }) ∷ []
told-departure p wag ad circuit mp m m' s = rw (s.its_typ, s.process, s.members) refl

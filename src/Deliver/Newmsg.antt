-- ===== src/Deliver/Newmsg.antt =====
-- newmsg, seen from the delivery of the wagon that it writes into.
use protocol_pfe.Base.{
  ℕ, ◌+◌, ◌^◌, ◌≤◌, ◌<◌, ◌≡◌, ◌⊎◌, refl, ◌∙◌, true, false, leb, some, List, [], ◌∷◌, ◌++◌, ok,
  arith, All, ==_refl, ==_ne,
}
use protocol_pfe.Memory.{put8}
use protocol_pfe.Memory.Laws.{get32_cong}
use protocol_pfe.Wagon.{wagon_len, wagon_sender, message_len, message_typ}
use protocol_pfe.World.{u64, Ptr, Womim, World, Action, uto_delivered, update}
use protocol_pfe.World.Run.{pure, ◌>>=◌, get, modify, lift, load, store, when◌then◌else◌}
use protocol_pfe.Buffer.{prefix_size, write8, malloc_wiw}
use protocol_pfe.Buffer.Room.{Fits, Appended, append_message_lem}
use protocol_pfe.Broadcast.{must_wait, write_to_send, newmsg_round, newmsg}
use protocol_pfe.Deliver.Messages.{Laid, told_all}
use protocol_pfe.Deliver.Append.{Whole, wagon_sender_same, Laid-append, told_all-append}

-- The block after mallocWiw, with the type of the message set.
abbrev typed : ℕ → Womim → Womim
typed mp m = record m { bytes = put8 m.bytes (mp + 4) 0 }

-- After newmsg: `m'` holds the messages of `m` and one more at `mp`, a broadcast of the wagon's
-- sender.
pub record Extended (p : Ptr) (m : Womim) (payload_size : ℕ) (xs : List ℕ) (mp : ℕ) (m' : Womim)
    : Type 0 where
  pub counter : m'.counter ≡ m.counter
  pub fits : Fits m'
  pub its_len : message_len m'.bytes mp ≡ 5 + payload_size
  pub laid : Laid m'.bytes (wagon_len m'.bytes 0) 7 (xs ++ mp ∷ [])
  pub tells :
      (before : List Action)
      → told_all p m'.bytes 0 (xs ++ mp ∷ []) before
        ≡ uto_delivered (wagon_sender m.bytes 0) p mp ∷ told_all p m.bytes 0 xs before

module _ (p : Ptr) (m m1 : Womim) (payload_size : ℕ) (xs : List ℕ) (f : Fits m)
    (a : Appended m payload_size (wagon_len m.bytes 0) m1) where
  untouched :
      (q : ℕ)
      → ¬ (q ≡ wagon_len m.bytes 0 + 4)
      → (typed (wagon_len m.bytes 0) m1).bytes q ≡ m1.bytes q
  unfolding put8
  untouched q ne = rw (==_ne q (wagon_len m.bytes 0 + 4) ne) refl

  longer :
      wagon_len (typed (wagon_len m.bytes 0) m1).bytes 0 ≡ wagon_len m.bytes 0 + 5 + payload_size
  unfolding wagon_len
  longer =
      get32_cong _ m1.bytes 0 (λ q l h. untouched q (λ eq. absurd (omega (arith, f.header))))
      ∙ a.longer

  its_len :
      message_len (typed (wagon_len m.bytes 0) m1).bytes (wagon_len m.bytes 0) ≡ 5 + payload_size
  unfolding message_len
  its_len =
      get32_cong _ m1.bytes (wagon_len m.bytes 0)
        (λ q l h. untouched q (λ eq. absurd (omega arith)))
      ∙ a.its_len

  its_typ : message_typ (typed (wagon_len m.bytes 0) m1).bytes (wagon_len m.bytes 0) ≡ 0
  unfolding message_typ put8
  its_typ = rw (==_refl (wagon_len m.bytes 0 + 4)) refl

  Extended-typed :
      All (Whole m.bytes) xs
      → Laid m.bytes (wagon_len m.bytes 0) 7 xs
      → Extended p m payload_size xs (wagon_len m.bytes 0) (typed (wagon_len m.bytes 0) m1)
  Extended-typed whole laid =
      let e = wagon_len m.bytes 0 in
      let c = (typed e m1).bytes in
      let same : (q : ℕ) → 4 ≤ q → q < e → c q ≡ m.bytes q =
        λ q l h. untouched q (λ eq. absurd (omega arith)) ∙ a.kept q l h in
      record {
        counter = a.counter;
        fits = record {
          header = omega (arith, f.header, longer);
          inside = omega (arith, a.fits.inside, a.longer, longer);
        };
        its_len = its_len;
        laid =
            Laid-append m.bytes c e same (wagon_len c 0) 7 xs (omega arith) laid
              (omega (arith, its_len)) (omega (arith, its_len, longer));
        tells = λ before.
            told_all-append m.bytes c e same p f.header 7 xs before (omega arith) laid whole
            ∙ rw (its_typ, wagon_sender_same m.bytes c e same f.header) refl;
      }

-- Where wagonToSend is filled with messages, fits its block of less than 2^31 bytes, the wagon
-- with the new message and the 48 bytes of the prefix stay below 2^31 bytes, and newmsg need not
-- wait and has room for the payload (or more than wagonMaxLen is asked for), newmsg returns a
-- message at the old end of the wagon: the wagon is filled with the earlier messages and then
-- this one, with its length, it still fits its block, whose counter stays, and utoDeliveries
-- tells the application of it, as a broadcast of the wagon's sender, after everything that it
-- would have told of the earlier messages, each of which is a broadcast or has at least 9 bytes.
pub newmsg_lem :
    (payload_size : ℕ) (xs : List ℕ) (m : Womim) (w : World)
    → w.heap w.wagon_to_send.womim ≡ some m
    → Fits m
    → m.size < 2 ^ 31
    → wagon_len m.bytes 0 + 5 + payload_size + prefix_size < 2 ^ 31
    → (w.wagon_max_len < payload_size) ⊎ (wagon_len m.bytes 0 + 5 + payload_size ≤ m.size)
    → must_wait w.wagon_max_len (wagon_len m.bytes 0) payload_size ≡ false
    → Laid m.bytes (wagon_len m.bytes 0) 7 xs
    → All (Whole m.bytes) xs
    → (v : World) × (m' : Womim) × (newmsg payload_size w ≡ ok (some (wagon_len m.bytes 0), v))
      × (v.heap w.wagon_to_send.womim ≡ some m')
      × (v.wagon_to_send ≡ record { womim = w.wagon_to_send.womim; wagon = 0 })
      × Extended w.wagon_to_send.womim m payload_size xs (wagon_len m.bytes 0) m'
unfolding newmsg newmsg_round malloc_wiw write_to_send write8 ◌>>=◌ pure get modify lift load store
    when◌then◌else◌
newmsg_lem payload_size xs m w h f small total room go laid whole =
    let (m1, did, a) = append_message_lem w.wagon_max_len payload_size m f small total room in
    let inside : leb (wagon_len m.bytes 0 + 4 + 1) m1.size ≡ true =
      ground (arith, a.fits.inside, a.longer) in
    let p = w.wagon_to_send.womim in
    (
      record w {
        counters = record (w.counters) { newmsg = u64 (w.counters.newmsg + 1) };
        heap = update (update w.heap p (some m1)) p (some (typed (wagon_len m.bytes 0) m1));
        wagon_to_send = record { womim = p; wagon = 0 };
      },
      typed (wagon_len m.bytes 0) m1,
      rw (h, load) (rw (go, h, load) (rw (did, ==_refl p, load) (rw (inside) refl))),
      rw (==_refl p) refl,
      refl,
      Extended-typed p m m1 payload_size xs f a whole laid,
    )

-- ===== src/Buffer/Room.antt =====
-- Whether the block of a wagon has room for the message that mallocWiw hands out.
use protocol_pfe.Base.{
  ℕ, ◌+◌, ◌^◌, ◌≤◌, ◌<◌, ◌≡◌, ◌⊎◌, inl, inr, true, false, ltb, Outcome, ok, and_then, ◌∙◌, refl,
  arith, Bool-cases,
}
use protocol_pfe.Memory.{put32, get32}
use protocol_pfe.Memory.Laws.{get32-put32, put32_outside, get32_cong}
use protocol_pfe.Wagon.{wagon_len, message_len}
use protocol_pfe.World.{Womim}
use protocol_pfe.Buffer.{prefix_size, as_int, grow, write32, append_message}

-- The wagon at the start of the block is at least its header and fits the block.
pub record Fits (m : Womim) : Type 0 where
  pub header : 7 ≤ wagon_len m.bytes 0
  pub inside : wagon_len m.bytes 0 ≤ m.size

-- After mallocWiw the wagon is longer by the header and the payload, the message's header holds
-- its length, the payload lies inside the block, and the counter and the bytes of the earlier
-- messages are kept.
pub record Appended (m : Womim) (payload_size mp : ℕ) (m' : Womim) : Type 0 where
  pub place : mp ≡ wagon_len m.bytes 0
  pub longer : wagon_len m'.bytes 0 ≡ wagon_len m.bytes 0 + 5 + payload_size
  pub its_len : message_len m'.bytes mp ≡ 5 + payload_size
  pub fits : Fits m'
  pub counter : m'.counter ≡ m.counter
  pub kept : (q : ℕ) → 4 ≤ q → q < wagon_len m.bytes 0 → m'.bytes q ≡ m.bytes q

write32-ok :
    (o v : ℕ) (m : Womim)
    → o + 4 ≤ m.size
    → write32 o v m ≡ ok (record m { bytes = put32 m.bytes o v })
unfolding write32
write32-ok o v m h = ground arith

-- The block after the two writes.
abbrev written : ℕ → ℕ → Womim → Womim
written len more m = record m { bytes = put32 (put32 m.bytes len more) 0 (len + more) }

module _ (m : Womim) (payload_size len : ℕ) (e : len ≡ wagon_len m.bytes 0) (header : 7 ≤ len)
    (room : len + 5 + payload_size ≤ m.size) (small : m.size < 2 ^ 32) where
  written-longer : wagon_len (written len (5 + payload_size) m).bytes 0 ≡ len + 5 + payload_size
  unfolding wagon_len
  written-longer = omega (
    arith,
    get32-put32 (put32 m.bytes len (5 + payload_size)) 0 (len + (5 + payload_size)) (omega arith),
  )

  written-its_len : message_len (written len (5 + payload_size) m).bytes len ≡ 5 + payload_size
  unfolding message_len
  written-its_len =
      get32_cong (written len (5 + payload_size) m).bytes (put32 m.bytes len (5 + payload_size)) len
        (λ q p r. put32_outside _ 0 _ q (inr (omega arith)))
      ∙ get32-put32 m.bytes len (5 + payload_size) (omega arith)

  written-kept : (q : ℕ) → 4 ≤ q → q < len → (written len (5 + payload_size) m).bytes q ≡ m.bytes q
  written-kept q p r =
      put32_outside (put32 m.bytes len (5 + payload_size)) 0 _ q (inr (omega arith))
      ∙ put32_outside m.bytes len _ q (inl r)

  writes-ok :
      ◌≡◌ {A = Outcome (ℕ × Womim)}
        (and_then
          (write32 len (5 + payload_size) m)
          (λ m2. and_then (write32 0 (len + (5 + payload_size)) m2) (λ m3. ok (len, m3))))
        (ok (len, written len (5 + payload_size) m))
  writes-ok = rw (write32-ok len (5 + payload_size) m (omega arith)) (
      rw (
        write32-ok 0 (len + (5 + payload_size))
          (record m { bytes = put32 m.bytes len (5 + payload_size) }) (omega arith)))

  written-Appended : Appended m payload_size len (written len (5 + payload_size) m)
  written-Appended = record {
    place = e;
    longer = rw (← e) written-longer;
    its_len = written-its_len;
    fits = record {
      header = omega (arith, written-longer);
      inside = omega (arith, written-longer);
    };
    counter = refl;
    kept = λ q p r. written-kept q p (rw e r);
  }

grown :
    (max payload_size : ℕ) (m : Womim)
    → Fits m
    → wagon_len m.bytes 0 + 5 + payload_size < 2 ^ 32
    → Appended m payload_size (wagon_len m.bytes 0) (
        written
          (wagon_len m.bytes 0)
          (5 + payload_size)
          (record m { size = wagon_len m.bytes 0 + 5 + payload_size }))
grown max payload_size m f total =
    let a =
      written-Appended (record m { size = wagon_len m.bytes 0 + 5 + payload_size }) payload_size
        (wagon_len m.bytes 0) refl f.header (omega arith) total in
    record {
      place = refl;
      longer = a.longer;
      its_len = a.its_len;
      fits = a.fits;
      counter = refl;
      kept = a.kept;
    }

as_int_lem : {A : Type 0} (n : ℕ) (a : A) → n < 2 ^ 31 → as_int n a ≡ ok a
unfolding as_int
as_int_lem n a h = ground arith

grow-big :
    (max payload_size : ℕ) (m : Womim)
    → ltb max payload_size ≡ true
    → wagon_len m.bytes 0 + 5 + payload_size + prefix_size < 2 ^ 31
    → grow max payload_size m ≡ ok (record m { size = wagon_len m.bytes 0 + 5 + payload_size })
unfolding grow
grow-big max payload_size m big total =
    rw big (as_int_lem (prefix_size + (wagon_len m.bytes 0 + 5 + payload_size)) _ (omega arith))

grow-not_big :
    (max payload_size : ℕ) (m : Womim)
    → ltb max payload_size ≡ false
    → grow max payload_size m ≡ ok m
unfolding grow
grow-not_big max payload_size m not_big = rw not_big refl

-- For a wagon that fits its block of less than 2^31 bytes, where the wagon with the new message
-- and the 48 bytes of the prefix stay below 2^31 bytes, and the payload is above wagonMaxLen or
-- the block has room for the message, mallocWiw succeeds: the message stands at the end of the
-- wagon with its length in its header, the wagon is longer by the header and the payload and
-- still fits its block, its counter stays, and the bytes from offset 4 up to the wagon's old end
-- are kept.
pub append_message_lem :
    (max payload_size : ℕ) (m : Womim)
    → Fits m
    → m.size < 2 ^ 31
    → wagon_len m.bytes 0 + 5 + payload_size + prefix_size < 2 ^ 31
    → (max < payload_size) ⊎ (wagon_len m.bytes 0 + 5 + payload_size ≤ m.size)
    → (m' : Womim) × (append_message max payload_size m ≡ ok (wagon_len m.bytes 0, m'))
      × Appended m payload_size (wagon_len m.bytes 0) m'
unfolding append_message
append_message_lem max payload_size m f small total room =
    let len = wagon_len m.bytes 0 in
    let low : len + 5 + payload_size < 2 ^ 31 = omega arith in
    elim (Bool-cases (ltb max payload_size)) [
      | inl big ↦
          let m1 : Womim = record m { size = len + 5 + payload_size } in
          (
            written len (5 + payload_size) m1,
            rw (grow-big max payload_size m big total) (
                rw (as_int_lem (len + 5 + payload_size) m1 low)
                  (writes-ok m1 payload_size len refl f.header (omega arith) (omega arith))),
            grown max payload_size m f (omega arith),
          )
      | inr not_big ↦
          let fits : len + 5 + payload_size ≤ m.size = ground arith in
          (
            written len (5 + payload_size) m,
            rw (grow-not_big max payload_size m not_big) (
                rw (as_int_lem (len + 5 + payload_size) m low)
                  (writes-ok m payload_size len refl f.header fits (omega arith))),
            written-Appended m payload_size len refl f.header fits (omega arith),
          )
    ]

-- In a block of wagonMaxLen bytes (at least 11) with an empty wagon, a payload of at most
-- wagonMaxLen bytes and more than wagonMaxLen - 12, with which the wagon's length stays below
-- 2^31, makes mallocWiw hand out a message whose wagon ends past the end of its block.
pub append_message_overflows :
    (max payload_size : ℕ) (m : Womim)
    → m.size ≡ max
    → wagon_len m.bytes 0 ≡ 7
    → payload_size ≤ max
    → max < payload_size + 12
    → 11 ≤ max
    → payload_size + 12 < 2 ^ 31
    → (m' : Womim) × (append_message max payload_size m ≡ ok (7, m'))
      × (wagon_len m'.bytes 0 ≡ 12 + payload_size)
      × (m'.size < wagon_len m'.bytes 0)
unfolding append_message wagon_len
append_message_overflows max payload_size m sz e p q low r =
    let not_big : ltb max payload_size ≡ false = ground arith in
    let len : get32 (put32 (put32 m.bytes 7 (5 + payload_size)) 0 (7 + (5 + payload_size))) 0
        ≡ 12 + payload_size =
      omega (
        arith,
        get32-put32 (put32 m.bytes 7 (5 + payload_size)) 0 (7 + (5 + payload_size)) (omega arith),
      ) in
    (
      written 7 (5 + payload_size) m,
      rw (grow-not_big max payload_size m not_big) (
          rw e (
            rw (as_int_lem (7 + 5 + payload_size) m (omega arith)) (
              rw (write32-ok 7 (5 + payload_size) m (omega arith)) (
                rw (
                  write32-ok 0 (7 + (5 + payload_size))
                    (record m { bytes = put32 m.bytes 7 (5 + payload_size) }) (omega arith)))))),
      len,
      omega (arith, len),
    )

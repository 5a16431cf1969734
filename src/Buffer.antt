-- ===== src/Buffer.antt =====
-- newWiw, mallocWiw, releaseWiw, freeWiw and freeWomim of src/advanced_struct.c. A womim's block
-- is read and written whole, by functions of the womim.
pub mod Room
pub mod Count
pub mod Tests
pub mod Keeps
use protocol_pfe.Base.{
  ℕ, ◌+◌, ◌-◌, ◌%◌, ◌^◌, Bool, true, false, Option, none, some, ltb, leb, ◌==◌, if◌then◌else◌,
  Outcome, ok, exited, fault, and_then,
}
use protocol_pfe.Address.{Address}
use protocol_pfe.Memory.{put8, put16, put32}
use protocol_pfe.Wagon.{wagon_len, wagon_header_size, message_header_size}
use protocol_pfe.World.{Ptr, null, Womim, Wiw, World, Env}
use protocol_pfe.World.Run.{
  when◌then◌else◌, M, pure, ◌>>=◌, ◌>>◌, get, modify, exit, lift, load, store,
}

-- Writes inside the block; a write past its end is a fault.
unfoldable pub write8 : ℕ → ℕ → Womim → Outcome Womim
write8 o v m = if leb (o + 1) m.size then ok (record m { bytes = put8 m.bytes o v }) else fault

unfoldable pub write16 : ℕ → ℕ → Womim → Outcome Womim
write16 o v m = if leb (o + 2) m.size then ok (record m { bytes = put16 m.bytes o v }) else fault

unfoldable pub write32 : ℕ → ℕ → Womim → Outcome Womim
write32 o v m = if leb (o + 4) m.size then ok (record m { bytes = put32 m.bytes o v }) else fault

-- The counter is an `int`, kept as its bit pattern.
unfoldable pub increment : Womim → Womim
increment m = record m { counter = (m.counter + 1) % 2 ^ 32 }

unfoldable pub decrement : Womim → Womim
decrement m = record m { counter = (m.counter + 2 ^ 32 - 1) % 2 ^ 32 }

-- The three writes of newWiw to the header of the empty wagon.
unfoldable pub empty_wagon : Address → Womim → Outcome Womim
empty_wagon my_address m =
    and_then (write32 0 wagon_header_size m)
      (λ m1. and_then (write16 4 my_address m1) (λ m2. write8 6 0 m2))

unfoldable pub new_wiw : Env → M Wiw
new_wiw env = do
  w ← get
  let p = env.malloc w.allocations
  modify (λ v. record v { allocations = v.allocations + 1 })
  when p == null then exit else do
    m ← lift (
        empty_wagon w.my_address
          (record { counter = 1; size = w.wagon_max_len; bytes = env.garbage w.allocations }))
    store p (some m)
    pure (record { womim = p; wagon = 0 })

-- sizeof(prefix): a pthread_mutex_t of 40 bytes and an int, with the padding.
abbrev pub prefix_size : ℕ
prefix_size = 48

-- A length that fits an `int`. A longer one overflows, which is undefined: a fault.
unfoldable pub as_int : {A : Type 0} → ℕ → A → Outcome A
as_int n a = if ltb n (2 ^ 31) then ok a else fault

-- The `realloc` of mallocWiw: the block gets the size of the wagon with one more message, and the
-- length that is asked for, with the prefix, is an `int`.
unfoldable pub grow : ℕ → ℕ → Womim → Outcome Womim
grow wagon_max_len payload_size m =
    let size = wagon_len m.bytes 0 + message_header_size + payload_size in
    if ltb wagon_max_len payload_size
    then as_int (prefix_size + size) (record m { size = size })
    else ok m

-- The new block and the offset of the message in it. The wagon's new length is an `int`.
unfoldable pub append_message : ℕ → ℕ → Womim → Outcome (ℕ × Womim)
append_message wagon_max_len payload_size m =
    let len = wagon_len m.bytes 0 in
    and_then (grow wagon_max_len payload_size m) (λ m1.
      and_then (as_int (len + message_header_size + payload_size) m1) (λ m1.
        and_then (write32 len (message_header_size + payload_size) m1) (λ m2.
          and_then (write32 0 (len + (message_header_size + payload_size)) m2)
            (λ m3. ok (len, m3)))))

unfoldable pub malloc_wiw : ℕ → M ℕ
malloc_wiw payload_size = do
  w ← get
  m ← load w.wagon_to_send.womim
  (mp, m') ← lift (append_message w.wagon_max_len payload_size m)
  store w.wagon_to_send.womim (some m')
  modify (λ v. record v { wagon_to_send = record { womim = v.wagon_to_send.womim; wagon = 0 } })
  pure mp

-- `counter--`, and `free` where that makes it 0.
unfoldable pub free_womim : Ptr → M (Unit {0})
free_womim p = do
  m ← load p
  let m' = decrement m
  store p (if m'.counter == 0 then none else some m')

-- releaseWiw does so for a `wiw` that is not NULL; its caller forgets the pointers. freeWiw is
-- releaseWiw and a `free` of the `wiw` itself, which is a value here.
unfoldable pub release_wiw : Option Wiw → M (Unit {0})
release_wiw none = pure tt
release_wiw (some ww) = free_womim ww.womim

-- `counter++`.
unfoldable pub retain : Ptr → M (Unit {0})
retain p = do m ← load p; store p (some (increment m))

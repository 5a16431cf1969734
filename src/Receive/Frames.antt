-- ===== src/Receive/Frames.antt =====
-- The messages of newMsg and the trains of sendTrain, written to a connection and received from it.
use protocol_pfe.Base.{
  ℕ, zero, suc, ◌+◌, ◌%◌, ◌^◌, ◌<◌, ◌≡◌, refl, ap, ◌∙◌, true, false, some, inr, List, [], ◌∷◌, ◌++◌,
  length, append_assoc, ltb, ◌==◌, ok, arith, get_elem?,
}
use protocol_pfe.Address.{Address}
use protocol_pfe.Memory.{get16}
use protocol_pfe.Memory.Laws.{get32-put32, put32_outside}
use protocol_pfe.Wagon.{
  msg_len, msg_type, msg_sender, train_id, train_lc, train_round, train_circuit, train_type,
  train_header_size,
}
use protocol_pfe.World.{Womim, Lts}
use protocol_pfe.Link.{Link}
use protocol_pfe.Link.Fully.{Calm}
use protocol_pfe.Connect.{new_msg, msg_bytes, bytes_of, train_header}
use protocol_pfe.Receive.{zeroed, received, read_message}
use protocol_pfe.Receive.Wire.{length-bytes_of, read_message_lem}

received-msg_len : (len : ℕ) (xs : List ℕ) → len < 2 ^ 32 → msg_len (received len xs).bytes ≡ len
unfolding msg_len received
received-msg_len len xs h = get32-put32 _ 0 len h

zeroed-get_elem? : (xs : List ℕ) (i x : ℕ) → get_elem? i xs ≡ some x → zeroed xs i ≡ x
unfolding zeroed
zeroed-get_elem? [] zero x e = absurd (cc e)
zeroed-get_elem? [] (suc i) x e = absurd (cc e)
zeroed-get_elem? (y ∷ xs) zero x e = cc e
zeroed-get_elem? (y ∷ xs) (suc i) x e = zeroed-get_elem? xs i x e

-- A byte behind the length.
received_at :
    (len i : ℕ) (xs : List ℕ) → (received len xs).bytes (suc (suc (suc (suc i)))) ≡ zeroed xs i
unfolding received zeroed
received_at len i xs = put32_outside _ 0 len (suc (suc (suc (suc i)))) (inr (omega arith)) ∙ refl

-- A message with a sender.
abbrev frame : ℕ → Address → List ℕ
frame t ad = t % 256 ∷ bytes_of 2 ad

sent :
    (t : ℕ) (ad : Address) → 1 < t → t < 8 → msg_bytes (new_msg t ad) ≡ bytes_of 4 7 ++ frame t ad
unfolding msg_bytes new_msg
sent t ad low high =
    let not_default : (t == 0) ≡ false = ground arith in
    let not_train : (t == 1) ≡ false = ground arith in
    let known : ltb t 8 ≡ true = ground arith in rw (not_default, not_train, known) refl

-- After the read, `m` is a message of the type `t` from `ad`, in a block of its own length.
pub record Message (t : ℕ) (ad : Address) (m : Womim) : Type 0 where
  pub len : msg_len m.bytes ≡ 7
  pub size : m.size ≡ 7
  pub type : msg_type m.bytes ≡ t
  pub sender : msg_sender m.bytes ≡ ad

frame-Message :
    (t : ℕ) (ad : Address) → t < 8 → ad < 2 ^ 16 → Message t ad (received 7 (frame t ad))
unfolding msg_type msg_sender get16 received bytes_of zeroed
frame-Message t ad ht ha = record {
  len = received-msg_len 7 (frame t ad) (omega arith);
  size = refl;
  type = omega (arith, received_at 7 0 (frame t ad));
  sender = omega (arith, received_at 7 1 (frame t ad), received_at 7 2 (frame t ad));
}

-- Where the bytes that have come are those that sendOther writes for a message with a sender
-- below 2^16, and then `more`, on a connection that is not aborted and whose next calls of read,
-- at least one for each of its 7 bytes, move bytes or are interrupted without an abort, the first
-- part of receive returns a block of 7 bytes with the length, the type and the sender of the
-- message, and leaves `more` and the other calls.
pub read-new_msg :
    (t : ℕ) (ad : Address) (more : List ℕ) (extra : ℕ) (l : Link)
    → 1 < t
    → t < 8
    → ad < 2 ^ 16
    → l.input ≡ msg_bytes (new_msg t ad) ++ more
    → Calm (7 + extra) l.turns
    → l.aborted ≡ false
    → (l' : Link) × (m : Womim) × (read_message l ≡ ok (some m, l'))
      × Message t ad m
      × (l'.input ≡ more)
      × (l'.aborted ≡ false)
      × Calm extra l'.turns
read-new_msg t ad more extra l low high small input calm running =
    let e =
      input
      ∙ ap (λ xs. xs ++ more) (sent t ad low high)
      ∙ append_assoc (bytes_of 4 7) (frame t ad) more in
    let (l', r) =
      read_message_lem 7 (frame t ad) more extra l (omega (arith, length-bytes_of 2 ad))
        (omega arith) (omega arith) e calm running in
    (l', received 7 (frame t ad), r.ran, frame-Message t ad high small, r.rest, r.running, r.calm)

-- The bytes of a train behind its length.
abbrev train_frame : Lts → List ℕ → List ℕ
train_frame t ws =
    train_type ∷ t.stamp_id % 256 ∷ t.stamp_lc % 256 ∷ t.stamp_round % 256 ∷ bytes_of 2 t.circuit
    ++ ws

-- After the read, `m` is the train of `t` with the wagons `ws`, in a block of its own length.
pub record Train (t : Lts) (ws : List ℕ) (m : Womim) : Type 0 where
  pub len : msg_len m.bytes ≡ 10 + length ws
  pub size : m.size ≡ 10 + length ws
  pub type : msg_type m.bytes ≡ train_type
  pub id : train_id m.bytes ≡ t.stamp_id
  pub lc : train_lc m.bytes ≡ t.stamp_lc
  pub round : train_round m.bytes ≡ t.stamp_round
  pub circuit : train_circuit m.bytes ≡ t.circuit
  pub wagons : (i x : ℕ) → get_elem? i ws ≡ some x → m.bytes (10 + i) ≡ x

-- The fields of the header fit their places.
pub record Small (t : Lts) : Type 0 where
  pub id : t.stamp_id < 256
  pub lc : t.stamp_lc < 256
  pub round : t.stamp_round < 256
  pub circuit : t.circuit < 2 ^ 16

wagon_bytes_at :
    (t : Lts) (ws : List ℕ) (len i x : ℕ)
    → get_elem? i ws ≡ some x
    → (received len (train_frame t ws)).bytes (10 + i) ≡ x
unfolding bytes_of
wagon_bytes_at t ws len i x e =
    let j : 10 + i ≡ suc (suc (suc (suc (suc (suc (suc (suc (suc (suc i))))))))) = omega arith in
    rw j (
      received_at len (suc (suc (suc (suc (suc (suc i)))))) (train_frame t ws)
      ∙ zeroed-get_elem? (train_frame t ws) (suc (suc (suc (suc (suc (suc i)))))) x e)

frame-Train :
    (t : Lts) (ws : List ℕ)
    → Small t
    → 10 + length ws < 2 ^ 31
    → Train t ws (received (10 + length ws) (train_frame t ws))
unfolding msg_type train_id train_lc train_round train_circuit get16 received bytes_of zeroed
frame-Train t ws s small =
    let n = 10 + length ws in
    record {
      len = received-msg_len n (train_frame t ws) (omega arith);
      size = refl;
      type = received_at n 0 (train_frame t ws);
      id = omega (arith, received_at n 1 (train_frame t ws), s.id);
      lc = omega (arith, received_at n 2 (train_frame t ws), s.lc);
      round = omega (arith, received_at n 3 (train_frame t ws), s.round);
      circuit = omega (
        arith,
        received_at n 4 (train_frame t ws),
        received_at n 5 (train_frame t ws),
        s.circuit,
      );
      wagons = wagon_bytes_at t ws n;
    }

-- Where the bytes that have come are the header that sendTrain writes for an ltsStruct whose
-- fields fit their places, then wagons `ws` (less than 2^31 bytes with the header) and then
-- `more`, on a connection that is not aborted and whose next calls of read, at least one for each
-- byte of the train, move bytes or are interrupted without an abort, the first part of receive
-- returns a block of the train's length with the type, the stamp, the circuit and the bytes of
-- the wagons, and leaves `more` and the other calls.
pub read-train_header :
    (t : Lts) (ws more : List ℕ) (extra : ℕ) (l : Link)
    → Small t
    → 10 + length ws < 2 ^ 31
    → l.input ≡ train_header t (train_header_size + length ws) ++ (ws ++ more)
    → Calm (10 + length ws + extra) l.turns
    → l.aborted ≡ false
    → (l' : Link) × (m : Womim) × (read_message l ≡ ok (some m, l'))
      × Train t ws m
      × (l'.input ≡ more)
      × (l'.aborted ≡ false)
      × Calm extra l'.turns
unfolding train_header bytes_of
read-train_header t ws more extra l s small input calm running =
    let n = 10 + length ws in
    let e : l.input ≡ bytes_of 4 n ++ (train_frame t ws ++ more) = input in
    let (l', r) =
      read_message_lem n (train_frame t ws) more extra l (omega (arith)) (omega arith) small e calm
        running in
    (l', received n (train_frame t ws), r.ran, frame-Train t ws s small, r.rest, r.running, r.calm)

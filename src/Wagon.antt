-- ===== src/Wagon.antt =====
-- src/wagon.c, firstWagon of src/msg.c, nextWagon of src/advanced_struct.c, and the layout of
-- wagons and messages. A pointer to a wagon is its offset from the start of the `union` of its
-- womim, a pointer to a message is its offset from the start of its wagon's womim too.
use protocol_pfe.Base.{
  ℕ, ◌+◌, Option, none, some, leb, ltb, ◌==◌, if◌then◌else◌, Outcome, ok, exited, fault, and_then,
  ◌-◌, ◌^◌, ◌||◌,
}
use protocol_pfe.Memory.{Bytes, get16, get32}

-- sizeof(wagonHeader), sizeof(messageHeader), and the bytes of a Msg before its wagons:
-- sizeof(int) + sizeof(MType) + sizeof(stamp) + sizeof(addressSet).
abbrev pub wagon_header_size : ℕ
wagon_header_size = 7

abbrev pub message_header_size : ℕ
message_header_size = 5

abbrev pub train_header_size : ℕ
train_header_size = 10

-- wagonHeader. The length is an `int`, kept as its bit pattern: from 2^31 on it is negative.
unfoldable pub wagon_len : Bytes → ℕ → ℕ
wagon_len b w = get32 b w

unfoldable pub wagon_sender : Bytes → ℕ → ℕ
wagon_sender b w = get16 b (w + 4)

unfoldable pub wagon_round : Bytes → ℕ → ℕ
wagon_round b w = b (w + 6)

-- messageHeader
unfoldable pub message_len : Bytes → ℕ → ℕ
message_len b mp = get32 b mp

unfoldable pub message_typ : Bytes → ℕ → ℕ
message_typ b mp = b (mp + 4)

-- firstMsg: NULL when the wagon is only its header.
unfoldable pub first_msg : Bytes → ℕ → Option ℕ
first_msg b w = if wagon_len b w == wagon_header_size then none else some (w + wagon_header_size)

unfoldable pub next_msg : Bytes → ℕ → ℕ → Option ℕ
next_msg b w mp =
    let mp2 = mp + message_len b mp in if leb (w + wagon_len b w) mp2 then none else some mp2

-- The fields of a Msg.
unfoldable pub msg_len : Bytes → ℕ
msg_len b = get32 b 0

unfoldable pub msg_type : Bytes → ℕ
msg_type b = b 4

unfoldable pub msg_sender : Bytes → ℕ
msg_sender b = get16 b 5

unfoldable pub train_id : Bytes → ℕ
train_id b = b 5

unfoldable pub train_lc : Bytes → ℕ
train_lc b = b 6

unfoldable pub train_round : Bytes → ℕ
train_round b = b 7

unfoldable pub train_circuit : Bytes → ℕ
train_circuit b = get16 b 8

-- The values of MType.
abbrev pub default_type : ℕ
default_type = 0

abbrev pub train_type : ℕ
train_type = 1

abbrev pub insert_type : ℕ
insert_type = 2

abbrev pub ack_insert_type : ℕ
ack_insert_type = 3

abbrev pub nak_insert_type : ℕ
nak_insert_type = 4

abbrev pub disconnect_pred_type : ℕ
disconnect_pred_type = 5

abbrev pub disconnect_succ_type : ℕ
disconnect_succ_type = 6

abbrev pub newsucc_type : ℕ
newsucc_type = 7

-- firstWagon, which ends the process on a Msg that is no train.
unfoldable pub first_wagon : Bytes → Outcome (Option ℕ)
first_wagon b =
    if msg_type b == train_type
    then ok (if ltb train_header_size (msg_len b) then some train_header_size else none)
    else exited

-- The place behind a wagon. The length is an `int`: a negative one leads back, and in front of the
-- womim there is nothing to read.
unfoldable pub wagon_end : Bytes → ℕ → Outcome ℕ
wagon_end b w =
    if ltb (wagon_len b w) (2 ^ 31)
    then ok (w + wagon_len b w)
    else if leb (2 ^ 32) (w + wagon_len b w)
    then ok (w + wagon_len b w - 2 ^ 32)
    else fault

-- nextWagon. The length of the Msg is an `int` too: a negative one is less than any place.
unfoldable pub next_wagon : Bytes → ℕ → Outcome (Option ℕ)
next_wagon b w =
    and_then (wagon_end b w)
      (λ w2. ok (if leb (2 ^ 31) (msg_len b) || leb (msg_len b) w2 then none else some w2))

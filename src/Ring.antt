-- ===== src/Ring.antt =====
-- protocol_tcp/main.c: broadcast on a ring of TCP connections. Process 0, the leader, numbers the
-- messages by acks that follow them round the ring; a process delivers a message when it knows
-- from the acks in later messages that all the processes have it.
pub mod Opening
pub mod OpeningTests
pub mod Acks
pub mod Leader
pub mod Follower
pub mod Agreement
pub mod Start
pub mod Aside
pub mod Runs
pub mod Tests
use protocol_pfe.Base.{
  ℕ, zero, suc, ◌+◌, ◌-◌, ◌%◌, ◌^◌, Bool, true, false, not, ◌&&◌, Option, none, some, List, [], ◌∷◌,
  ◌++◌, ◌==◌, ltb, leb, if◌then◌else◌, bit_and, Outcome, ok, fault, and_then,
}
use protocol_pfe.World.{Ptr}
use protocol_pfe.Vector.{VectorLib}
use protocol_pfe.Order.{Log, clear_bit}
use protocol_pfe.Books.{Books, update_books, save_acked, save_unacked, move_acked, dequeue}

-- MAX_NODES
abbrev pub max_nodes : ℕ
max_nodes = 5

-- `bcast`. startMiliSeconds and the payload are not looked at. A bcast is not changed once it has
-- been received or prepared, so it is a value.
pub record Bcast : Type 0 where
  pub len : ℕ
  pub id_process : ℕ
  pub seq : ℕ
  pub ack : ℕ

-- `ack`
pub record Ack : Type 0 where
  pub id_process : ℕ
  pub seq : ℕ
  pub rev_num : ℕ

-- `msg`, by its type: 'b', 'a', 'y', 'n', and any other.
pub data Packet : Type 0 where
  bcast : Bcast → Packet
  ack : Ack → Packet
  start : Packet
  stop : Packet
  other : ℕ → Packet

-- `counters`, without delivered_latency.
pub record Delivery : Type 0 where
  pub messages_delivered : ℕ
  pub messages_bytes_delivered : ℕ
  pub messages_delivered_mesure : ℕ
  pub messages_bytes_delivered_mesure : ℕ

-- The global variables. `sent` is what has been sent to the successor, the oldest first; `posted`
-- counts sem_post(&my_sem), and `finished` is set where the thread of process_msg ends.
pub record Node (V : VectorLib) : Type 0 where
  pub self_id : ℕ
  pub total_size : ℕ
  pub seq_num : ℕ
  pub ack_num : ℕ
  pub books : Books V Bcast
  pub started : Bool
  pub mesurement_started : Bool
  pub counters : Delivery
  pub posted : ℕ
  pub finished : Bool
  pub sent : List Packet

-- offsetof(bcast, startMiliSeconds)
abbrev pub len_head_bcast : ℕ
len_head_bcast = 15

-- get_predecessor and get_pre_predecessor, on a ring of `num_nodes`.
unfoldable pub get_predecessor : ℕ → ℕ → ℕ
get_predecessor num_nodes id = if id == 0 then num_nodes - 1 else id - 1

unfoldable pub get_pre_predecessor : ℕ → ℕ → ℕ
get_pre_predecessor num_nodes id =
    let predecessor = get_predecessor num_nodes id in
    if predecessor == 0 then num_nodes - 1 else predecessor - 1

-- conf_bits = ((1 << num_nodes) - 1) & ~(1 << self_id)
unfoldable pub initial_bits : ℕ → ℕ → ℕ
initial_bits num_nodes self_id = clear_bit (2 ^ num_nodes - 1) self_id

module _ (V : VectorLib) where
  -- send(successor_sid, ...)
  unfoldable pub send : Packet → Node V → Node V
  send m n = record n { sent = n.sent ++ m ∷ [] }

  -- The process that initialize makes.
  unfoldable pub initial_node : ℕ → ℕ → ℕ → Node V
  initial_node self_id num_nodes total_size = record {
    self_id = self_id;
    total_size = total_size;
    seq_num = 0;
    ack_num = 0;
    books = record {
      num_nodes = num_nodes;
      conf_bits = initial_bits num_nodes self_id;
      vector_no_ack = λ i. if ltb i num_nodes then some (V.create_vector 5000) else none;
      log = record {
        vector_ack = V.create_vector 5000;
        infos = λ p. none;
        delivery_queue = [];
        highest_delivered = 0;
      };
      delivered = [];
    };
    started = false;
    mesurement_started = false;
    counters = record {
      messages_delivered = 0;
      messages_bytes_delivered = 0;
      messages_delivered_mesure = 0;
      messages_bytes_delivered_mesure = 0;
    };
    posted = 0;
    finished = false;
    sent = [];
  }

  -- With more than MAX_NODES processes, vector_no_ack is written behind its end.
  unfoldable pub initialize : ℕ → ℕ → ℕ → Outcome (Node V)
  initialize self_id num_nodes total_size =
      if leb num_nodes max_nodes then ok (initial_node self_id num_nodes total_size) else fault

  -- prepare_msg
  unfoldable pub prepare_msg : Node V → Bcast
  prepare_msg n = record {
    len = n.total_size;
    id_process = n.self_id;
    seq = n.seq_num;
    ack = n.ack_num;
  }

  -- prepare_ack
  unfoldable pub prepare_ack : Bcast → ℕ → Ack
  prepare_ack b rev = record { id_process = b.id_process; seq = b.seq; rev_num = rev }

  unfoldable pub with_books : Outcome (Books V Bcast) → Node V → Outcome (Node V)
  with_books r n = and_then r (λ k. ok (record n { books = k }))

  -- `i + highestDelivered <= ack_tmp`
  unfoldable pub update_vector : Bcast → Node V → Outcome (Node V)
  update_vector b n = with_books (update_books V (λ rank. leb rank b.ack) b.id_process n.books) n

  -- `p` is what malloc returns for the msg_info.
  unfoldable pub save_msg_in_vector_ack : Ptr → Bcast → Node V → Outcome (Node V)
  save_msg_in_vector_ack p b n = with_books (save_acked V p b n.books) n

  unfoldable pub save_msg_in_vector_no_ack : Bcast → Node V → Outcome (Node V)
  save_msg_in_vector_no_ack b n = with_books (save_unacked V b.id_process b n.books) n

  unfoldable pub move_msg_in_vector_ack : Ptr → Ack → Node V → Outcome (Node V)
  move_msg_in_vector_ack p a n = with_books (move_acked V p a.id_process n.books) n

  -- What the leader does after it has put a message into its order: ack_num++, and the ack is sent.
  unfoldable pub acknowledge : Bcast → Node V → Node V
  acknowledge b n =
      let rev = n.ack_num + 1 in send (ack (prepare_ack b rev)) (record n { ack_num = rev })

  -- transfer_msg, unless this process is the predecessor of the sender.
  unfoldable pub forward_msg : Bcast → Node V → Node V
  forward_msg b n =
      if n.self_id == get_predecessor n.books.num_nodes b.id_process then n else send (bcast b) n

  unfoldable pub handle_msg : Ptr → Bcast → Node V → Outcome (Node V)
  handle_msg p b n = and_then (update_vector b (forward_msg b n)) (λ n1.
      if n1.self_id == 0
      then and_then (save_msg_in_vector_ack p b n1) (λ n2. ok (acknowledge b n2))
      else save_msg_in_vector_no_ack b n1)

  -- transfer_ack, unless the successor is the leader.
  unfoldable pub forward_ack : Ack → Node V → Node V
  forward_ack a n = if (n.self_id + 1) % n.books.num_nodes == 0 then n else send (ack a) n

  unfoldable pub handle_ack : Ptr → Ack → Node V → Outcome (Node V)
  handle_ack p a n =
      if n.self_id == 0
      then ok n
      else and_then (move_msg_in_vector_ack p a n)
          (λ n1. ok (forward_ack a (record n1 { ack_num = a.rev_num })))

  -- The body of the loop of send_msg.
  unfoldable pub send_msg : Ptr → Node V → Outcome (Node V)
  send_msg p n =
      let n1 = record n { seq_num = n.seq_num + 1 } in
      let b = prepare_msg n1 in
      let n2 = send (bcast b) n1 in
      if n.self_id == 0
      then and_then (save_msg_in_vector_ack p b n2)
          (λ n3. and_then (update_vector b n3) (λ n4. ok (acknowledge b n4)))
      else save_msg_in_vector_no_ack b n2

  -- The case 'y' of process_msg; start_leader sends it on.
  unfoldable pub on_start : Node V → Node V
  on_start n = if n.started then n else record (if n.self_id == 0 then n else send start n) {
    posted = n.posted + 1;
    started = true;
  }

  -- The case 'n'; stop_leader sends it on, and the thread ends.
  unfoldable pub on_stop : Node V → Node V
  on_stop n = record (if n.self_id == 0 then n else send stop n) { finished = true }

  -- The `switch` of process_msg.
  unfoldable pub process_msg : Ptr → Packet → Node V → Outcome (Node V)
  process_msg p (bcast b) n = handle_msg p b n
  process_msg p (ack a) n = handle_ack p a n
  process_msg p start n = ok (on_start n)
  process_msg p stop n = ok (on_stop n)
  process_msg p (other t) n = ok n

  -- The counters of deliver_msg.
  unfoldable pub count_delivery : Bcast → Node V → Delivery
  count_delivery b n =
      let size = b.len - len_head_bcast in
      let own =
        if b.id_process == n.self_id
        then record (n.counters) {
          messages_delivered_mesure = n.counters.messages_delivered_mesure + 1;
          messages_bytes_delivered_mesure = n.counters.messages_bytes_delivered_mesure + size;
        }
        else n.counters in
      if n.mesurement_started
      then record own {
        messages_delivered = own.messages_delivered + 1;
        messages_bytes_delivered = own.messages_bytes_delivered + size;
      }
      else n.counters

  unfoldable pub count : Option Bcast → Node V → Node V
  count none n = n
  count (some b) n = record n { counters = count_delivery b n }

  -- A round of deliver_msg; it waits where the queue is empty.
  unfoldable pub deliver_msg : Node V → Outcome (Node V)
  deliver_msg n = and_then (dequeue V n.books) (λ r. ok (count r.0 (record n { books = r.1 })))

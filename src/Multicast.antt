-- ===== src/Multicast.antt =====
-- protocol_udp/mainUDP.c: broadcast by UDP multicast. Process 0, the leader, acks each message, and
-- the others take the order of its acks. The leader starts the test once each process has
-- answered it.
pub mod Acks
pub mod Leader
pub mod Follower
pub mod Agreement
pub mod Begin
pub mod Aside
pub mod Runs
pub mod Prepare
pub mod Tests
use protocol_pfe.Base.{
  ℕ, ◌+◌, ◌-◌, ◌^◌, Bool, true, false, Option, none, some, List, [], ◌∷◌, ◌++◌, ◌==◌, ltb, leb,
  if◌then◌else◌, Outcome, ok, fault, and_then,
}
use protocol_pfe.World.{Ptr}
use protocol_pfe.Vector.{VectorLib}
use protocol_pfe.Order.{Log, clear_bit}
use protocol_pfe.Books.{Books, update_books, save_acked, save_unacked, move_acked, dequeue}

-- MAX_NODES
abbrev pub max_nodes : ℕ
max_nodes = 5

-- `mcast`. startMiliSeconds and the payload are not looked at; a message is not changed once it has
-- been received.
pub record Mcast : Type 0 where
  pub id_process : ℕ
  pub seq : ℕ
  pub ack : ℕ

-- `ack`
pub record Ack : Type 0 where
  pub id_process : ℕ
  pub seq : ℕ
  pub rev_num : ℕ

-- A datagram, by its first character: 'm', 'a', 'y', 'z', 'n', 'c', and any other. After 'z' stands
-- the number of the process.
pub data Packet : Type 0 where
  mcast : Mcast → Packet
  ack : Ack → Packet
  start : Packet
  prepared : ℕ → Packet
  stop : Packet
  go : Packet
  other : ℕ → Packet

-- `counters`, without delivered_latency.
pub record Delivery : Type 0 where
  pub messages_delivered : ℕ
  pub messages_bytes_delivered : ℕ
  pub messages_delivered_mesure : ℕ
  pub messages_bytes_delivered_mesure : ℕ

-- The global variables. `sent` is what has been sent to the group, the oldest first; `posted`
-- counts sem_post(&my_sem), and `finished` is set where the thread of process_msg ends.
pub record Node (V : VectorLib) : Type 0 where
  pub self_id : ℕ
  pub total_size : ℕ
  pub seq_num : ℕ
  pub ack_num : ℕ
  pub prep_bits : ℕ
  pub books : Books V Mcast
  pub test_started : Bool
  pub mesurement_started : Bool
  pub counters : Delivery
  pub posted : ℕ
  pub finished : Bool
  pub sent : List Packet

-- offsetof(mcast, startMiliSeconds)
abbrev pub len_head_mcast : ℕ
len_head_mcast = 11

module _ (V : VectorLib) where
  -- sendto(self_sid, ..., &mc_addr, ...)
  unfoldable pub send : Packet → Node V → Node V
  send m n = record n { sent = n.sent ++ m ∷ [] }

  -- The process that initialize makes.
  unfoldable pub initial_node : ℕ → ℕ → ℕ → Node V
  initial_node self_id num_nodes total_size = record {
    self_id = self_id;
    total_size = total_size;
    seq_num = 0;
    ack_num = 0;
    prep_bits = clear_bit (2 ^ num_nodes - 1) self_id;
    books = record {
      num_nodes = num_nodes;
      conf_bits = 2 ^ num_nodes - 1;
      vector_no_ack = λ i. if ltb i num_nodes then some (V.create_vector 5000) else none;
      log = record {
        vector_ack = V.create_vector 5000;
        infos = λ p. none;
        delivery_queue = [];
        highest_delivered = 0;
      };
      delivered = [];
    };
    test_started = false;
    mesurement_started = false;
    counters = record {
      messages_delivered = 0;
      messages_bytes_delivered = 0;
      messages_delivered_mesure = 0;
      messages_bytes_delivered_mesure = 0;
    };
    posted = 0;
    finished = false;
    sent = [];
  }

  -- With more than MAX_NODES processes, vector_no_ack is written behind its end.
  unfoldable pub initialize : ℕ → ℕ → ℕ → Outcome (Node V)
  initialize self_id num_nodes total_size =
      if leb num_nodes max_nodes then ok (initial_node self_id num_nodes total_size) else fault

  unfoldable pub update_prepare_bits : ℕ → Node V → Node V
  update_prepare_bits id n = record n { prep_bits = clear_bit n.prep_bits id }

  unfoldable pub prepare_msg : Node V → Mcast
  prepare_msg n = record { id_process = n.self_id; seq = n.seq_num; ack = n.ack_num }

  unfoldable pub prepare_ack : Mcast → ℕ → Ack
  prepare_ack b rev = record { id_process = b.id_process; seq = b.seq; rev_num = rev }

  unfoldable pub with_books : Outcome (Books V Mcast) → Node V → Outcome (Node V)
  with_books r n = and_then r (λ k. ok (record n { books = k }))

  -- `p` is what malloc returns for the msg_info.
  unfoldable pub save_msg_in_vector_ack : Ptr → Mcast → Node V → Outcome (Node V)
  save_msg_in_vector_ack p b n = with_books (save_acked V p b n.books) n

  -- `i + highestDelivered <= ack_tmp`
  unfoldable pub update_vector : Mcast → Node V → Outcome (Node V)
  update_vector b n = with_books (update_books V (λ rank. leb rank b.ack) b.id_process n.books) n

  -- `i + highestDelivered < ack_tmp`
  unfoldable pub update_vector_1 : Mcast → Node V → Outcome (Node V)
  update_vector_1 b n = with_books (update_books V (λ rank. ltb rank b.ack) b.id_process n.books) n

  unfoldable pub save_msg_in_vector_no_ack : Mcast → Node V → Outcome (Node V)
  save_msg_in_vector_no_ack b n = with_books (save_unacked V b.id_process b n.books) n

  unfoldable pub move_msg_in_vector_ack : Ptr → Ack → Node V → Outcome (Node V)
  move_msg_in_vector_ack p a n = with_books (move_acked V p a.id_process n.books) n

  -- The leader acks the message.
  unfoldable pub acknowledge : Mcast → Node V → Node V
  acknowledge b n =
      let rev = n.ack_num + 1 in send (ack (prepare_ack b rev)) (record n { ack_num = rev })

  -- The leader's part of handle_msg that differs for its own messages.
  unfoldable pub put_in_order : Ptr → Mcast → Node V → Outcome (Node V)
  put_in_order p b n =
      if b.id_process == n.self_id
      then and_then (save_msg_in_vector_ack p b n) (update_vector b)
      else and_then (update_vector_1 b n) (save_msg_in_vector_ack p b)

  unfoldable pub handle_msg : Ptr → Mcast → Node V → Outcome (Node V)
  handle_msg p b n =
      if n.self_id == 0
      then and_then (put_in_order p b n) (λ n1. ok (acknowledge b n1))
      else and_then (save_msg_in_vector_no_ack b n) (update_vector b)

  unfoldable pub handle_ack : Ptr → Ack → Node V → Outcome (Node V)
  handle_ack p a n =
      if n.self_id == 0
      then ok n
      else and_then (move_msg_in_vector_ack p a n) (λ n1. ok (record n1 { ack_num = a.rev_num }))

  -- The case 'y' of process_msg. `sign` is 0 there, since it is declared in the body of the loop.
  unfoldable pub on_start : Node V → Node V
  on_start n =
      if n.self_id == 0
      then if n.prep_bits == 0 then record (send go n) { test_started = true } else n
      else send (prepared n.self_id) n

  -- The case 'z'.
  unfoldable pub on_prepared : ℕ → Node V → Node V
  on_prepared id n = if n.self_id == 0 then update_prepare_bits id n else n

  -- The `switch` of process_msg.
  unfoldable pub process_msg : Ptr → Packet → Node V → Outcome (Node V)
  process_msg p (mcast b) n = handle_msg p b n
  process_msg p (ack a) n = handle_ack p a n
  process_msg p start n = ok (on_start n)
  process_msg p (prepared id) n = ok (on_prepared id n)
  process_msg p stop n = ok (record n { finished = true })
  process_msg p go n = ok (record n { posted = n.posted + 1 })
  process_msg p (other t) n = ok n

  -- The body of the loop of send_msg.
  unfoldable pub send_msg : Node V → Node V
  send_msg n = let n1 = record n { seq_num = n.seq_num + 1 } in send (mcast (prepare_msg n1)) n1

  -- A round of the loop of start_leader.
  unfoldable pub start_leader : Node V → Node V
  start_leader n = if n.test_started then n else send start n

  unfoldable pub stop_leader : Node V → Node V
  stop_leader n = send stop n

  -- The counters of deliver_msg.
  unfoldable pub count_delivery : Mcast → Node V → Delivery
  count_delivery b n =
      let size = n.total_size - len_head_mcast in
      let own =
        if b.id_process == n.self_id
        then record (n.counters) {
          messages_delivered_mesure = n.counters.messages_delivered_mesure + 1;
          messages_bytes_delivered_mesure = n.counters.messages_bytes_delivered_mesure + size;
        }
        else n.counters in
      if n.mesurement_started
      then record own {
        messages_delivered = own.messages_delivered + 1;
        messages_bytes_delivered = own.messages_bytes_delivered + size;
      }
      else n.counters

  unfoldable pub count : Option Mcast → Node V → Node V
  count none n = n
  count (some b) n = record n { counters = count_delivery b n }

  -- A round of deliver_msg; it waits where the queue is empty.
  unfoldable pub deliver_msg : Node V → Outcome (Node V)
  deliver_msg n = and_then (dequeue V n.books) (λ r. ok (count r.0 (record n { books = r.1 })))

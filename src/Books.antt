-- ===== src/Books.antt =====
-- What protocol_tcp/main.c and protocol_udp/mainUDP.c do alike with the messages that a process has:
-- it saves them, moves them when they are acked, updates the bits and delivers. `id_of` is the
-- field id_process of a message.
pub mod History
pub mod Update
pub mod Moves
pub mod Deliver
pub mod Agreement
use protocol_pfe.Base.{
  ℕ, Bool, Option, none, some, List, [], ◌∷◌, ◌++◌, ◌==◌, if◌then◌else◌, Outcome, ok, exited,
  and_then,
}
use protocol_pfe.World.{Ptr, update}
use protocol_pfe.Vector.{VectorLib}
use protocol_pfe.Order.{MsgInfo, Log, deref, update_log, add_info}

-- The global variables for it. `delivered` is what deliver_msg has taken from the queue, with the
-- oldest first.
pub record Books (V : VectorLib) (A : Type 0) : Type 0 where
  pub num_nodes : ℕ
  pub conf_bits : ℕ
  pub vector_no_ack : ℕ → Option (V.Vec A)
  pub log : Log V A
  pub delivered : List A

module _ (V : VectorLib) {A : Type 0} where
  -- update_vector
  unfoldable pub update_books : (ℕ → Bool) → ℕ → Books V A → Outcome (Books V A)
  update_books covers id k =
      and_then (update_log V covers id k.log) (λ l. ok (record k { log = l }))

  -- save_msg_in_vector_ack. `p` is what malloc returns for the msg_info.
  unfoldable pub save_acked : Ptr → A → Books V A → Outcome (Books V A)
  save_acked p b k =
      and_then (add_info V p (record { message = some b; bits = k.conf_bits }) k.log)
        (λ l. ok (record k { log = l }))

  unfoldable pub save_in : ℕ → A → Books V A → V.Vec A → Outcome (Books V A)
  save_in id b k v =
      let r = V.add_elt b v in
      if r.0 == 1
      then ok (record k { vector_no_ack = update k.vector_no_ack id (some r.1) })
      else exited

  -- save_msg_in_vector_No_ack
  unfoldable pub save_unacked : ℕ → A → Books V A → Outcome (Books V A)
  save_unacked id b k = and_then (deref (k.vector_no_ack id)) (save_in id b k)

  unfoldable pub move_from : Ptr → ℕ → Books V A → V.Vec A → Outcome (Books V A)
  move_from p id k v =
      let r = V.remove_first v in
      and_then (add_info V p (record { message = r.0; bits = k.conf_bits }) k.log)
        (λ l. ok (record k { vector_no_ack = update k.vector_no_ack id (some r.1); log = l }))

  -- move_msg_in_vector_ack
  unfoldable pub move_acked : Ptr → ℕ → Books V A → Outcome (Books V A)
  move_acked p id k = and_then (deref (k.vector_no_ack id)) (move_from p id k)

  -- deliver_msg frees the message and the msg_info.
  unfoldable pub taken_out : Ptr → List Ptr → Books V A → A → Books V A
  taken_out p rest k b = record k {
    delivered = k.delivered ++ b ∷ [];
    log = record (k.log) { delivery_queue = rest; infos = update k.log.infos p none };
  }

  unfoldable pub dequeue_from : List Ptr → Books V A → Outcome (Option A × Books V A)
  dequeue_from [] k = ok (none, k)
  dequeue_from (p ∷ rest) k =
      and_then (deref (k.log.infos p))
        (λ m. and_then (deref m.message) (λ b. ok (some b, taken_out p rest k b)))

  -- bqueueDequeue; it waits where the queue is empty.
  unfoldable pub dequeue : Books V A → Outcome (Option A × Books V A)
  dequeue k = dequeue_from k.log.delivery_queue k

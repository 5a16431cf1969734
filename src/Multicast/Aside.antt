-- ===== src/Multicast/Aside.antt =====
-- Steps of protocol_udp/mainUDP.c that leave the order of the messages alone.
use protocol_pfe.Base.{
  ℕ, ◌+◌, ◌≡◌, refl, sym, ap, ◌∙◌, true, List, [], ◌∷◌, ◌++◌, ◌==◌, if_value, append-nil,
}
use protocol_pfe.Vector.{VectorLib}
use protocol_pfe.Multicast.{
  Mcast, Ack, Packet, mcast, go, prepared, Node, send, prepare_msg, on_start, on_prepared,
  update_prepare_bits, send_msg,
}
use protocol_pfe.Multicast.Acks.{acks_of, acks_of-append}
use protocol_pfe.Multicast.Leader.{Leads}
use protocol_pfe.Multicast.Follower.{Follows}

module _ (V : VectorLib) where
  -- A step that leaves the books alone and sends no ack.
  aside-Leads :
      (n n' : Node V) (received : ℕ → List Mcast) (h : List Mcast)
      → Leads V n received h
      → n'.self_id ≡ n.self_id
      → n'.books ≡ n.books
      → n'.ack_num ≡ n.ack_num
      → acks_of n'.sent ≡ acks_of n.sent
      → Leads V n' received h
  aside-Leads n n' received h s e same c a = record {
    first = e ∙ s.first;
    story = rw same s.story;
    idle = rw same s.idle;
    count = c ∙ s.count;
    ledger = a ∙ s.ledger;
  }

  no_ack :
      (ms : List Packet) (m : Packet) → acks_of (m ∷ []) ≡ [] → acks_of (ms ++ m ∷ []) ≡ acks_of ms
  no_ack ms m e =
      acks_of-append ms (m ∷ []) ∙ ap (λ as'. acks_of ms ++ as') e ∙ append-nil (acks_of ms)

  same_field :
      {B : Type 0} (f : Node V → B) (n : Node V)
      → f (record (send V go n) { test_started = true }) ≡ f n
      → f (send V (prepared n.self_id) n) ≡ f n
      → f (on_start V n) ≡ f n
  unfolding on_start
  same_field f n e g =
      if_value f (n.self_id == 0) _ (send V (prepared n.self_id) n) (f n)
        (if_value f (n.prep_bits == 0) (record (send V go n) { test_started = true }) n (f n) e
          refl)
        g

  pub on_start-Leads :
      (n : Node V) (received : ℕ → List Mcast) (h : List Mcast)
      → Leads V n received h
      → Leads V (on_start V n) received h
  unfolding send
  on_start-Leads n received h s =
      aside-Leads n (on_start V n) received h s (same_field (λ m. m.self_id) n refl refl)
        (same_field (λ m. m.books) n refl refl) (same_field (λ m. m.ack_num) n refl refl)
        (same_field (λ m. acks_of m.sent) n (no_ack n.sent go refl)
          (no_ack n.sent (prepared n.self_id) refl))

  pub on_prepared-Leads :
      (id : ℕ) (n : Node V) (received : ℕ → List Mcast) (h : List Mcast)
      → Leads V n received h
      → Leads V (on_prepared V id n) received h
  unfolding on_prepared update_prepare_bits
  on_prepared-Leads id n received h s =
      aside-Leads n (on_prepared V id n) received h s
        (if_value (λ m. m.self_id) (n.self_id == 0) (update_prepare_bits V id n) n _ refl refl)
        (if_value (λ m. m.books) (n.self_id == 0) (update_prepare_bits V id n) n _ refl refl)
        (if_value (λ m. m.ack_num) (n.self_id == 0) (update_prepare_bits V id n) n _ refl refl)
        (if_value (λ m. acks_of m.sent) (n.self_id == 0) (update_prepare_bits V id n) n _ refl refl)

  pub send_msg-Leads :
      (n : Node V) (received : ℕ → List Mcast) (h : List Mcast)
      → Leads V n received h
      → Leads V (send_msg V n) received h
  unfolding send_msg send
  send_msg-Leads n received h s =
      aside-Leads n (send_msg V n) received h s refl refl refl
        (no_ack n.sent (mcast (prepare_msg V (record n { seq_num = n.seq_num + 1 }))) refl)

  pub on_start-Follows :
      (n : Node V) (received : ℕ → List Mcast) (h : List Mcast) (acks : List Ack)
      → Follows V n received h acks
      → Follows V (on_start V n) received h acks
  unfolding send
  on_start-Follows n received h acks s =
      let same : (on_start V n).books ≡ n.books = same_field (λ m. m.books) n refl refl in
      let self : (on_start V n).self_id ≡ n.self_id = same_field (λ m. m.self_id) n refl refl in
      record { behind = λ e. s.behind (sym self ∙ e); story = rw same s.story; order = s.order }

  pub send_msg-Follows :
      (n : Node V) (received : ℕ → List Mcast) (h : List Mcast) (acks : List Ack)
      → Follows V n received h acks
      → Follows V (send_msg V n) received h acks
  unfolding send_msg send
  send_msg-Follows n received h acks s = record {
    behind = s.behind;
    story = s.story;
    order = s.order;
  }

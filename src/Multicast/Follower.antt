-- ===== src/Multicast/Follower.antt =====
-- The other processes of protocol_udp/mainUDP.c: they move a message into their order when its ack
-- comes.
use protocol_pfe.Base.{
  ℕ, ◌<◌, ◌≡◌, ◌≢◌, refl, ◌∙◌, List, [], ◌∷◌, ◌++◌, map, map-append, leb, Option, none, some, ==_ne,
  ok,
}
use protocol_pfe.World.{Ptr, null}
use protocol_pfe.Vector.{VectorLib, Roomy}
use protocol_pfe.Order.Insert.{Unused}
use protocol_pfe.Books.{Books}
use protocol_pfe.Books.History.{Story, pending}
use protocol_pfe.Books.Update.{update_books_lem}
use protocol_pfe.Books.Moves.{receive, save_unacked_lem, move_acked_lem}
use protocol_pfe.Books.Deliver.{dequeue-Story}
use protocol_pfe.Multicast.{
  Mcast, Ack, Node, with_books, update_vector, save_msg_in_vector_no_ack, move_msg_in_vector_ack,
  handle_msg, handle_ack, count, deliver_msg,
}
use protocol_pfe.Multicast.Acks.{sender}

module _ (V : VectorLib) where
  -- The process has put its messages into the order of the acks that it has received.
  pub record Follows (n : Node V) (received : ℕ → List Mcast) (h : List Mcast) (acks : List Ack)
      : Type 0 where
    pub behind : n.self_id ≢ 0
    pub story : Story V sender n.books received h
    pub order : map (λ (b : Mcast). b.id_process) h ≡ map (λ (a : Ack). a.id_process) acks

  saved_first :
      (p : Ptr) (b : Mcast) (n n1 : Node V)
      → n.self_id ≢ 0
      → save_msg_in_vector_no_ack V b n ≡ ok n1
      → handle_msg V p b n ≡ update_vector V b n1
  unfolding handle_msg
  saved_first p b n n1 z e = rw (==_ne n.self_id 0 z, e) refl

  moved :
      (p : Ptr) (a : Ack) (n n1 : Node V)
      → n.self_id ≢ 0
      → move_msg_in_vector_ack V p a n ≡ ok n1
      → handle_ack V p a n ≡ ok (record n1 { ack_num = a.rev_num })
  unfolding handle_ack
  moved p a n n1 z e = rw (==_ne n.self_id 0 z, e) refl

  module _ (room : Roomy V) where
    -- With multicast, where a process other than the leader has its messages in the order of the
    -- acks that it has received, and vectors take one more element, handle_msg of a message of a
    -- known process returns: the message is the last of those of its sender that wait for their
    -- acks, and the order is the same.
    pub handle_msg-follower :
        (p : Ptr) (b : Mcast) (n : Node V) (received : ℕ → List Mcast) (h : List Mcast)
        (acks : List Ack)
        → Follows n received h acks
        → b.id_process < n.books.num_nodes
        → (n' : Node V) × (handle_msg V p b n ≡ ok n')
          × Follows n' (receive sender b received) h acks
          × (pending V n'.books b.id_process ≡ pending V n.books b.id_process ++ b ∷ [])
    unfolding save_msg_in_vector_no_ack update_vector with_books
    handle_msg-follower p b n received h acks s lt =
        let (vs, ran, s1, grown) = save_unacked_lem V room sender b n.books received h s.story lt in
        let k : Books V Mcast = record (n.books) { vector_no_ack = vs } in
        let (l, ran', s2, blocks) =
          update_books_lem V sender (λ rank. leb rank b.ack) b.id_process k
            (receive sender b received) h s1 in
        (
          record n { books = record k { log = l } },
          saved_first p b n (record n { books = k }) s.behind (rw ran refl) ∙ rw ran' refl,
          record { behind = s.behind; story = s2; order = s.order },
          grown,
        )

    -- With multicast, where a message of the process in the ack waits at such a process, and the
    -- block is fresh, handle_ack returns: the oldest waiting message of that process is now the
    -- last of the order, the order is still that of the acks, and ack_num is the number of the
    -- ack.
    pub handle_ack-follower :
        (p : Ptr) (a : Ack) (n : Node V) (received : ℕ → List Mcast) (h : List Mcast)
        (acks : List Ack) (b : Mcast) (rest : List Mcast)
        → Follows n received h acks
        → p ≢ null
        → Unused V p n.books.log
        → a.id_process < n.books.num_nodes
        → pending V n.books a.id_process ≡ b ∷ rest
        → (n' : Node V) × (handle_ack V p a n ≡ ok n')
          × Follows n' received (h ++ b ∷ []) (acks ++ a ∷ [])
          × (pending V n'.books a.id_process ≡ rest)
          × (n'.ack_num ≡ a.rev_num)
    unfolding move_msg_in_vector_ack with_books
    handle_ack-follower p a n received h acks b rest s f u lt wait =
        let (vs, l, ran, s1, mine, left) =
          move_acked_lem V room sender p a.id_process n.books received h b rest s.story f u lt
            wait in
        let k : Books V Mcast = record (n.books) { vector_no_ack = vs; log = l } in
        (
          record n { books = k; ack_num = a.rev_num },
          moved p a n (record n { books = k }) s.behind (rw ran refl),
          record {
            behind = s.behind;
            story = s1;
            order = rw (map-append, map-append, mine, s.order) refl;
          },
          left,
          refl,
        )

  count-Follows :
      (o : Option Mcast) (n : Node V) (received : ℕ → List Mcast) (h : List Mcast) (acks : List Ack)
      → Follows n received h acks
      → Follows (count V o n) received h acks
  unfolding count
  count-Follows none n received h acks s = s
  count-Follows (some b) n received h acks s = record {
    behind = s.behind;
    story = s.story;
    order = s.order;
  }

  pub deliver_msg-follower :
      (n : Node V) (received : ℕ → List Mcast) (h : List Mcast) (acks : List Ack)
      → Follows n received h acks
      → (n' : Node V) × (deliver_msg V n ≡ ok n') × Follows n' received h acks
  unfolding deliver_msg
  deliver_msg-follower n received h acks s =
      let (o, k, ran, s', grown, queue, same) = dequeue-Story V sender n.books received h s.story in
      (
        count V o (record n { books = k }),
        rw ran refl,
        count-Follows o (record n { books = k }) received h acks
            (record { behind = s.behind; story = s'; order = s.order }),
      )

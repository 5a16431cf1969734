-- ===== src/Ring/Follower.antt =====
-- The other processes on the ring of protocol_tcp/main.c: they put the messages into their order
-- as the acks of the leader say.
use protocol_pfe.Base.{
  ℕ, ◌+◌, ◌%◌, ◌<◌, ◌≡◌, ◌≢◌, refl, ap, ◌∙◌, Bool-cases, inl, inr, List, [], ◌∷◌, ◌++◌, ◌==◌, map,
  map-append, append-nil, ==_ne, ok, Option, none, some,
}
use protocol_pfe.Books.Deliver.{dequeue-Story}
use protocol_pfe.World.{Ptr, null}
use protocol_pfe.Vector.{VectorLib, Roomy}
use protocol_pfe.Order.Insert.{Unused}
use protocol_pfe.Ring.{
  Bcast, Ack, Packet, bcast, ack, Node, send, prepare_msg, update_vector, save_msg_in_vector_no_ack,
  move_msg_in_vector_ack, forward_msg, forward_ack, handle_msg, handle_ack, send_msg, with_books,
  count, deliver_msg,
}
use protocol_pfe.Books.{Books}
use protocol_pfe.Books.History.{Story, pending}
use protocol_pfe.Books.Moves.{receive, save_unacked_lem, move_acked_lem}
use protocol_pfe.Ring.Acks.{sender}
use protocol_pfe.Ring.Leader.{forward_msg_lem, update_vector_lem}

module _ (V : VectorLib) where
  -- The process has put its messages into the order of the acks that it has received.
  pub record Follows (n : Node V) (received : ℕ → List Bcast) (h : List Bcast) (acks : List Ack)
      : Type 0 where
    pub behind : n.self_id ≢ 0
    pub story : Story V sender n.books received h
    pub order : map (λ (b : Bcast). b.id_process) h ≡ map (λ (a : Ack). a.id_process) acks

  forward_ack_lem :
      (a : Ack) (n : Node V)
      → (ms : List Packet) × (forward_ack V a n ≡ record n { sent = n.sent ++ ms })
  unfolding forward_ack send
  forward_ack_lem a n = elim (Bool-cases ((n.self_id + 1) % n.books.num_nodes == 0)) [
    | inl e ↦ ([], rw (e, append-nil) refl)
    | inr e ↦ (ack a ∷ [], rw e refl)
  ]

  handle_msg-other :
      (p : Ptr) (b : Bcast) (n n0 n1 : Node V)
      → forward_msg V b n ≡ n0
      → update_vector V b n0 ≡ ok n1
      → n1.self_id ≢ 0
      → handle_msg V p b n ≡ save_msg_in_vector_no_ack V b n1
  unfolding handle_msg
  handle_msg-other p b n n0 n1 e0 e1 z = rw (e0, e1, ==_ne n1.self_id 0 z) refl

  handle_ack-other :
      (p : Ptr) (a : Ack) (n n1 : Node V)
      → n.self_id ≢ 0
      → move_msg_in_vector_ack V p a n ≡ ok n1
      → handle_ack V p a n ≡ ok (forward_ack V a (record n1 { ack_num = a.rev_num }))
  unfolding handle_ack
  handle_ack-other p a n n1 z e = rw (==_ne n.self_id 0 z, e) refl

  send_msg-other :
      (p : Ptr) (n n1 : Node V)
      → n.self_id ≢ 0
      → send V
          (bcast (prepare_msg V (record n { seq_num = n.seq_num + 1 })))
          (record n { seq_num = n.seq_num + 1 })
        ≡ n1
      → send_msg V p n
        ≡ save_msg_in_vector_no_ack V (prepare_msg V (record n { seq_num = n.seq_num + 1 })) n1
  unfolding send_msg
  send_msg-other p n n1 z e = rw (==_ne n.self_id 0 z, e) refl

  module _ (room : Roomy V) where
    -- On the ring, where a process other than the leader has its messages in the order of the
    -- acks that it has received, and vectors take one more element, handle_msg of a message of a
    -- known process returns: the message is the last of those of its sender that wait for their
    -- acks, and the order is the same.
    pub handle_msg-Follows :
        (p : Ptr) (b : Bcast) (n : Node V) (received : ℕ → List Bcast) (h : List Bcast)
        (acks : List Ack)
        → Follows n received h acks
        → b.id_process < n.books.num_nodes
        → (n' : Node V) × (handle_msg V p b n ≡ ok n')
          × Follows n' (receive sender b received) h acks
          × (pending V n'.books b.id_process ≡ pending V n.books b.id_process ++ b ∷ [])
    unfolding save_msg_in_vector_no_ack with_books
    handle_msg-Follows p b n received h acks s lt =
        let (ms, sends, quiet) = forward_msg_lem V b n in
        let n0 : Node V = record n { sent = n.sent ++ ms } in
        let (k, ran, s1, same, size, blocks) = update_vector_lem V b n0 received h s.story in
        let (vs, ran', s2, grown) = save_unacked_lem V room sender b k received h s1 (rw size lt) in
        let k' : Books V Bcast = record k { vector_no_ack = vs } in
        (
          record n0 { books = k' },
          handle_msg-other p b n n0 (record n0 { books = k }) sends ran s.behind ∙ rw ran' refl,
          record { behind = s.behind; story = s2; order = s.order },
          grown ∙ rw same refl,
        )

    -- On the ring, where vectors take one more element, a process other than the leader has its
    -- messages in the order of the acks that it has received, the ack names a process of the ring
    -- of which a message waits, and the block for the msg_info is not NULL and none of those in
    -- vectorAck or the delivery queue, handle_ack returns: the oldest waiting message of the
    -- process in the ack is now the last of the order, those behind it wait on, the order is
    -- still that of the acks, and ack_num is the number of the ack.
    pub handle_ack-Follows :
        (p : Ptr) (a : Ack) (n : Node V) (received : ℕ → List Bcast) (h : List Bcast)
        (acks : List Ack) (b : Bcast) (rest : List Bcast)
        → Follows n received h acks
        → p ≢ null
        → Unused V p n.books.log
        → a.id_process < n.books.num_nodes
        → pending V n.books a.id_process ≡ b ∷ rest
        → (n' : Node V) × (handle_ack V p a n ≡ ok n')
          × Follows n' received (h ++ b ∷ []) (acks ++ a ∷ [])
          × (pending V n'.books a.id_process ≡ rest)
          × (n'.ack_num ≡ a.rev_num)
    unfolding move_msg_in_vector_ack with_books
    handle_ack-Follows p a n received h acks b rest s f u lt wait =
        let (vs, l, ran, s1, mine, left) =
          move_acked_lem V room sender p a.id_process n.books received h b rest s.story f u lt
            wait in
        let k : Books V Bcast = record (n.books) { vector_no_ack = vs; log = l } in
        let n1 : Node V = record n { books = k } in
        let (ms, sends) = forward_ack_lem a (record n1 { ack_num = a.rev_num }) in
        (
          record n1 { ack_num = a.rev_num; sent = n.sent ++ ms },
          handle_ack-other p a n n1 s.behind (rw ran refl) ∙ ap ok sends,
          record {
            behind = s.behind;
            story = s1;
            order = rw (map-append, map-append, mine, s.order) refl;
          },
          left,
          refl,
        )

    pub send_msg-Follows :
        (p : Ptr) (n : Node V) (received : ℕ → List Bcast) (h : List Bcast) (acks : List Ack)
        → Follows n received h acks
        → n.self_id < n.books.num_nodes
        → (n' : Node V) × (b : Bcast) × (send_msg V p n ≡ ok n')
          × (b ≡ prepare_msg V (record n { seq_num = n.seq_num + 1 }))
          × Follows n' (receive sender b received) h acks
          × (n'.sent ≡ n.sent ++ bcast b ∷ [])
    unfolding send prepare_msg save_msg_in_vector_no_ack with_books
    send_msg-Follows p n received h acks s lt =
        let b = prepare_msg V (record n { seq_num = n.seq_num + 1 }) in
        let n1 : Node V = record n { seq_num = n.seq_num + 1; sent = n.sent ++ bcast b ∷ [] } in
        let (vs, ran, s1, grown) = save_unacked_lem V room sender b n.books received h s.story lt in
        (
          record n1 { books = record (n.books) { vector_no_ack = vs } },
          b,
          send_msg-other p n n1 s.behind refl ∙ rw ran refl,
          refl,
          record { behind = s.behind; story = s1; order = s.order },
          refl,
        )

  count-Follows :
      (o : Option Bcast) (n : Node V) (received : ℕ → List Bcast) (h : List Bcast) (acks : List Ack)
      → Follows n received h acks
      → Follows (count V o n) received h acks
  unfolding count
  count-Follows none n received h acks s = s
  count-Follows (some b) n received h acks s = record {
    behind = s.behind;
    story = s.story;
    order = s.order;
  }

  pub deliver_msg-Follows :
      (n : Node V) (received : ℕ → List Bcast) (h : List Bcast) (acks : List Ack)
      → Follows n received h acks
      → (n' : Node V) × (deliver_msg V n ≡ ok n') × Follows n' received h acks
  unfolding deliver_msg
  deliver_msg-Follows n received h acks s =
      let (o, k, ran, s', grown, queue, same) = dequeue-Story V sender n.books received h s.story in
      (
        count V o (record n { books = k }),
        rw ran refl,
        count-Follows o (record n { books = k }) received h acks
            (record { behind = s.behind; story = s'; order = s.order }),
      )

-- ===== src/Ring/Leader.antt =====
-- The leader of the ring of protocol_tcp/main.c: its acks number the messages in the order in
-- which it has them.
use protocol_pfe.Base.{
  ℕ, ◌+◌, ◌-◌, leb, ◌≡◌, ◌≢◌, refl, sym, ap, subst, true, Bool-cases, inl, inr, Option, none, some,
  List, [], ◌∷◌, ◌++◌, ◌==◌, length, length-append, append-nil, ok, arith,
}
use protocol_pfe.World.{Ptr, null}
use protocol_pfe.Vector.{VectorLib, Roomy}
use protocol_pfe.Order.Holds.{Fresh}
use protocol_pfe.Order.Insert.{Unused}
use protocol_pfe.Ring.{
  Bcast, Packet, bcast, Node, get_predecessor, send, prepare_msg, prepare_ack, update_vector,
  save_msg_in_vector_ack, acknowledge, forward_msg, handle_msg, send_msg, with_books, count,
  deliver_msg,
}
use protocol_pfe.Books.{Books}
use protocol_pfe.Books.History.{Story, pending}
use protocol_pfe.Books.Update.{update_books_lem}
use protocol_pfe.Books.Moves.{receive, save_acked_lem}
use protocol_pfe.Books.Deliver.{listed, dequeue-Story}
use protocol_pfe.Ring.Acks.{sender, acks_of, acks_of-append, numbering, numbering-snoc}

module _ (V : VectorLib) where
  -- The leader has acked the messages of its order, one by one.
  pub record Leads (n : Node V) (received : ℕ → List Bcast) (h : List Bcast) : Type 0 where
    pub first : n.self_id ≡ 0
    pub story : Story V sender n.books received h
    pub idle : (j : ℕ) → pending V n.books j ≡ []
    pub count : n.ack_num ≡ length h
    pub ledger : acks_of n.sent ≡ numbering 0 h

  -- What forward_msg sends is no ack.
  pub forward_msg_lem :
      (b : Bcast) (n : Node V)
      → (ms : List Packet) × (forward_msg V b n ≡ record n { sent = n.sent ++ ms })
        × (acks_of ms ≡ [])
  unfolding forward_msg send
  forward_msg_lem b n =
      elim (Bool-cases (n.self_id == get_predecessor n.books.num_nodes b.id_process)) [
        | inl e ↦ ([], rw (e, append-nil) refl, refl)
        | inr e ↦ (bcast b ∷ [], rw e refl, refl)
      ]

  acknowledged :
      (b : Bcast) (n : Node V) (received : ℕ → List Bcast) (h : List Bcast)
      → n.self_id ≡ 0
      → Story V sender n.books received (h ++ b ∷ [])
      → ((j : ℕ) → pending V n.books j ≡ [])
      → n.ack_num ≡ length h
      → acks_of n.sent ≡ numbering 0 h
      → Leads (acknowledge V b n) received (h ++ b ∷ [])
  unfolding acknowledge send prepare_ack
  acknowledged b n received h z s i c e = record {
    first = z;
    story = s;
    idle = i;
    count = rw (length-append h (b ∷ [])) (ap (λ k. k + 1) c);
    ledger = rw (acks_of-append, numbering-snoc 0 h b (n.ack_num + 1) (omega (arith, c)), e) refl;
  }

  pub update_vector_lem :
      (b : Bcast) (n : Node V) (received : ℕ → List Bcast) (h : List Bcast)
      → Story V sender n.books received h
      → (k : Books V Bcast) × (update_vector V b n ≡ ok (record n { books = k }))
        × Story V sender k received h
        × (k.vector_no_ack ≡ n.books.vector_no_ack)
        × (k.num_nodes ≡ n.books.num_nodes)
        × (k.log.delivery_queue ++ V.contents k.log.vector_ack
            ≡ n.books.log.delivery_queue ++ V.contents n.books.log.vector_ack)
  unfolding update_vector with_books
  update_vector_lem b n received h s =
      let (l, ran, s', blocks) =
        update_books_lem V sender (λ rank. leb rank b.ack) b.id_process n.books received h s in
      (record (n.books) { log = l }, rw ran refl, s', refl, refl, blocks)

  module _ (room : Roomy V) where
    -- The leader saves a message of a process, or its own.
    saved :
        (p : Ptr) (b : Bcast) (n : Node V) (received : ℕ → List Bcast) (h : List Bcast)
        → Leads n received h
        → p ≢ null
        → Unused V p n.books.log
        → (k : Books V Bcast) × (save_msg_in_vector_ack V p b n ≡ ok (record n { books = k }))
          × Leads
              (acknowledge V b (record n { books = k }))
              (receive sender b received)
              (h ++ b ∷ [])
    unfolding save_msg_in_vector_ack with_books
    saved p b n received h s a u =
        let (l, ran, s') =
          save_acked_lem V room sender p b n.books received h s.story a u (s.idle b.id_process) in
        let k : Books V Bcast = record (n.books) { log = l } in
        (
          k,
          rw ran refl,
          acknowledged b (record n { books = k }) (receive sender b received) h s.first s' s.idle
              s.count s.ledger,
        )

    handle_msg-leader :
        (p : Ptr) (b : Bcast) (n n0 n1 n2 : Node V)
        → forward_msg V b n ≡ n0
        → update_vector V b n0 ≡ ok n1
        → n1.self_id ≡ 0
        → save_msg_in_vector_ack V p b n1 ≡ ok n2
        → handle_msg V p b n ≡ ok (acknowledge V b n2)
    unfolding handle_msg
    handle_msg-leader p b n n0 n1 n2 e0 e1 z e2 =
        let first : (n1.self_id == 0) ≡ true = ap (λ x. x == 0) z in rw (e0, e1, first, e2) refl

    -- On the ring, where the leader has acked the messages of its order with the numbers 1, 2,
    -- ..., keeps no message without ack, and vectors take one more element, handle_msg with a
    -- fresh block returns: the message is now the last of the order, its ack has the next number,
    -- and the same holds again.
    pub handle_msg-Leads :
        (p : Ptr) (b : Bcast) (n : Node V) (received : ℕ → List Bcast) (h : List Bcast)
        → Leads n received h
        → p ≢ null
        → Unused V p n.books.log
        → (n' : Node V) × (handle_msg V p b n ≡ ok n')
          × Leads n' (receive sender b received) (h ++ b ∷ [])
    handle_msg-Leads p b n received h s a u =
        let (ms, sends, quiet) = forward_msg_lem b n in
        let n0 : Node V = record n { sent = n.sent ++ ms } in
        let (k, ran, s1, same, size, blocks) = update_vector_lem b n0 received h s.story in
        let s2 : Leads (record n0 { books = k }) received h = record {
          first = s.first;
          story = s1;
          idle = rw same s.idle;
          count = s.count;
          ledger = rw (acks_of-append, quiet, append-nil) s.ledger;
        } in
        let (k', ran', s3) =
          saved p b (record n0 { books = k }) received h s2 a
            (subst (λ qs. Fresh p qs) (sym blocks) u) in
        (_, handle_msg-leader p b n n0 (record n0 { books = k }) _ sends ran s.first ran', s3)

    send_msg-leader :
        (p : Ptr) (n n1 n2 n3 : Node V)
        → n.self_id ≡ 0
        → send V
            (bcast (prepare_msg V (record n { seq_num = n.seq_num + 1 })))
            (record n { seq_num = n.seq_num + 1 })
          ≡ n1
        → save_msg_in_vector_ack V p (prepare_msg V (record n { seq_num = n.seq_num + 1 })) n1
          ≡ ok n2
        → update_vector V (prepare_msg V (record n { seq_num = n.seq_num + 1 })) n2 ≡ ok n3
        → send_msg V p n
          ≡ ok (acknowledge V (prepare_msg V (record n { seq_num = n.seq_num + 1 })) n3)
    unfolding send_msg
    send_msg-leader p n n1 n2 n3 z e1 e2 e3 =
        let first : (n.self_id == 0) ≡ true = ap (λ x. x == 0) z in rw (e1, first, e2, e3) refl

    -- On the ring, under the same conditions a round of send_msg of the leader returns: its own
    -- message, which prepare_msg has made with the next sequence number, is the last of the
    -- order, and acked with the next number.
    pub send_msg-Leads :
        (p : Ptr) (n : Node V) (received : ℕ → List Bcast) (h : List Bcast)
        → Leads n received h
        → p ≢ null
        → Unused V p n.books.log
        → (n' : Node V) × (b : Bcast) × (send_msg V p n ≡ ok n')
          × (b ≡ prepare_msg V (record n { seq_num = n.seq_num + 1 }))
          × Leads n' (receive sender b received) (h ++ b ∷ [])
    unfolding send save_msg_in_vector_ack with_books
    send_msg-Leads p n received h s a u =
        let b = prepare_msg V (record n { seq_num = n.seq_num + 1 }) in
        let n1 : Node V = record n { seq_num = n.seq_num + 1; sent = n.sent ++ bcast b ∷ [] } in
        let (l, ran, s2) =
          save_acked_lem V room sender p b n.books received h s.story a u (s.idle b.id_process) in
        let n2 : Node V = record n1 { books = record (n.books) { log = l } } in
        let (k, ran', s3, same, size, blocks) =
          update_vector_lem b n2 (receive sender b received) (h ++ b ∷ []) s2 in
        (
          _,
          b,
          send_msg-leader p n n1 n2 (record n1 { books = k }) s.first refl (rw ran refl) ran',
          refl,
          acknowledged b (record n1 { books = k }) (receive sender b received) h s.first s3
              (rw same s.idle) s.count (rw (acks_of-append, append-nil) s.ledger),
        )

  pub count-books : (o : Option Bcast) (n : Node V) → (count V o n).books ≡ n.books
  unfolding count
  count-books none n = refl
  count-books (some b) n = refl

  count-Leads :
      (o : Option Bcast) (n : Node V) (received : ℕ → List Bcast) (h : List Bcast)
      → Leads n received h
      → Leads (count V o n) received h
  unfolding count
  count-Leads none n received h s = s
  count-Leads (some b) n received h s = record {
    first = s.first;
    story = s.story;
    idle = s.idle;
    count = s.count;
    ledger = s.ledger;
  }

  -- On the ring, a round of deliver_msg of the leader returns without a fault: it appends the
  -- oldest message of the queue, if there is one, to the delivered ones, shortens the queue by
  -- it, and leaves the order as it is.
  pub deliver_msg-Leads :
      (n : Node V) (received : ℕ → List Bcast) (h : List Bcast)
      → Leads n received h
      → (n' : Node V) × (o : Option Bcast) × (deliver_msg V n ≡ ok n')
        × Leads n' received h
        × (n'.books.delivered ≡ n.books.delivered ++ listed o)
        × (length n'.books.log.delivery_queue ≡ length n.books.log.delivery_queue - 1)
  unfolding deliver_msg
  deliver_msg-Leads n received h s =
      let (o, k, ran, s', grown, queue, same) = dequeue-Story V sender n.books received h s.story in
      let n1 : Node V = record n { books = k } in
      let s1 : Leads n1 received h = record {
        first = s.first;
        story = s';
        idle = rw same s.idle;
        count = s.count;
        ledger = s.ledger;
      } in
      (
        count V o n1,
        o,
        rw ran refl,
        count-Leads o n1 received h s1,
        rw (count-books o n1) grown,
        rw (count-books o n1) queue,
      )

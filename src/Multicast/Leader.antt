-- ===== src/Multicast/Leader.antt =====
-- The leader of protocol_udp/mainUDP.c: it acks the messages one by one, in the order in which
-- it puts them.
use protocol_pfe.Base.{
  ℕ, ◌+◌, leb, ltb, ◌≡◌, ◌≢◌, refl, sym, ap, subst, true, false, Bool-cases, inl, inr, Option, none,
  some, List, [], ◌∷◌, ◌++◌, ◌==◌, length, length-append, ok, arith,
}
use protocol_pfe.World.{Ptr, null}
use protocol_pfe.Vector.{VectorLib, Roomy}
use protocol_pfe.Order.Holds.{Fresh}
use protocol_pfe.Order.Insert.{Unused}
use protocol_pfe.Multicast.{
  Mcast, Node, send, prepare_ack, with_books, update_vector, update_vector_1,
  save_msg_in_vector_ack, acknowledge, put_in_order, handle_msg, count, deliver_msg,
}
use protocol_pfe.Books.{Books}
use protocol_pfe.Books.History.{Story, pending}
use protocol_pfe.Books.Update.{update_books_lem}
use protocol_pfe.Books.Moves.{receive, save_acked_lem}
use protocol_pfe.Books.Deliver.{dequeue-Story}
use protocol_pfe.Multicast.Acks.{sender, acks_of, acks_of-append, numbering, numbering-snoc}

module _ (V : VectorLib) where
  -- The leader has acked the messages of its order, one by one.
  pub record Leads (n : Node V) (received : ℕ → List Mcast) (h : List Mcast) : Type 0 where
    pub first : n.self_id ≡ 0
    pub story : Story V sender n.books received h
    pub idle : (j : ℕ) → pending V n.books j ≡ []
    pub count : n.ack_num ≡ length h
    pub ledger : acks_of n.sent ≡ numbering 0 h

  -- The same leader, with other books.
  rebook :
      (n : Node V) (k : Books V Mcast) (received received' : ℕ → List Mcast) (h : List Mcast)
      → Leads n received h
      → Story V sender k received' h
      → k.vector_no_ack ≡ n.books.vector_no_ack
      → Leads (record n { books = k }) received' h
  rebook n k received received' h s s' e = record {
    first = s.first;
    story = s';
    idle = rw e s.idle;
    count = s.count;
    ledger = s.ledger;
  }

  acknowledge-Leads :
      (b : Mcast) (n : Node V) (k : Books V Mcast) (received received' : ℕ → List Mcast)
      (h : List Mcast)
      → Leads n received h
      → Story V sender k received' (h ++ b ∷ [])
      → k.vector_no_ack ≡ n.books.vector_no_ack
      → Leads (acknowledge V b (record n { books = k })) received' (h ++ b ∷ [])
  unfolding acknowledge send prepare_ack
  acknowledge-Leads b n k received received' h s s' e = record {
    first = s.first;
    story = s';
    idle = rw e s.idle;
    count = rw (length-append h (b ∷ [])) (ap (λ i. i + 1) s.count);
    ledger =
        rw (acks_of-append, numbering-snoc 0 h b (n.ack_num + 1) (omega (arith, s.count)), s.ledger)
          refl;
  }

  own_first :
      (p : Ptr) (b : Mcast) (n n1 n2 : Node V)
      → n.self_id ≡ 0
      → (b.id_process == n.self_id) ≡ true
      → save_msg_in_vector_ack V p b n ≡ ok n1
      → update_vector V b n1 ≡ ok n2
      → handle_msg V p b n ≡ ok (acknowledge V b n2)
  unfolding handle_msg put_in_order
  own_first p b n n1 n2 z mine e1 e2 =
      let first : (n.self_id == 0) ≡ true = ap (λ x. x == 0) z in rw (first, mine, e1, e2) refl

  others_last :
      (p : Ptr) (b : Mcast) (n n1 n2 : Node V)
      → n.self_id ≡ 0
      → (b.id_process == n.self_id) ≡ false
      → update_vector_1 V b n ≡ ok n1
      → save_msg_in_vector_ack V p b n1 ≡ ok n2
      → handle_msg V p b n ≡ ok (acknowledge V b n2)
  unfolding handle_msg put_in_order
  others_last p b n n1 n2 z theirs e1 e2 =
      let first : (n.self_id == 0) ≡ true = ap (λ x. x == 0) z in rw (first, theirs, e1, e2) refl

  module _ (room : Roomy V) where
    handle_own :
        (p : Ptr) (b : Mcast) (n : Node V) (received : ℕ → List Mcast) (h : List Mcast)
        → Leads n received h
        → p ≢ null
        → Unused V p n.books.log
        → (b.id_process == n.self_id) ≡ true
        → (n' : Node V) × (handle_msg V p b n ≡ ok n')
          × Leads n' (receive sender b received) (h ++ b ∷ [])
    unfolding save_msg_in_vector_ack update_vector with_books
    handle_own p b n received h s a u mine =
        let (l, ran, s1) =
          save_acked_lem V room sender p b n.books received h s.story a u (s.idle b.id_process) in
        let k : Books V Mcast = record (n.books) { log = l } in
        let (l', ran', s2, blocks) =
          update_books_lem V sender (λ rank. leb rank b.ack) b.id_process k
            (receive sender b received) (h ++ b ∷ []) s1 in
        let k' : Books V Mcast = record k { log = l' } in
        (
          acknowledge V b (record n { books = k' }),
          own_first p b n (record n { books = k }) (record n { books = k' }) s.first mine
              (rw ran refl) (rw ran' refl),
          acknowledge-Leads b n k' received (receive sender b received) h s s2 refl,
        )

    handle_others :
        (p : Ptr) (b : Mcast) (n : Node V) (received : ℕ → List Mcast) (h : List Mcast)
        → Leads n received h
        → p ≢ null
        → Unused V p n.books.log
        → (b.id_process == n.self_id) ≡ false
        → (n' : Node V) × (handle_msg V p b n ≡ ok n')
          × Leads n' (receive sender b received) (h ++ b ∷ [])
    unfolding save_msg_in_vector_ack update_vector_1 with_books
    handle_others p b n received h s a u theirs =
        let (l, ran, s1, blocks) =
          update_books_lem V sender (λ rank. ltb rank b.ack) b.id_process n.books received h
            s.story in
        let k : Books V Mcast = record (n.books) { log = l } in
        let (l', ran', s2) =
          save_acked_lem V room sender p b k received h s1 a
            (subst (λ qs. Fresh p qs) (sym blocks) u) (s.idle b.id_process) in
        let k' : Books V Mcast = record k { log = l' } in
        (
          acknowledge V b (record n { books = k' }),
          others_last p b n (record n { books = k }) (record n { books = k' }) s.first theirs
              (rw ran refl) (rw ran' refl),
          acknowledge-Leads b n k' received (receive sender b received) h s s2 refl,
        )

    -- With multicast, where the leader has acked the messages of its order with the numbers 1, 2,
    -- ..., keeps no message without ack, and vectors take one more element, handle_msg with a
    -- fresh block returns, for its own messages and for the others: the message is now the last
    -- of the order, its ack has the next number, and the same holds again.
    pub handle_msg-leader :
        (p : Ptr) (b : Mcast) (n : Node V) (received : ℕ → List Mcast) (h : List Mcast)
        → Leads n received h
        → p ≢ null
        → Unused V p n.books.log
        → (n' : Node V) × (handle_msg V p b n ≡ ok n')
          × Leads n' (receive sender b received) (h ++ b ∷ [])
    handle_msg-leader p b n received h s a u = elim (Bool-cases (b.id_process == n.self_id)) [
      | inl e ↦ handle_own p b n received h s a u e
      | inr e ↦ handle_others p b n received h s a u e
    ]

  count-Leads :
      (o : Option Mcast) (n : Node V) (received : ℕ → List Mcast) (h : List Mcast)
      → Leads n received h
      → Leads (count V o n) received h
  unfolding count
  count-Leads none n received h s = s
  count-Leads (some b) n received h s = record {
    first = s.first;
    story = s.story;
    idle = s.idle;
    count = s.count;
    ledger = s.ledger;
  }

  pub deliver_msg-leader :
      (n : Node V) (received : ℕ → List Mcast) (h : List Mcast)
      → Leads n received h
      → (n' : Node V) × (deliver_msg V n ≡ ok n') × Leads n' received h
  unfolding deliver_msg
  deliver_msg-leader n received h s =
      let (o, k, ran, s', grown, queue, same) = dequeue-Story V sender n.books received h s.story in
      (
        count V o (record n { books = k }),
        rw ran refl,
        count-Leads o (record n { books = k }) received h
            (rebook n k received received h s s' same),
      )

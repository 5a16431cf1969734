-- ===== src/Books/Update.antt =====
-- update_vector of protocol_tcp/main.c and protocol_udp/mainUDP.c ends, and leaves the history as it is.
use protocol_pfe.Base.{ℕ, ◌≡◌, refl, Bool, List, ◌++◌, append_assoc, ok}
use protocol_pfe.World.{Ptr}
use protocol_pfe.Vector.{VectorLib}
use protocol_pfe.Order.{MsgInfo, Log}
use protocol_pfe.Order.Marks.{mark}
use protocol_pfe.Order.Ready.{Rep, ready, waiting, update_log_lem}
use protocol_pfe.Books.{Books, update_books}
use protocol_pfe.Books.History.{Texts, Texts-append, Texts-split, Texts-mark, ready-waiting, Story}

module _ (V : VectorLib) {A : Type 0} (id_of : A → ℕ) where
  -- The same messages, at other places.
  relog :
      (k : Books V A) (l : Log V A) (received : ℕ → List A) (h : List A) (qs ms : List (MsgInfo A))
      (ps : List Ptr)
      → (s : Story V id_of k received h) → Rep V l ps qs ms
      → Texts (qs ++ ms) s.todo
      → Story V id_of (record k { log = l }) received h
  relog k l received h qs ms ps s r t = record {
    ps = ps;
    qs = qs;
    ms = ms;
    stands = r;
    todo = s.todo;
    texts = t;
    whole = s.whole;
    vectors = s.vectors;
    owned = s.owned;
    balance = s.balance;
  }

  same-Texts :
      (covers : ℕ → Bool) (id rank : ℕ) (qs ms : List (MsgInfo A)) (bs : List A)
      → Texts (qs ++ ms) bs
      → Texts ((qs ++ ready (mark covers id rank ms)) ++ waiting (mark covers id rank ms)) bs
  same-Texts covers id rank qs ms bs t =
      let (xs, ys, e, tx, ty) = Texts-split qs ms bs t in
      let ms' = mark covers id rank ms in
      rw (append_assoc, ready-waiting ms', e)
        (Texts-append qs ms' xs ys tx (Texts-mark covers id rank ms ys ty))

  pub update_books_lem :
      (covers : ℕ → Bool) (id : ℕ) (k : Books V A) (received : ℕ → List A) (h : List A)
      → Story V id_of k received h
      → (l : Log V A) × (update_books V covers id k ≡ ok (record k { log = l }))
        × Story V id_of (record k { log = l }) received h
        × (l.delivery_queue ++ V.contents l.vector_ack
            ≡ k.log.delivery_queue ++ V.contents k.log.vector_ack)
  unfolding update_books
  update_books_lem covers id k received h s =
      let (l, ran, d) = update_log_lem V covers id k.log s.ps s.qs s.ms s.stands in
      let ms' = mark covers id k.log.highest_delivered s.ms in
      (
        l,
        rw ran refl,
        relog k l received h (s.qs ++ ready ms') (waiting ms') d.pointers s d.stands
            (same-Texts covers id k.log.highest_delivered s.qs s.ms s.todo s.texts),
        d.blocks,
      )

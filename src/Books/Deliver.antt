-- ===== src/Books/Deliver.antt =====
-- deliver_msg of protocol_tcp/main.c and protocol_udp/mainUDP.c: a round takes the oldest message of the queue.
use protocol_pfe.Base.{
  ℕ, ◌-◌, ◌≡◌, refl, sym, ap, subst, ◌∙◌, Option, none, some, List, [], ◌∷◌, ◌++◌, length,
  append-nil, append_assoc, ok, arith,
}
use protocol_pfe.World.{Ptr}
use protocol_pfe.Vector.{VectorLib}
use protocol_pfe.Order.{MsgInfo, deref}
use protocol_pfe.Order.Holds.{Fresh-append, Distinct, Holds, Holds-update}
use protocol_pfe.Books.{Books, taken_out, dequeue_from, dequeue}
use protocol_pfe.Books.History.{Texts, Story}

-- What a round delivers.
abbrev pub listed : {A : Type 0} → Option A → List A
listed none = []
listed (some b) = b ∷ []

module _ (V : VectorLib) {A : Type 0} (id_of : A → ℕ) (k : Books V A) (received : ℕ → List A)
    (h : List A) (s : Story V id_of k received h) where
  -- The process has taken one message, where there is one.
  abbrev Taken : List Ptr → Type 0
  Taken queue =
      (o : Option A) × (k' : Books V A) × (dequeue_from V queue k ≡ ok (o, k'))
      × Story V id_of k' received h
      × (k'.delivered ≡ k.delivered ++ listed o)
      × (length k'.log.delivery_queue ≡ length k.log.delivery_queue - 1)
      × (k'.vector_no_ack ≡ k.vector_no_ack)

  taken :
      (p : Ptr) (rest : List Ptr) (q : MsgInfo A) (qs : List (MsgInfo A)) (b : A) (todo : List A)
      → k.log.delivery_queue ≡ p ∷ rest
      → k.log.infos p ≡ some q
      → Holds k.log.infos rest qs
      → q.message ≡ some b
      → Texts (qs ++ s.ms) todo
      → k.delivered ++ b ∷ todo ≡ h
      → Taken (p ∷ rest)
  unfolding dequeue_from taken_out deref
  taken p rest q qs b todo eq here holds text texts whole =
      let apart : Distinct (p ∷ rest ++ s.ps) =
        subst (λ xs. Distinct (xs ++ s.ps)) eq s.stands.distinct in
      let (fr, fp) = Fresh-append p rest s.ps apart.0 in
      (
        some b,
        taken_out V p rest k b,
        rw (here, text) refl,
        record {
          ps = s.ps;
          qs = qs;
          ms = s.ms;
          stands = record {
            vector = s.stands.vector;
            queue = Holds-update k.log.infos p none rest qs fr holds;
            acks = Holds-update k.log.infos p none s.ps s.ms fp s.stands.acks;
            distinct = apart.1;
          };
          todo = todo;
          texts = texts;
          whole = append_assoc k.delivered (b ∷ []) todo ∙ whole;
          vectors = s.vectors;
          owned = s.owned;
          balance = s.balance;
        },
        refl,
        omega (arith, ap length eq),
        refl,
      )

  taking :
      (queue : List Ptr) (qs : List (MsgInfo A)) (todo : List A)
      → k.log.delivery_queue ≡ queue
      → Holds k.log.infos queue qs
      → Texts (qs ++ s.ms) todo
      → k.delivered ++ todo ≡ h
      → Taken queue
  unfolding dequeue_from
  taking [] qs todo eq holds texts whole =
      (none, k, refl, s, sym (append-nil k.delivered), omega (arith, ap length eq), refl)
  taking (p ∷ rest) [] todo eq holds texts whole = elim holds [ ]
  taking (p ∷ rest) (q ∷ qs) [] eq holds texts whole = elim texts [ ]
  taking (p ∷ rest) (q ∷ qs) (b ∷ todo) eq holds texts whole =
      taken p rest q qs b todo eq holds.0 holds.1 texts.0 texts.1 whole

  pub dequeue-Story :
      (o : Option A) × (k' : Books V A) × (dequeue V k ≡ ok (o, k'))
      × Story V id_of k' received h
      × (k'.delivered ≡ k.delivered ++ listed o)
      × (length k'.log.delivery_queue ≡ length k.log.delivery_queue - 1)
      × (k'.vector_no_ack ≡ k.vector_no_ack)
  unfolding dequeue
  dequeue-Story = taking k.log.delivery_queue s.qs s.todo refl s.stands.queue s.texts s.whole

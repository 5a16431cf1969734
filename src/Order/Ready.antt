-- ===== src/Order/Ready.antt =====
-- The `while` of update_vector, and update_vector as a whole: it ends, and it moves the messages
-- whose bits are all cleared, up to the first whose bits are not, to the delivery queue.
use protocol_pfe.Base.{
  ℕ, zero, suc, ◌+◌, ◌<◌, ◌≡◌, refl, ap, ap₂, subst, ◌∙◌, Bool, true, false, Bool-cases, inl, inr,
  some, List, [], ◌∷◌, ◌++◌, ◌==◌, ltb, if◌then◌else◌, length, All-map, append_assoc, append-nil,
  Outcome, ok, and_then, arith,
}
use protocol_pfe.World.{Ptr}
use protocol_pfe.Vector.{VectorLib}
use protocol_pfe.Order.{
  MsgInfo, Log, head_ready, deliver_first, deliver_next, deliver_loop, mark_loop, update_log,
}
use protocol_pfe.Order.Holds.{
  Distinct, Distinct-append, Holds, Holds-length, Holds-append, Holds-agree, Fresh,
}
use protocol_pfe.Order.Marks.{mark, Marked, info_at-append, mark_loop_lem}

module _ {A : Type 0} where
  -- The messages up to the first with a bit set, and those from it on.
  abbrev pub ready : List (MsgInfo A) → List (MsgInfo A)
  ready [] = []
  ready (m ∷ ms) = if m.bits == 0 then m ∷ ready ms else []

  abbrev pub waiting : List (MsgInfo A) → List (MsgInfo A)
  waiting [] = []
  waiting (m ∷ ms) = if m.bits == 0 then waiting ms else m ∷ ms

module _ (V : VectorLib) {A : Type 0} where
  -- The log stands for the messages `qs` to deliver and the messages `ms` in vector_ack.
  pub record Rep (l : Log V A) (ps : List Ptr) (qs ms : List (MsgInfo A)) : Type 0 where
    pub vector : V.contents l.vector_ack ≡ ps
    pub queue : Holds l.infos l.delivery_queue qs
    pub acks : Holds l.infos ps ms
    pub distinct : Distinct (l.delivery_queue ++ ps)

  head_ready-[] : (l : Log V A) → V.contents l.vector_ack ≡ [] → head_ready V l ≡ ok false
  unfolding head_ready
  head_ready-[] l e = rw (V.number_of_elt_lem l.vector_ack, e) refl

  head_ready-cons :
      (l : Log V A) (p : Ptr) (ps : List Ptr) (m : MsgInfo A)
      → V.contents l.vector_ack ≡ p ∷ ps
      → l.infos p ≡ some m
      → head_ready V l ≡ ok (m.bits == 0)
  unfolding head_ready
  head_ready-cons l p ps m e h =
      let some_left : ltb 0 (V.number_of_elt l.vector_ack) ≡ true =
        rw (V.number_of_elt_lem l.vector_ack, e) (ground arith) in
      rw (info_at-append V (λ r. true) 0 l [] ps p m e h) (rw some_left refl)

  deliver_first-Rep :
      (l : Log V A) (p : Ptr) (ps : List Ptr) (qs : List (MsgInfo A)) (m : MsgInfo A)
      (ms : List (MsgInfo A))
      → Rep l (p ∷ ps) qs (m ∷ ms)
      → Rep (deliver_first V l) ps (qs ++ m ∷ []) ms
  unfolding deliver_first
  deliver_first-Rep l p ps qs m ms r =
      let first = V.remove_first_lem p ps l.vector_ack r.vector in
      record {
        vector = first.1;
        queue =
            rw first.0
              (Holds-append l.infos l.delivery_queue (p ∷ []) qs (m ∷ []) r.queue (r.acks.0, tt));
        acks = r.acks.1;
        distinct = rw (first.0, append_assoc) r.distinct;
      }

  -- The log after the loop.
  pub record Delivered (l : Log V A) (qs ms : List (MsgInfo A)) (l' : Log V A) : Type 0 where
    pub pointers : List Ptr
    pub stands : Rep l' pointers (qs ++ ready ms) (waiting ms)
    pub highest : l'.highest_delivered ≡ l.highest_delivered + length (ready ms)
    pub blocks :
        l'.delivery_queue ++ V.contents l'.vector_ack ≡ l.delivery_queue ++ V.contents l.vector_ack

  deliver_first-blocks :
      (l : Log V A) (p : Ptr) (ps : List Ptr)
      → V.contents l.vector_ack ≡ p ∷ ps
      → (deliver_first V l).delivery_queue ++ V.contents (deliver_first V l).vector_ack
        ≡ l.delivery_queue ++ V.contents l.vector_ack
  unfolding deliver_first
  deliver_first-blocks l p ps e =
      let first = V.remove_first_lem p ps l.vector_ack e in
      rw (first.0, first.1, e, append_assoc) refl

  Delivered-cons :
      (l l' : Log V A) (p : Ptr) (ps : List Ptr) (qs : List (MsgInfo A)) (m : MsgInfo A)
      (ms : List (MsgInfo A))
      → V.contents l.vector_ack ≡ p ∷ ps
      → (m.bits == 0) ≡ true
      → Delivered (deliver_first V l) (qs ++ m ∷ []) ms l'
      → Delivered l qs (m ∷ ms) l'
  unfolding deliver_first
  Delivered-cons l l' p ps qs m ms v e d = record {
    pointers = d.pointers;
    stands = rw e (rw (← append_assoc qs (m ∷ []) (ready ms)) d.stands);
    highest = rw e (omega (arith, d.highest));
    blocks = d.blocks ∙ deliver_first-blocks l p ps v;
  }

  Delivered-stop :
      (l : Log V A) (ps : List Ptr) (qs : List (MsgInfo A)) (m : MsgInfo A) (ms : List (MsgInfo A))
      → (m.bits == 0) ≡ false
      → Rep l ps qs (m ∷ ms)
      → Delivered l qs (m ∷ ms) l
  Delivered-stop l ps qs m ms e r = record {
    pointers = ps;
    stands = rw (e, append-nil) r;
    highest = rw e (omega arith);
    blocks = refl;
  }

  pub deliver_loop_lem :
      (fuel : ℕ) (l : Log V A) (ps : List Ptr) (qs ms : List (MsgInfo A))
      → Rep l ps qs ms
      → length ms < fuel
      → (l' : Log V A) × (deliver_loop V fuel l ≡ ok l') × Delivered l qs ms l'
  unfolding deliver_loop deliver_next
  deliver_loop_lem zero l ps qs ms r f = absurd (omega arith)
  deliver_loop_lem (suc fuel) l [] qs [] r f = (
    l,
    rw (head_ready-[] l r.vector) refl,
    record { pointers = []; stands = rw append-nil r; highest = omega arith; blocks = refl },
  )
  deliver_loop_lem (suc fuel) l [] qs (m ∷ ms) r f = elim r.acks [ ]
  deliver_loop_lem (suc fuel) l (p ∷ ps) qs [] r f = elim r.acks [ ]
  deliver_loop_lem (suc fuel) l (p ∷ ps) qs (m ∷ ms) r f =
      let test = head_ready-cons l p ps m r.vector r.acks.0 in
      elim (Bool-cases (m.bits == 0)) [
        | inl e ↦
            let (l2, ran, d) =
              deliver_loop_lem fuel (deliver_first V l) ps (qs ++ m ∷ []) ms
                (deliver_first-Rep l p ps qs m ms r) (omega arith) in
            (l2, rw test (rw e ran), Delivered-cons l l2 p ps qs m ms r.vector e d)
        | inr e ↦ (l, rw test (rw e refl), Delivered-stop l (p ∷ ps) qs m ms e r)
      ]

  -- The `for` changes the values in vector_ack alone.
  Marked-Rep :
      (covers : ℕ → Bool) (id : ℕ) (l l' : Log V A) (ps : List Ptr) (qs ms ms' : List (MsgInfo A))
      → Rep l ps qs ms
      → Marked V covers id l ps ms' l'
      → Rep l' ps qs ms'
  Marked-Rep covers id l l' ps qs ms ms' r k =
      let (dq, dp, apart) = Distinct-append l.delivery_queue ps r.distinct in
      record {
        vector = ap V.contents k.vector_ack ∙ r.vector;
        queue = rw k.delivery_queue (
            Holds-agree l.infos l'.infos l.delivery_queue qs
              (All-map (λ p. Fresh p ps) (λ p. l'.infos p ≡ l.infos p) k.others l.delivery_queue
                apart)
              r.queue);
        acks = k.values;
        distinct = rw k.delivery_queue r.distinct;
      }

  -- Where the pointers of the delivery queue and of vectorAck are distinct and point to the
  -- messages `qs` and `ms`, update_vector ends without a fault, whatever the ranks that it
  -- covers: it clears the bit of the process in the covered messages of `ms`, moves those before
  -- the first with a bit left to the end of `qs`, in order, counts them in highestDelivered, and
  -- keeps the rest and all the blocks.
  pub update_log_lem :
      (covers : ℕ → Bool) (id : ℕ) (l : Log V A) (ps : List Ptr) (qs ms : List (MsgInfo A))
      → Rep l ps qs ms
      → (l' : Log V A) × (update_log V covers id l ≡ ok l')
        × Delivered l qs (mark covers id l.highest_delivered ms) l'
  unfolding update_log
  update_log_lem covers id l ps qs ms r =
      let (dq, dp, apart) = Distinct-append l.delivery_queue ps r.distinct in
      let (l1, ran, k) = mark_loop_lem V covers id l [] ps ms r.vector dp r.acks in
      let ms' = mark covers id l.highest_delivered ms in
      let start : 0 + l.highest_delivered ≡ l.highest_delivered = omega arith in
      let k' = subst (λ n. Marked V covers id l ps (mark covers id n ms) l1) start k in
      let r1 = Marked-Rep covers id l l1 ps qs ms ms' r k' in
      let finish : Log V A → Outcome (Log V A) =
        λ l'. deliver_loop V (V.number_of_elt l'.vector_ack + 1) l' in
      let count : V.number_of_elt l.vector_ack ≡ length ps =
        V.number_of_elt_lem l.vector_ack ∙ ap length r.vector in
      let count1 : V.number_of_elt l1.vector_ack ≡ length ps =
        V.number_of_elt_lem l1.vector_ack ∙ ap length r1.vector in
      let (l2, ran2, d) =
        deliver_loop_lem (V.number_of_elt l1.vector_ack + 1) l1 ps qs ms' r1
          (omega (arith, count1, Holds-length l1.infos ps ms' r1.acks)) in
      (
        l2,
        ap (λ k. and_then (mark_loop V covers id k 0 l) finish) count
            ∙ ap (λ o. and_then o finish) ran
            ∙ ran2,
        record {
          pointers = d.pointers;
          stands = d.stands;
          highest = d.highest ∙ ap (λ (h : ℕ). h + length (ready ms')) k.highest;
          blocks =
              d.blocks
              ∙ ap₂ (λ (xs : List Ptr) (v : V.Vec Ptr). xs ++ V.contents v) k.delivery_queue
                  k.vector_ack;
        },
      )

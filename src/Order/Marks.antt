-- ===== src/Order/Marks.antt =====
-- The `for` of update_vector: it clears the bit of the process in the messages that `covers` holds
-- of, by their rank, and changes nothing else.
use protocol_pfe.Base.{
  ℕ, suc, ◌+◌, ◌≡◌, refl, sym, ap, subst, ◌∙◌, Bool, Bool-cases, inl, inr, some, List, [], ◌∷◌,
  ◌++◌, if◌then◌else◌, length, length-append, get_elem?-length, append_assoc, ==_ne, ==_refl, ok,
  arith,
}
use protocol_pfe.World.{Ptr, update}
use protocol_pfe.Vector.{VectorLib}
use protocol_pfe.Order.{MsgInfo, Log, clear_bit, deref, info_at, mark_at, mark_loop}
use protocol_pfe.Order.Holds.{Fresh, Distinct, Holds, Holds-but}

module _ {A : Type 0} where
  abbrev pub marked : (ℕ → Bool) → ℕ → ℕ → MsgInfo A → MsgInfo A
  marked covers id rank m = if covers rank then record m { bits = clear_bit m.bits id } else m

  -- The messages after the `for`, the first of them of rank `rank`.
  abbrev pub mark : (ℕ → Bool) → ℕ → ℕ → List (MsgInfo A) → List (MsgInfo A)
  mark covers id rank [] = []
  mark covers id rank (m ∷ ms) = marked covers id rank m ∷ mark covers id (suc rank) ms

module _ (V : VectorLib) {A : Type 0} (covers : ℕ → Bool) (id : ℕ) where
  -- What is left alone, and the values behind `ps`.
  pub record Marked (l : Log V A) (ps : List Ptr) (ms : List (MsgInfo A)) (l' : Log V A)
      : Type 0 where
    pub vector_ack : l'.vector_ack ≡ l.vector_ack
    pub delivery_queue : l'.delivery_queue ≡ l.delivery_queue
    pub highest : l'.highest_delivered ≡ l.highest_delivered
    pub values : Holds l'.infos ps ms
    pub others : (q : Ptr) → Fresh q ps → l'.infos q ≡ l.infos q

  pub info_at-append :
      (l : Log V A) (pre ps : List Ptr) (p : Ptr) (m : MsgInfo A)
      → V.contents l.vector_ack ≡ pre ++ p ∷ ps
      → l.infos p ≡ some m
      → info_at V (length pre) l ≡ ok (p, m)
  unfolding info_at deref
  info_at-append l pre ps p m e h =
      let here : V.element_at (length pre) l.vector_ack ≡ some p =
        V.element_at_lem (length pre) l.vector_ack
          (rw e (omega (arith, length-append pre (p ∷ ps))))
        ∙ rw e (get_elem?-length pre ps p) in
      rw (here, h) refl

  after : Log V A → ℕ → Ptr → MsgInfo A → Log V A
  after l i p m =
      if covers (i + l.highest_delivered)
      then record l { infos = update l.infos p (some (record m { bits = clear_bit m.bits id })) }
      else l

  mark_at_lem :
      (l : Log V A) (pre ps : List Ptr) (p : Ptr) (m : MsgInfo A)
      → V.contents l.vector_ack ≡ pre ++ p ∷ ps
      → l.infos p ≡ some m
      → mark_at V covers id (length pre) l ≡ ok (after l (length pre) p m)
  unfolding mark_at after
  mark_at_lem l pre ps p m e h = rw (info_at-append l pre ps p m e h) refl

  after-Marked :
      (l : Log V A) (i : ℕ) (p : Ptr) (m : MsgInfo A)
      → l.infos p ≡ some m
      → Marked l (p ∷ []) (marked covers id (i + l.highest_delivered) m ∷ []) (after l i p m)
  unfolding after
  after-Marked l i p m h = elim (Bool-cases (covers (i + l.highest_delivered))) [
    | inl e ↦ record {
      vector_ack = rw e refl;
      delivery_queue = rw e refl;
      highest = rw e refl;
      values = (rw (e, ==_refl p) refl, tt);
      others = λ q f. rw (e, ==_ne q p (λ h'. f.0 (sym h'))) refl;
    }
    | inr e ↦ record {
      vector_ack = rw e refl;
      delivery_queue = rw e refl;
      highest = rw e refl;
      values = (rw e h, tt);
      others = λ q f. rw e refl;
    }
  ]

  -- One round, then the others.
  Marked-cons :
      (l l' l'' : Log V A) (p : Ptr) (ps : List Ptr) (m : MsgInfo A) (ms : List (MsgInfo A))
      → Fresh p ps
      → Marked l (p ∷ []) (m ∷ []) l'
      → Marked l' ps ms l''
      → Marked l (p ∷ ps) (m ∷ ms) l''
  Marked-cons l l' l'' p ps m ms f h k = record {
    vector_ack = k.vector_ack ∙ h.vector_ack;
    delivery_queue = k.delivery_queue ∙ h.delivery_queue;
    highest = k.highest ∙ h.highest;
    values = (k.others p f ∙ h.values.0, k.values);
    others = λ q g. k.others q g.1 ∙ h.others q (g.0, tt);
  }

  pub mark_loop_lem :
      (l : Log V A) (pre ps : List Ptr) (ms : List (MsgInfo A))
      → V.contents l.vector_ack ≡ pre ++ ps
      → Distinct ps
      → Holds l.infos ps ms
      → (l' : Log V A) × (mark_loop V covers id (length ps) (length pre) l ≡ ok l')
        × Marked l ps (mark covers id (length pre + l.highest_delivered) ms) l'
  unfolding mark_loop
  mark_loop_lem l pre [] [] e d h = (
    l,
    refl,
    record {
      vector_ack = refl;
      delivery_queue = refl;
      highest = refl;
      values = tt;
      others = λ q f. refl;
    },
  )
  mark_loop_lem l pre [] (m ∷ ms) e d h = elim h [ ]
  mark_loop_lem l pre (p ∷ ps) [] e d h = elim h [ ]
  mark_loop_lem l pre (p ∷ ps) (m ∷ ms) e d h =
      let l1 = after l (length pre) p m in
      let first = after-Marked l (length pre) p m h.0 in
      let one_more : length (pre ++ p ∷ []) ≡ length pre + 1 =
        omega (arith, length-append pre (p ∷ [])) in
      let next_rank : length (pre ++ p ∷ []) + l1.highest_delivered
          ≡ suc (length pre + l.highest_delivered) =
        omega (arith, one_more, first.highest) in
      let (l2, ran, rest) =
        mark_loop_lem l1 (pre ++ p ∷ []) ps ms
          (ap V.contents first.vector_ack ∙ e ∙ sym (append_assoc pre (p ∷ []) ps)) d.1
          (Holds-but l.infos l1.infos p ps ms (λ q ne. first.others q (ne, tt)) d.0 h.1) in
      (
        l2,
        rw (mark_at_lem l pre ps p m e h.0)
            (ap (λ n. mark_loop V covers id (length ps) n l1) (sym one_more) ∙ ran),
        Marked-cons l l1 l2 p ps (marked covers id (length pre + l.highest_delivered) m)
            (mark covers id (suc (length pre + l.highest_delivered)) ms) d.0 first
            (subst (λ n. Marked l1 ps (mark covers id n ms) l2) next_rank rest),
      )

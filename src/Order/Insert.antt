-- ===== src/Order/Insert.antt =====
-- A message is appended to vectorAck.
use protocol_pfe.Base.{
  ◌≡◌, ◌≢◌, refl, ap, ◌∙◌, some, List, [], ◌∷◌, ◌++◌, append_assoc, ==_refl, ==_ne, ok,
}
use protocol_pfe.World.{Ptr, null, update}
use protocol_pfe.Vector.{VectorLib}
use protocol_pfe.Order.{MsgInfo, Log, add_info}
use protocol_pfe.Order.Holds.{Fresh, Fresh-append, Distinct-snoc, Holds-update, Holds-append}
use protocol_pfe.Order.Ready.{Rep}

module _ (V : VectorLib) {A : Type 0} where
  -- The block is none of those in use.
  abbrev pub Unused : Ptr → Log V A → Type 0
  Unused p l = Fresh p (l.delivery_queue ++ V.contents l.vector_ack)

  inserted :
      (p : Ptr) (m : MsgInfo A) (l : Log V A) (ps : List Ptr) (qs ms : List (MsgInfo A))
      → Rep V l ps qs ms
      → Unused p l
      → (V.add_elt p l.vector_ack).0 ≡ 1
      → Rep V
          (record l {
            infos = update l.infos p (some m);
            vector_ack = (V.add_elt p l.vector_ack).1;
          })
          (ps ++ p ∷ [])
          qs
          (ms ++ m ∷ [])
  inserted p m l ps qs ms r f e =
      let f' : Fresh p (l.delivery_queue ++ ps) = rw r.vector at f in
      let (fq, fp) = Fresh-append p l.delivery_queue ps f' in
      record {
        vector =
            V.contents-add_elt p l.vector_ack e ∙ ap (λ (xs : List Ptr). xs ++ p ∷ []) r.vector;
        queue = Holds-update l.infos p (some m) l.delivery_queue qs fq r.queue;
        acks =
            Holds-append (update l.infos p (some m)) ps (p ∷ []) ms (m ∷ [])
              (Holds-update l.infos p (some m) ps ms fp r.acks) (rw (==_refl p) refl, tt);
        distinct =
            rw (← append_assoc l.delivery_queue ps (p ∷ []))
              (Distinct-snoc (l.delivery_queue ++ ps) p r.distinct f');
      }

  -- Where there is a block and room for it.
  pub add_info_lem :
      (p : Ptr) (m : MsgInfo A) (l : Log V A) (ps : List Ptr) (qs ms : List (MsgInfo A))
      → Rep V l ps qs ms
      → p ≢ null
      → Unused p l
      → (V.add_elt p l.vector_ack).0 ≡ 1
      → (l' : Log V A) × (add_info V p m l ≡ ok l') × Rep V l' (ps ++ p ∷ []) qs (ms ++ m ∷ [])
  unfolding add_info
  add_info_lem p m l ps qs ms r a f e = (
    record l { infos = update l.infos p (some m); vector_ack = (V.add_elt p l.vector_ack).1 },
    rw (==_ne p null a, e) refl,
    inserted p m l ps qs ms r f e,
  )

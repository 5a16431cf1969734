-- ===== src/Links/Extend.antt =====
-- bqueueExtend appends the values of a list to those of a queue, and freeList frees every link.
use protocol_pfe.Base.{
  ℕ, zero, suc, ◌≤◌, ◌<◌, ◌≡◌, ◌≢◌, refl, sym, ap, subst, ◌∙◌, true, none, List, [], ◌∷◌, ◌++◌,
  length, append-nil, append_assoc, All, All-append, ==_refl, ==_ne, ok, arith,
}
use protocol_pfe.World.{Ptr, null, update}
use protocol_pfe.Order.Holds.{Fresh, Distinct}
use protocol_pfe.Links.{
  Heap, TrList, TrBqueue, bqueue_enqueue, value_at, next_at, extend_loop, bqueue_extend, free_loop,
  free_list,
}
use protocol_pfe.Links.Chains.{
  Chain, IsList, last_of-All, Chain-agree, Chain-update, Chain-Fresh, Chain-last,
}
use protocol_pfe.Links.Refines.{link_at_lem, IsQueue, Enqueued, bqueue_enqueue-Enqueued}

-- The blocks that malloc returns are free and apart.
abbrev pub Free : Heap → List Ptr → Type 0
Free heap ms = All (λ m. (m ≢ null) × (heap m ≡ none)) ms × Distinct ms

-- No link of the one list is a link of the other.
abbrev pub Apart : List Ptr → List Ptr → Type 0
Apart ps qs = All (λ p. Fresh p qs) ps

module _ (heap heap1 : Heap) (q q1 : TrBqueue) (vs : List ℕ) (m v : ℕ) (s : IsQueue q heap vs)
    (e : Enqueued m v q heap vs s.list.rest q1 heap1) where
  -- A link that is neither new nor the last of the queue.
  same_link : (x : Ptr) → x ≢ m → Fresh x (q.list.first ∷ s.list.rest) → heap1 x ≡ heap x
  same_link x new apart = e.others x new (λ at_last.
      last_of-All (λ y. y ≢ x) q.list.first s.list.rest apart (sym s.list.end ∙ sym at_last))

  same_links :
      (ps : List Ptr)
      → Fresh m ps
      → Apart ps (q.list.first ∷ s.list.rest)
      → All (λ x. heap1 x ≡ heap x) ps
  same_links [] new apart = tt
  same_links (p ∷ ps) new apart = (same_link p new.0 apart.0, same_links ps new.1 apart.1)

  still-Apart :
      (ps : List Ptr)
      → Fresh m ps
      → Apart ps (q.list.first ∷ s.list.rest)
      → Apart ps (q1.list.first ∷ e.queue.list.rest)
  still-Apart [] new apart = tt
  still-Apart (p ∷ ps) new apart = (
    rw (e.first, e.grown)
        (
          apart.0.0,
          All-append (λ y. y ≢ p) s.list.rest (m ∷ []) apart.0.1 ((λ g. new.0 (sym g)), tt),
        ),
    still-Apart ps new.1 apart.1,
  )

  still_unused :
      (ms : List Ptr)
      → Fresh m ms
      → All (λ x. (x ≢ null) × (heap x ≡ none)) ms
      → All (λ x. (x ≢ null) × (heap1 x ≡ none)) ms
  still_unused [] new free = tt
  still_unused (x ∷ xs) new ((z, none_there), others) =
      let (r, there) = Chain-last heap q.list.first s.list.rest vs s.list.chain in
      (
        (
          z,
          e.others x new.0 (λ at_last. cc (ap heap (at_last ∙ s.list.end), there, none_there))
              ∙ none_there,
        ),
        still_unused xs new.1 others,
      )

extend_loop_lem :
    (ms : List Ptr) (p : Ptr) (ps : List Ptr) (us vs : List ℕ) (q : TrBqueue) (heap : Heap)
    (s : IsQueue q heap vs)
    → Chain heap (p ∷ ps) us
    → All (λ x. x ≢ null) (p ∷ ps)
    → Apart (p ∷ ps) (q.list.first ∷ s.list.rest)
    → Free heap ms
    → length us ≤ length ms
    → (q' : TrBqueue) × (heap' : Heap) × (extend_loop bqueue_enqueue true ms p q heap
        ≡ ok (q', heap'))
      × IsQueue q' heap' (vs ++ us)
unfolding extend_loop value_at next_at
extend_loop_lem ms p [] (u ∷ us) vs q heap s c z apart free enough = elim c [ ]
extend_loop_lem ms p (x ∷ ps) [] vs q heap s c z apart free enough = elim c [ ]
extend_loop_lem [] p [] [] vs q heap s (r, c) z apart free enough = (
  q,
  heap,
  rw (==_ne p null z.0, link_at_lem heap p _ z.0 c) refl,
  subst (IsQueue q heap) (sym (append-nil vs)) s,
)
extend_loop_lem (m ∷ ms) p [] [] vs q heap s (r, c) z apart free enough = (
  q,
  heap,
  rw (==_ne p null z.0, link_at_lem heap p _ z.0 c) refl,
  subst (IsQueue q heap) (sym (append-nil vs)) s,
)
extend_loop_lem [] p (x ∷ ps) (u ∷ us) vs q heap s c z apart free enough = absurd (omega arith)
extend_loop_lem (m ∷ ms) p (x ∷ ps) (u ∷ us) vs q heap s (nz, r, c, cs) z apart free enough =
    let new : Fresh m (p ∷ x ∷ ps) =
      Chain-Fresh heap m (p ∷ x ∷ ps) (u ∷ us) free.0.0.1 (nz, r, c, cs) in
    let (q1, heap1, ran, e) = bqueue_enqueue-Enqueued m u q heap vs s free.0.0.0 free.0.0.1 nz in
    let p_kept = same_link heap heap1 q q1 vs m u s e p new.0 apart.0 in
    let kept = same_links heap heap1 q q1 vs m u s e (x ∷ ps) new.1 apart.1 in
    let (q', heap', ran', s') =
      extend_loop_lem ms x ps us (vs ++ u ∷ []) q1 heap1 e.queue
        (Chain-agree heap heap1 (x ∷ ps) us kept cs) z.1
        (still-Apart heap heap1 q q1 vs m u s e (x ∷ ps) new.1 apart.1)
        (still_unused heap heap1 q q1 vs m u s e ms free.1.0 free.0.1, free.1.1) (omega arith) in
    (
      q',
      heap',
      rw (==_ne p null z.0, link_at_lem heap p _ z.0 c)
          (rw (==_ne u 0 nz, ran) (rw (link_at_lem heap1 p _ z.0 (p_kept ∙ c)) ran')),
      subst (IsQueue q' heap') (append_assoc vs (u ∷ []) us) s',
    )

-- On a queue that holds the values `vs` as a chain of links, counted by readSem, and a list that
-- holds the values `us` as a chain of other links, bqueueExtend, for whose new links malloc
-- returns as many different free blocks as there are values or more, ends, and the queue holds
-- `vs` and then `us`, counted again.
pub bqueue_extend_lem :
    (ms : List Ptr) (q : TrBqueue) (list : TrList) (heap : Heap) (vs us : List ℕ)
    (s : IsQueue q heap vs) (t : IsList list heap us)
    → Apart (list.first ∷ t.rest) (q.list.first ∷ s.list.rest)
    → Free heap ms
    → length us ≤ length ms
    → (q' : TrBqueue) × (heap' : Heap) × (bqueue_extend ms q list heap ≡ ok (q', heap'))
      × IsQueue q' heap' (vs ++ us)
unfolding bqueue_extend
bqueue_extend_lem ms q list heap vs us s t apart free enough =
    extend_loop_lem ms list.first t.rest us vs q heap s t.chain t.valid apart free enough

free_loop_lem :
    (fuel : ℕ) (p : Ptr) (ps : List Ptr) (heap : Heap) (vs : List ℕ)
    → Chain heap (p ∷ ps) vs
    → Distinct (p ∷ ps)
    → All (λ x. x ≢ null) (p ∷ ps)
    → length vs < fuel
    → (heap' : Heap) × (free_loop fuel p heap ≡ ok heap')
      × All (λ x. heap' x ≡ none) (p ∷ ps)
      × ((x : Ptr) → Fresh x (p ∷ ps) → heap' x ≡ heap x)
unfolding free_loop
free_loop_lem zero p ps heap vs c d z f = absurd (omega arith)
free_loop_lem (suc fuel) p [] heap (v ∷ vs) c d z f = elim c [ ]
free_loop_lem (suc fuel) p (x ∷ ps) heap [] c d z f = elim c [ ]
free_loop_lem (suc fuel) p [] heap [] (r, c) d z f = (
  update heap p none,
  rw (link_at_lem heap p _ z.0 c) refl,
  (rw (==_refl p) refl, tt),
  λ y h. rw (==_ne y p (λ e. h.0 (sym e))) refl,
)
free_loop_lem (suc fuel) p (x ∷ ps) heap (v ∷ vs) (nz, r, c, cs) d z f =
    let (heap', ran, gone, others) =
      free_loop_lem fuel x ps (update heap p none) vs (Chain-update heap p none (x ∷ ps) vs d.0 cs)
        d.1 z.1 (omega (arith, f)) in
    (
      heap',
      rw (link_at_lem heap p _ z.0 c, ==_ne x null z.1.0) ran,
      (others p d.0 ∙ rw (==_refl p) refl, gone),
      λ y h. others y h.1 ∙ rw (==_ne y p (λ e. h.0 (sym e))) refl,
    )

pub free_list_lem :
    (fuel : ℕ) (l : TrList) (heap : Heap) (vs : List ℕ) (s : IsList l heap vs)
    → length vs < fuel
    → (heap' : Heap) × (free_list fuel l heap ≡ ok heap')
      × All (λ x. heap' x ≡ none) (l.first ∷ s.rest)
      × ((x : Ptr) → Fresh x (l.first ∷ s.rest) → heap' x ≡ heap x)
unfolding free_list
free_list_lem fuel l heap vs s f =
    free_loop_lem fuel l.first s.rest heap vs s.chain s.distinct s.valid f

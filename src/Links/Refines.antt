-- ===== src/Links/Refines.antt =====
-- The operations on lists and queues are those of sequences.
use protocol_pfe.Base.{
  ℕ, zero, suc, ◌+◌, ◌-◌, ◌<◌, ◌≡◌, ◌≢◌, refl, sym, ◌∙◌, false, none, some, List, [], ◌∷◌, ◌++◌,
  length, length-append, All, All-append, ◌==◌, ==_refl, ==_ne, ok, arith,
}
use protocol_pfe.World.{Ptr, null, update}
use protocol_pfe.Order.{deref}
use protocol_pfe.Order.Holds.{Fresh, Distinct, Distinct-snoc}
use protocol_pfe.Links.{
  ListLink, Heap, TrList, TrBqueue, link_at, unlink_first, remove_link, list_remove_first,
  link_last, list_append, clean_step, clean_loop, clean_list, bqueue_enqueue, bqueue_dequeue,
}
use protocol_pfe.Links.Chains.{
  Chain, IsList, last_of, last_of-All, last_of-snoc, Chain-Fresh, Chain-snoc, Chain-last,
  Chain-first, Chain-update,
}

pub link_at_lem :
    (heap : Heap) (p : Ptr) (link : ListLink)
    → p ≢ null
    → heap p ≡ some link
    → link_at heap p ≡ ok link
unfolding link_at deref
link_at_lem heap p link z e = rw (==_ne p null z, e) refl

-- What listAppend leaves in the heap.
appended : Ptr → ℕ → Ptr → Ptr → Heap → Heap
appended p v last r heap =
    update (update heap p (some (record { value = 0; next = null; previous = last }))) last
      (some (record { value = v; next = p; previous = r }))

-- After listAppend: the list has one more link and one more value, and no link of another list has
-- changed.
pub record Lengthened (p : Ptr) (v : ℕ) (l : TrList) (heap : Heap) (vs : List ℕ) (links : List Ptr)
    (l' : TrList) (heap' : Heap) : Type 0 where
  pub list : IsList l' heap' (vs ++ v ∷ [])
  pub first : l'.first ≡ l.first
  pub grown : list.rest ≡ links ++ p ∷ []
  pub others : (q : Ptr) → q ≢ p → q ≢ l.last → heap' q ≡ heap q

pub list_append_lem :
    (p : Ptr) (v : ℕ) (l : TrList) (heap : Heap) (vs : List ℕ) (s : IsList l heap vs)
    → p ≢ null
    → heap p ≡ none
    → v ≢ 0
    → (l' : TrList) × (heap' : Heap) × (list_append p v l heap ≡ ok (l', heap'))
      × Lengthened p v l heap vs s.rest l' heap'
unfolding list_append link_last appended
list_append_lem p v l heap vs s z free nz =
    let fresh : Fresh p (l.first ∷ s.rest) =
      Chain-Fresh heap p (l.first ∷ s.rest) vs free s.chain in
    let (r, tail) = Chain-last heap l.first s.rest vs s.chain in
    let last = last_of l.first s.rest in
    let apart : last ≢ p = last_of-All (λ q. q ≢ p) l.first s.rest fresh in
    let heap1 : Heap = update heap p (some (record { value = 0; next = null; previous = last })) in
    let here : heap1 last ≡ some (record { value = 0; next = null; previous = r }) =
      rw (==_ne last p apart) tail in
    let ran : link_at heap1 last ≡ ok (record { value = 0; next = null; previous = r }) =
      link_at_lem heap1 last _ (last_of-All (λ q. q ≢ null) l.first s.rest s.valid) here in
    (
      record { first = l.first; last = p },
      appended p v last r heap,
      rw (s.end, ==_ne v 0 nz, ==_ne p null z, ran) refl,
      record {
        first = refl;
        grown = refl;
        others = λ q a b. rw (==_ne q last (λ e. b (e ∙ sym s.end)), ==_ne q p a) refl;
        list = record {
          rest = s.rest ++ p ∷ [];
          chain =
              Chain-snoc heap (appended p v last r heap) l.first s.rest vs p v r last s.chain
                s.distinct nz (rw (==_refl last) refl)
                (λ q d e. rw (==_ne q last (λ g. d (sym g)), ==_ne q p e) refl) fresh
                (rw (==_ne p last (λ g. apart (sym g)), ==_refl p) refl);
          distinct = Distinct-snoc (l.first ∷ s.rest) p s.distinct fresh;
          valid = All-append (λ q. q ≢ null) (l.first ∷ s.rest) (p ∷ []) s.valid (z, tt);
          end = sym (last_of-snoc l.first s.rest p);
        };
      },
    )

-- listRemoveFirst takes the first value.
removed :
    (l : TrList) (heap : Heap) (rest : List Ptr) (v : ℕ) (vs : List ℕ)
    → Chain heap (l.first ∷ rest) (v ∷ vs)
    → Distinct (l.first ∷ rest)
    → All (λ p. p ≢ null) (l.first ∷ rest)
    → l.last ≡ last_of l.first rest
    → (l' : TrList) × (heap' : Heap) × (list_remove_first l heap ≡ ok (v, l', heap'))
      × IsList l' heap' vs
unfolding list_remove_first remove_link unlink_first
removed l heap [] v vs c d z e = elim c [ ]
removed l heap (q ∷ rest) v vs (nz, r, c, cs) d z e =
    let (next, there, chain) = Chain-first heap q rest vs cs d.1 in
    let heap1 = update heap q (some (record next { previous = null })) in
    let first = link_at_lem heap l.first _ z.0 c in
    let second = link_at_lem heap q next z.1.0 there in
    (
      record { first = q; last = l.last },
      update heap1 l.first none,
      rw (==_ne l.first null z.0, first, ==_ne v 0 nz, second) refl,
      record {
        rest = rest;
        chain = Chain-update heap1 l.first none (q ∷ rest) vs d.0 chain;
        distinct = d.1;
        valid = z.1;
        end = e;
      },
    )

pub list_remove_first_lem :
    (l : TrList) (heap : Heap) (v : ℕ) (vs : List ℕ)
    → IsList l heap (v ∷ vs)
    → (l' : TrList) × (heap' : Heap) × (list_remove_first l heap ≡ ok (v, l', heap'))
      × IsList l' heap' vs
list_remove_first_lem l heap v vs s = removed l heap s.rest v vs s.chain s.distinct s.valid s.end

-- The queue holds these values, and readSem counts them.
pub record IsQueue (q : TrBqueue) (heap : Heap) (vs : List ℕ) : Type 0 where
  pub list : IsList q.list heap vs
  pub counted : q.read_sem ≡ length vs

-- After bqueueEnqueue.
pub record Enqueued (p : Ptr) (v : ℕ) (q : TrBqueue) (heap : Heap) (vs : List ℕ) (links : List Ptr)
    (q' : TrBqueue) (heap' : Heap) : Type 0 where
  pub queue : IsQueue q' heap' (vs ++ v ∷ [])
  pub first : q'.list.first ≡ q.list.first
  pub grown : queue.list.rest ≡ links ++ p ∷ []
  pub others : (x : Ptr) → x ≢ p → x ≢ q.list.last → heap' x ≡ heap x

pub bqueue_enqueue-Enqueued :
    (p : Ptr) (v : ℕ) (q : TrBqueue) (heap : Heap) (vs : List ℕ) (s : IsQueue q heap vs)
    → p ≢ null
    → heap p ≡ none
    → v ≢ 0
    → (q' : TrBqueue) × (heap' : Heap) × (bqueue_enqueue p v q heap ≡ ok (q', heap'))
      × Enqueued p v q heap vs s.list.rest q' heap'
unfolding bqueue_enqueue
bqueue_enqueue-Enqueued p v q heap vs s z free nz =
    let (l', heap', ran, a) = list_append_lem p v q.list heap vs s.list z free nz in
    (
      record { list = l'; read_sem = q.read_sem + 1 },
      heap',
      rw ran refl,
      record {
        queue = record {
          list = a.list;
          counted = omega (arith, s.counted, length-append vs (v ∷ []));
        };
        first = a.first;
        grown = a.grown;
        others = a.others;
      },
    )

-- On a queue whose links form a chain that ends in a link without a value, hold the values `vs`
-- and are counted by readSem, bqueueEnqueue of a value that is not NULL, with a free block for
-- the link, returns, and the queue holds `vs` and then the value, counted again.
pub bqueue_enqueue_lem :
    (p : Ptr) (v : ℕ) (q : TrBqueue) (heap : Heap) (vs : List ℕ)
    → IsQueue q heap vs
    → p ≢ null
    → heap p ≡ none
    → v ≢ 0
    → (q' : TrBqueue) × (heap' : Heap) × (bqueue_enqueue p v q heap ≡ ok (q', heap'))
      × IsQueue q' heap' (vs ++ v ∷ [])
bqueue_enqueue_lem p v q heap vs s z free nz =
    let (q', heap', ran, e) = bqueue_enqueue-Enqueued p v q heap vs s z free nz in
    (q', heap', ran, e.queue)

-- A dequeue of a queue with these values: it waits, or takes the first.
abbrev pub Dequeued : TrBqueue → Heap → List ℕ → Type 0
Dequeued q heap [] = bqueue_dequeue q heap ≡ ok none
Dequeued q heap (v ∷ vs) =
    (q' : TrBqueue) × (heap' : Heap) × (bqueue_dequeue q heap ≡ ok (some (v, q', heap')))
    × IsQueue q' heap' vs

-- On such a queue, bqueueDequeue waits where it holds nothing, and otherwise returns the first
-- value, and the queue holds the others, counted again.
pub bqueue_dequeue_lem :
    (q : TrBqueue) (heap : Heap) (vs : List ℕ) → IsQueue q heap vs → Dequeued q heap vs
unfolding bqueue_dequeue
bqueue_dequeue_lem q heap [] s = rw s.counted refl
bqueue_dequeue_lem q heap (v ∷ vs) s =
    let (l', heap', ran, s') = list_remove_first_lem q.list heap v vs s.list in
    let some_left : (q.read_sem == 0) ≡ false = ground (arith, s.counted) in
    (
      record { list = l'; read_sem = q.read_sem - 1 },
      heap',
      rw (some_left, ran) refl,
      record { list = s'; counted = omega (arith, s.counted) },
    )

clean_loop_lem :
    (fuel : ℕ) (p : Ptr) (ps : List Ptr) (heap : Heap) (vs : List ℕ)
    → Chain heap (p ∷ ps) vs
    → Distinct (p ∷ ps)
    → All (λ q. q ≢ null) (p ∷ ps)
    → length vs < fuel
    → (heap' : Heap) × (clean_loop fuel p heap ≡ ok (last_of p ps, heap'))
      × Chain heap' (last_of p ps ∷ []) []
unfolding clean_loop clean_step
clean_loop_lem zero p ps heap vs c d z f = absurd (omega arith)
clean_loop_lem (suc fuel) p [] heap [] (r, c) d z f =
    (heap, rw (link_at_lem heap p _ z.0 c) refl, (r, c))
clean_loop_lem (suc fuel) p [] heap (v ∷ vs) c d z f = elim c [ ]
clean_loop_lem (suc fuel) p (q ∷ ps) heap [] c d z f = elim c [ ]
clean_loop_lem (suc fuel) p (q ∷ ps) heap (v ∷ vs) (nz, r, c, cs) d z f =
    let (heap', ran, c') =
      clean_loop_lem fuel q ps (update heap p none) vs (Chain-update heap p none (q ∷ ps) vs d.0 cs)
        d.1 z.1 (omega (arith, f)) in
    (heap', rw (link_at_lem heap p _ z.0 c, ==_ne v 0 nz) ran, c')

pub clean_list_lem :
    (fuel : ℕ) (l : TrList) (heap : Heap) (vs : List ℕ)
    → IsList l heap vs
    → length vs < fuel
    → (l' : TrList) × (heap' : Heap) × (clean_list fuel l heap ≡ ok (l', heap'))
      × IsList l' heap' []
unfolding clean_list
clean_list_lem fuel l heap vs s f =
    let (heap', ran, c) = clean_loop_lem fuel l.first s.rest heap vs s.chain s.distinct s.valid f in
    let last = last_of l.first s.rest in
    (
      record { first = last; last = last },
      heap',
      rw ran refl,
      record {
        rest = [];
        chain = c;
        distinct = (tt, tt);
        valid = (last_of-All (λ q. q ≢ null) l.first s.rest s.valid, tt);
        end = refl;
      },
    )

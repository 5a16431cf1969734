-- ===== src/Links/Tests.antt =====
-- A queue with one value.
use protocol_pfe.Base.{◌≡◌, refl, none, some, [], ◌∷◌, ◌==◌, if◌then◌else◌, ok, arith}
use protocol_pfe.World.{null}
use protocol_pfe.Links.{Heap, TrBqueue, bqueue_extend, TrList}
use protocol_pfe.Links.Extend.{bqueue_extend_lem}
use protocol_pfe.Links.Chains.{IsList}
use protocol_pfe.Links.Refines.{IsQueue, Dequeued, bqueue_dequeue_lem}

abbrev one_value : Heap
one_value p =
    if p == 10
    then some (record { value = 7; next = 20; previous = null })
    else if p == 20
    then some (record { value = 0; next = null; previous = 10 })
    else none

-- With a list of one more value.
abbrev two_lists : Heap
two_lists p =
    if p == 40
    then some (record { value = 9; next = 50; previous = null })
    else if p == 50
    then some (record { value = 0; next = null; previous = 40 })
    else one_value p

abbrev list : TrList
list = record { first = 40; last = 50 }

abbrev queue : TrBqueue
queue = record { list = record { first = 10; last = 20 }; read_sem = 1 }

queue-IsList : IsList queue.list one_value (7 ∷ [])
queue-IsList = record {
  rest = 20 ∷ [];
  chain = ((λ e. omega (arith, e)), null, refl, (10, refl));
  distinct = (((λ e. omega (arith, e)), tt), (tt, tt));
  valid = ((λ e. omega (arith, e)), ((λ e. omega (arith, e)), tt));
  end = refl;
}

queue-IsQueue : IsQueue queue one_value (7 ∷ [])
queue-IsQueue = record { list = queue-IsList; counted = refl }

bqueue_dequeue_lem_example : Dequeued queue one_value (7 ∷ [])
bqueue_dequeue_lem_example = bqueue_dequeue_lem queue one_value (7 ∷ []) queue-IsQueue

abbrev list_links : IsList list two_lists (9 ∷ [])
list_links = record {
  rest = 50 ∷ [];
  chain = ((λ e. omega (arith, e)), null, refl, (40, refl));
  distinct = (((λ e. omega (arith, e)), tt), (tt, tt));
  valid = ((λ e. omega (arith, e)), ((λ e. omega (arith, e)), tt));
  end = refl;
}

abbrev queue_beside : IsList queue.list two_lists (7 ∷ [])
queue_beside = record {
  rest = 20 ∷ [];
  chain = ((λ e. omega (arith, e)), null, refl, (10, refl));
  distinct = (((λ e. omega (arith, e)), tt), (tt, tt));
  valid = ((λ e. omega (arith, e)), ((λ e. omega (arith, e)), tt));
  end = refl;
}

bqueue_extend_example :
    (q' : TrBqueue) × (heap' : Heap) × (bqueue_extend (60 ∷ []) queue list two_lists
      ≡ ok (q', heap'))
    × IsQueue q' heap' (7 ∷ 9 ∷ [])
bqueue_extend_example =
    bqueue_extend_lem (60 ∷ []) queue list two_lists (7 ∷ []) (9 ∷ [])
      (record { list = queue_beside; counted = refl }) list_links
      (
        ((λ e. omega (arith, e)), ((λ e. omega (arith, e)), tt)),
        (((λ e. omega (arith, e)), ((λ e. omega (arith, e)), tt)), tt),
      )
      ((((λ e. omega (arith, e)), refl), tt), (tt, tt)) (omega arith)

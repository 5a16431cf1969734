-- ===== src/Links.antt =====
-- src/list.c and src/bqueue.c: linked lists on the heap, which end in a link without a value, and
-- blocking queues over them. The mutex of a list makes each operation one step.
pub mod Chains
pub mod Refines
pub mod Extend
pub mod Tests
use protocol_pfe.Base.{
  ℕ, zero, suc, ◌+◌, ◌-◌, ◌≡◌, ◌≢◌, Bool, true, false, ◌&&◌, List, [], ◌∷◌, Option, none, some,
  ◌==◌, if◌then◌else◌, Outcome, ok, exited, fault, out_of_fuel, and_then,
}
use protocol_pfe.World.{Ptr, null, update}
use protocol_pfe.Order.{deref}

-- LINK. A value is a pointer, 0 for NULL.
pub record ListLink : Type 0 where
  pub value : ℕ
  pub next : Ptr
  pub previous : Ptr

-- The links of all the lists.
abbrev pub Heap : Type 0
Heap = Ptr → Option ListLink

-- trList
pub record TrList : Type 0 where
  pub first : Ptr
  pub last : Ptr

-- trBqueue, with the value of readSem.
pub record TrBqueue : Type 0 where
  pub list : TrList
  pub read_sem : ℕ

-- A read through a pointer.
unfoldable pub link_at : Heap → Ptr → Outcome ListLink
link_at heap p = if p == null then fault else deref (heap p)

-- `p` is what malloc returns for a link.
unfoldable pub new_list : Ptr → Heap → Outcome (TrList × Heap)
new_list p heap =
    if p == null
    then exited
    else ok (
      record { first = p; last = p },
      update heap p (some (record { value = 0; next = null; previous = null })),
    )

-- link->next->previous = NULLINK, and the first link is freed.
unfoldable pub unlink_first : TrList → Heap → ListLink → ListLink → ℕ × TrList × Heap
unlink_first l heap link next =
    let heap1 = update heap link.next (some (record next { previous = null })) in
    (link.value, record l { first = link.next }, update heap1 l.first none)

unfoldable pub remove_link : TrList → Heap → ListLink → Outcome (ℕ × TrList × Heap)
remove_link l heap link =
    if link.value == 0
    then ok (0, l, heap)
    else and_then (link_at heap link.next) (λ next. ok (unlink_first l heap link next))

unfoldable pub list_remove_first : TrList → Heap → Outcome (ℕ × TrList × Heap)
list_remove_first l heap =
    if l.first == null
    then ok (0, l, heap)
    else and_then (link_at heap l.first) (remove_link l heap)

-- The old last link takes the value, the new one stands behind it.
unfoldable pub link_last : Ptr → ℕ → TrList → Heap → ListLink → TrList × Heap
link_last p elt l heap ex_last =
    (record l { last = p }, update heap l.last (some (record ex_last { value = elt; next = p })))

unfoldable pub list_append : Ptr → ℕ → TrList → Heap → Outcome (TrList × Heap)
list_append p elt l heap =
    let heap1 = update heap p (some (record { value = 0; next = null; previous = l.last })) in
    if elt == 0
    then ok (l, heap)
    else if p == null
    then exited
    else and_then (link_at heap1 l.last) (λ ex_last. ok (link_last p elt l heap1 ex_last))

-- The loop of cleanList, on fuel, from the link `p` on.
unfoldable pub clean_step :
    (Ptr → Heap → Outcome (Ptr × Heap)) → Ptr → Heap → ListLink → Outcome (Ptr × Heap)
clean_step again p heap link =
    let rest = again link.next (update heap p none) in
    if link.value == 0 then ok (p, heap) else rest

unfoldable pub clean_loop : ℕ → Ptr → Heap → Outcome (Ptr × Heap)
clean_loop zero p heap = out_of_fuel
clean_loop (suc fuel) p heap = and_then (link_at heap p) (clean_step (clean_loop fuel) p heap)

unfoldable pub clean_list : ℕ → TrList → Heap → Outcome (TrList × Heap)
clean_list fuel l heap =
    and_then (clean_loop fuel l.first heap) (λ r. ok (record { first = r.0; last = r.0 }, r.1))

unfoldable pub new_bqueue : Ptr → Heap → Outcome (TrBqueue × Heap)
new_bqueue p heap = and_then (new_list p heap) (λ r. ok (record { list = r.0; read_sem = 0 }, r.1))

unfoldable pub bqueue_enqueue : Ptr → ℕ → TrBqueue → Heap → Outcome (TrBqueue × Heap)
bqueue_enqueue p elt q heap =
    and_then (list_append p elt q.list heap)
      (λ r. ok (record { list = r.0; read_sem = q.read_sem + 1 }, r.1))

-- It waits where readSem is 0, which gives `none`.
unfoldable pub bqueue_dequeue : TrBqueue → Heap → Outcome (Option (ℕ × TrBqueue × Heap))
bqueue_dequeue q heap =
    if q.read_sem == 0
    then ok none
    else and_then (list_remove_first q.list heap)
        (λ r. ok (some (r.0, record { list = r.1; read_sem = q.read_sem - 1 }, r.2)))

-- The value at a link, and its next link. The loop of bqueueExtend ends at NULL too, which is
-- `null_ends`.
unfoldable pub value_at : Bool → Heap → Ptr → Outcome ℕ
value_at null_ends heap p =
    if null_ends && (p == null) then ok 0 else and_then (link_at heap p) (λ link. ok link.value)

unfoldable pub next_at : Heap → Ptr → Outcome Ptr
next_at heap p = and_then (link_at heap p) (λ link. ok link.next)

-- The loop of listExtend and of bqueueExtend, which append the values of a list one by one. The
-- first argument is what malloc returns for the new links; with none left the loop goes on for
-- ever, as it does where a list is to be extended by itself.
unfoldable pub extend_loop :
    {S : Type 0}
    → (Ptr → ℕ → S → Heap → Outcome (S × Heap))
    → Bool
    → List Ptr
    → Ptr
    → S
    → Heap
    → Outcome (S × Heap)
extend_loop append null_ends [] p s heap =
    and_then (value_at null_ends heap p) (λ v. if v == 0 then ok (s, heap) else out_of_fuel)
extend_loop append null_ends (m ∷ ms) p s heap = and_then (value_at null_ends heap p) (λ v.
    if v == 0
    then ok (s, heap)
    else and_then (append m v s heap)
        (λ r. and_then (next_at r.1 p) (λ next. extend_loop append null_ends ms next r.0 r.1)))

unfoldable pub list_extend : List Ptr → TrList → TrList → Heap → Outcome (TrList × Heap)
list_extend ms a_list b_list heap = extend_loop list_append false ms b_list.first a_list heap

unfoldable pub bqueue_extend : List Ptr → TrBqueue → TrList → Heap → Outcome (TrBqueue × Heap)
bqueue_extend ms q list heap = extend_loop bqueue_enqueue true ms list.first q heap

-- The loop of freeList, on fuel, from the link `p` on.
unfoldable pub free_loop : ℕ → Ptr → Heap → Outcome Heap
free_loop zero p heap = out_of_fuel
free_loop (suc fuel) p heap = and_then (link_at heap p) (λ link.
    let rest = free_loop fuel link.next (update heap p none) in
    if link.next == null then ok (update heap p none) else rest)

unfoldable pub free_list : ℕ → TrList → Heap → Outcome Heap
free_list fuel l heap = free_loop fuel l.first heap

-- freeBqueue, whose semaphore is then not used any more.
unfoldable pub free_bqueue : ℕ → TrBqueue → Heap → Outcome Heap
free_bqueue fuel q heap = free_list fuel q.list heap

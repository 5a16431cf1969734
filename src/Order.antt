-- ===== src/Order.antt =====
-- The acknowledged messages of a process, which protocol_tcp/main.c and protocol_udp/mainUDP.c keep
-- in vectorAck until all the processes are known to have them: the body of update_vector, and
-- the insertion of a message. `covers` is the comparison of a rank with the ack of a message,
-- which is the one difference between the versions of update_vector.
pub mod Bits
pub mod Holds
pub mod Marks
pub mod Ready
pub mod Insert
pub mod Tests
use protocol_pfe.Base.{
  ℕ, zero, suc, ◌+◌, ◌-◌, ◌^◌, Bool, true, false, Option, none, some, List, [], ◌∷◌, ◌++◌, ◌==◌,
  ltb, if◌then◌else◌, bit_and, Outcome, ok, exited, fault, out_of_fuel, and_then,
}
use protocol_pfe.World.{Ptr, null, update}
use protocol_pfe.Vector.{VectorLib}

-- msg_info, over the type of the messages. A message that is not there is NULL.
pub record MsgInfo (A : Type 0) : Type 0 where
  pub message : Option A
  pub bits : ℕ

-- vector_ack, the blocks of the msg_infos, deliveryQueue and highestDelivered.
pub record Log (V : VectorLib) (A : Type 0) : Type 0 where
  pub vector_ack : V.Vec Ptr
  pub infos : Ptr → Option (MsgInfo A)
  pub delivery_queue : List Ptr
  pub highest_delivered : ℕ

-- `bits & ~(1 << id)`, on 32 bits.
unfoldable pub clear_bit : ℕ → ℕ → ℕ
clear_bit bits id = bit_and bits (2 ^ 32 - 1 - 2 ^ id)

-- A read through a pointer that may be NULL or point to no block.
unfoldable pub deref : {A : Type 0} → Option A → Outcome A
deref none = fault
deref (some a) = ok a

module _ (V : VectorLib) {A : Type 0} where
  -- elementAt(i, vector_ack), and the msg_info that it points to.
  unfoldable pub info_at : ℕ → Log V A → Outcome (Ptr × MsgInfo A)
  info_at i l =
      and_then (deref (V.element_at i l.vector_ack))
        (λ p. and_then (deref (l.infos p)) (λ m. ok (p, m)))

  -- The body of the `for`.
  unfoldable pub mark_at : (ℕ → Bool) → ℕ → ℕ → Log V A → Outcome (Log V A)
  mark_at covers id i l = and_then (info_at i l) (λ r. ok (
      if covers (i + l.highest_delivered)
      then record l {
        infos = update l.infos r.0 (some (record (r.1) { bits = clear_bit r.1.bits id }));
      }
      else l))

  -- The `for` from `i` on, with `n` elements to go.
  unfoldable pub mark_loop : (ℕ → Bool) → ℕ → ℕ → ℕ → Log V A → Outcome (Log V A)
  mark_loop covers id zero i l = ok l
  mark_loop covers id (suc n) i l = and_then (mark_at covers id i l) (mark_loop covers id n (i + 1))

  -- The test of the `while`.
  unfoldable pub head_ready : Log V A → Outcome Bool
  head_ready l =
      let first = and_then (info_at 0 l) (λ r. ok (r.1.bits == 0)) in
      if ltb 0 (V.number_of_elt l.vector_ack) then first else ok false

  -- Its body. bqueueEnqueue leaves out a NULL.
  unfoldable pub deliver_first : Log V A → Log V A
  deliver_first l = record l {
    vector_ack = (V.remove_first l.vector_ack).1;
    delivery_queue =
        l.delivery_queue ++ elim (V.remove_first l.vector_ack).0 [ none ↦ [] | some p ↦ p ∷ [] ];
    highest_delivered = l.highest_delivered + 1;
  }

  unfoldable pub deliver_next : (Log V A → Outcome (Log V A)) → Log V A → Bool → Outcome (Log V A)
  deliver_next again l true = again (deliver_first l)
  deliver_next again l false = ok l

  -- The `while`, on fuel.
  unfoldable pub deliver_loop : ℕ → Log V A → Outcome (Log V A)
  deliver_loop zero l = out_of_fuel
  deliver_loop (suc fuel) l = and_then (head_ready l) (deliver_next (deliver_loop fuel) l)

  -- Each round of the `while` takes an element out.
  unfoldable pub update_log : (ℕ → Bool) → ℕ → Log V A → Outcome (Log V A)
  update_log covers id l =
      and_then (mark_loop covers id (V.number_of_elt l.vector_ack) 0 l)
        (λ l'. deliver_loop (V.number_of_elt l'.vector_ack + 1) l')

  -- A new msg_info, at the block `p` that malloc has returned, is appended; `assert(status == 1)`.
  unfoldable pub add_info : Ptr → MsgInfo A → Log V A → Outcome (Log V A)
  add_info p m l =
      let r = V.add_elt p l.vector_ack in
      if p == null
      then fault
      else if r.0 == 1
      then ok (record l { infos = update l.infos p (some m); vector_ack = r.1 })
      else exited

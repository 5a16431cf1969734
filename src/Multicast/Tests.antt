-- ===== src/Multicast/Tests.antt =====
-- Four processes: process 1 has sent a message, the leader acks it, and the others have it.
use protocol_pfe.Base.{
  ℕ, ◌<◌, ◌≡◌, ◌≢◌, ◌⊎◌, ◌↔◌, true, refl, sym, append-nil, some, subst, List, [], ◌∷◌, Outcome, ok,
  arith,
}
use protocol_pfe.World.{null, update}
use protocol_pfe.Vector.{Roomy}
use protocol_pfe.Vector.Lists.{list_vectors}
use protocol_pfe.Order.{
  clear_bit, deref, update_log, mark_loop, mark_at, info_at, deliver_loop, deliver_next, head_ready,
}
use protocol_pfe.Books.{update_books, save_unacked, save_in}
use protocol_pfe.Order.Insert.{Unused}
use protocol_pfe.Books.History.{pending}
use protocol_pfe.Books.Moves.{receive}
use protocol_pfe.Books.Agreement.{Starts}
use protocol_pfe.Multicast.{
  Mcast, Ack, Node, initial_node, initialize, process_msg, handle_msg, handle_ack, on_start,
  update_vector, with_books, save_msg_in_vector_no_ack,
}
use protocol_pfe.Multicast.Acks.{sender}
use protocol_pfe.Multicast.Leader.{Leads, handle_msg-leader}
use protocol_pfe.Multicast.Follower.{Follows, handle_msg-follower, handle_ack-follower}
use protocol_pfe.Multicast.Prepare.{answers, heard, on_start-answers}
use protocol_pfe.Multicast.Runs.{LeaderRun, FollowerRun, group_agreement}
use protocol_pfe.Multicast.Begin.{initialize-leader, initialize-follower}

room : Roomy list_vectors
room A x v = refl

abbrev leader0 : Node list_vectors
leader0 = initial_node list_vectors 0 4 100

abbrev process2 : Node list_vectors
process2 = initial_node list_vectors 2 4 100

abbrev process3 : Node list_vectors
process3 = initial_node list_vectors 3 4 100

abbrev nothing : ℕ → List Mcast
nothing j = []

abbrev message : Mcast
message = record { id_process = 1; seq = 1; ack = 0 }

abbrev number_one : Ack
number_one = record { id_process = 1; seq = 1; rev_num = 1 }

not_null : 1 ≢ null
not_null e = omega (arith, e)

Unused-leader : Unused list_vectors 1 leader0.books.log
unfolding initial_node
Unused-leader = tt

handle_msg-leader_example :
    (n' : Node list_vectors) × (handle_msg list_vectors 1 message leader0 ≡ ok n')
    × Leads list_vectors n' (receive sender message nothing) (message ∷ [])
handle_msg-leader_example =
    handle_msg-leader list_vectors room 1 message leader0 nothing []
      (initialize-leader list_vectors 4 100) not_null Unused-leader

led :
    (n' : Node list_vectors) × (handle_msg list_vectors 1 message leader0 ≡ ok n')
    × Leads list_vectors n' (receive sender message nothing) (message ∷ [])
led =
    handle_msg-leader list_vectors room 1 message leader0 nothing []
      (initialize-leader list_vectors 4 100) not_null Unused-leader

new2 : Follows list_vectors process2 nothing [] []
new2 = initialize-follower list_vectors 2 4 100 (λ e. omega (arith, e))

known2 : message.id_process < process2.books.num_nodes
unfolding initial_node
known2 = omega arith

known3 : message.id_process < process3.books.num_nodes
unfolding initial_node
known3 = omega arith

-- A process that has saved the message.
abbrev holding : Node list_vectors → Node list_vectors
holding n = record n {
  books = record (n.books) { vector_no_ack = update n.books.vector_no_ack 1 (some (message ∷ [])) };
}

saves2 : handle_msg list_vectors 1 message process2 ≡ ok (holding process2)
unfolding handle_msg initial_node clear_bit update_vector with_books update_books update_log
    mark_loop mark_at info_at deref deliver_loop deliver_next head_ready save_msg_in_vector_no_ack
    save_unacked save_in
saves2 = refl

saves3 : handle_msg list_vectors 1 message process3 ≡ ok (holding process3)
unfolding handle_msg initial_node clear_bit update_vector with_books update_books update_log
    mark_loop mark_at info_at deref deliver_loop deliver_next head_ready save_msg_in_vector_no_ack
    save_unacked save_in
saves3 = refl

-- What is known of the result of a run, of its result by another computation.
same_run :
    (P : Node list_vectors → Type 0) (r : Outcome (Node list_vectors)) (n n' : Node list_vectors)
    → r ≡ ok n
    → r ≡ ok n'
    → P n
    → P n'
same_run P r n n' e e' h = let same : n ≡ n' = cc (e, e') in subst P same h

held2 : Follows list_vectors (holding process2) (receive sender message nothing) [] []
held2 =
    let (n', ran, s, grown) =
      handle_msg-follower list_vectors room 1 message process2 nothing [] [] new2 known2 in
    same_run (λ n. Follows list_vectors n (receive sender message nothing) [] []) _ n'
      (holding process2) ran saves2 s

unused2 : Unused list_vectors 1 (holding process2).books.log
unfolding initial_node
unused2 = tt

acked2 :
    (n' : Node list_vectors) × (handle_ack list_vectors 1 number_one (holding process2) ≡ ok n')
    × Follows list_vectors n' (receive sender message nothing) (message ∷ []) (number_one ∷ [])
    × (pending list_vectors n'.books 1 ≡ [])
    × (n'.ack_num ≡ 1)
acked2 =
    handle_ack-follower list_vectors room 1 number_one (holding process2)
      (receive sender message nothing) [] [] message [] held2 not_null unused2 known2 refl

-- The messages that process 1 has sent.
abbrev sent_in_all : ℕ → List Mcast
sent_in_all = receive sender message nothing

all_there : (j : ℕ) → Starts (sent_in_all j) (sent_in_all j)
all_there j = ([], append-nil (sent_in_all j))

leader_run : LeaderRun list_vectors led.0 sent_in_all
unfolding process_msg initialize
leader_run =
    LeaderRun.takes 1 message leader0 led.0 nothing (LeaderRun.begins 4 100 leader0 refl) not_null
      Unused-leader led.1

run3 : FollowerRun list_vectors (holding process3) sent_in_all []
unfolding process_msg initialize
run3 =
    FollowerRun.takes 1 message process3 (holding process3) nothing []
      (FollowerRun.begins 3 4 100 process3 (λ e. omega (arith, e)) refl) known3 saves3

run2 : FollowerRun list_vectors acked2.0 sent_in_all (number_one ∷ [])
unfolding process_msg initialize
run2 =
    FollowerRun.is_acked 1 number_one message [] (holding process2) acked2.0 sent_in_all []
      (FollowerRun.takes 1 message process2 (holding process2) nothing []
        (FollowerRun.begins 2 4 100 process2 (λ e. omega (arith, e)) refl) known2 saves2)
      not_null unused2 known2 refl acked2.1

group_agreement_example :
    Starts acked2.0.books.delivered (holding process3).books.delivered
    ⊎ Starts (holding process3).books.delivered acked2.0.books.delivered
group_agreement_example =
    group_agreement list_vectors room led.0 acked2.0 (holding process3) sent_in_all sent_in_all
      sent_in_all sent_in_all (number_one ∷ []) [] leader_run run2 run3 ([], sym led.2.ledger)
      (number_one ∷ [], sym led.2.ledger) all_there all_there all_there

-- Of four processes, the leader waits for three.
on_start-answers_example :
    (n : Node list_vectors) × (initialize list_vectors 0 4 100 ≡ ok n)
    × (((on_start list_vectors (answers list_vectors (3 ∷ 1 ∷ 2 ∷ []) n)).test_started ≡ true)
        ↔ ((j : ℕ) → 0 < j → j < 4 → heard j (3 ∷ 1 ∷ 2 ∷ []) ≡ true))
on_start-answers_example =
    on_start-answers list_vectors 4 100 (omega arith) (3 ∷ 1 ∷ 2 ∷ [])
      (omega arith, (omega arith, (omega arith, tt)))

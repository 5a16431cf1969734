-- ===== src/Multicast/Runs.antt =====
-- The runs of the processes of protocol_udp/mainUDP.c: from initialize on, each step is a datagram, or
-- a round of send_msg or deliver_msg. Whatever the steps, the leader leads and the
-- others follow.
use protocol_pfe.Base.{
  ℕ, ◌<◌, ◌≡◌, ◌≢◌, ◌⊎◌, refl, ap, List, [], ◌∷◌, ◌++◌, ◌==◌, ok, ok_same, subst,
}
use protocol_pfe.World.{Ptr, null}
use protocol_pfe.Vector.{VectorLib, Roomy}
use protocol_pfe.Order.Insert.{Unused}
use protocol_pfe.Books.History.{pending}
use protocol_pfe.Books.Moves.{receive}
use protocol_pfe.Books.Agreement.{Starts}
use protocol_pfe.Multicast.{
  Mcast, Ack, mcast, ack, Node, initialize, on_start, on_prepared, process_msg, handle_ack,
  send_msg, deliver_msg,
}
use protocol_pfe.Multicast.Acks.{sender, acks_of}
use protocol_pfe.Multicast.Leader.{Leads, handle_msg-leader, deliver_msg-leader}
use protocol_pfe.Multicast.Follower.{
  Follows, handle_msg-follower, handle_ack-follower, deliver_msg-follower,
}
use protocol_pfe.Multicast.Begin.{initialize-leader, initialize-follower, initialize-ok}
use protocol_pfe.Multicast.Agreement.{group-Starts}
use protocol_pfe.Multicast.Aside.{
  on_start-Leads, on_prepared-Leads, send_msg-Leads, on_start-Follows, send_msg-Follows,
}

-- The node is that of the leader after some steps, which have brought it these messages.
pub data LeaderRun (V : VectorLib) : Node V → (ℕ → List Mcast) → Type 0 where
  begins :
      (num_nodes total_size : ℕ) (n : Node V)
      → initialize V 0 num_nodes total_size ≡ ok n
      → LeaderRun V n (λ j. [])
  takes :
      (p : Ptr) (b : Mcast) (n n' : Node V) (received : ℕ → List Mcast)
      → LeaderRun V n received
      → p ≢ null
      → Unused V p n.books.log
      → process_msg V p (mcast b) n ≡ ok n'
      → LeaderRun V n' (receive sender b received)
  hears :
      (p : Ptr) (a : Ack) (n n' : Node V) (received : ℕ → List Mcast)
      → LeaderRun V n received
      → process_msg V p (ack a) n ≡ ok n'
      → LeaderRun V n' received
  starts :
      (n : Node V) (received : ℕ → List Mcast)
      → LeaderRun V n received
      → LeaderRun V (on_start V n) received
  answered :
      (id : ℕ) (n : Node V) (received : ℕ → List Mcast)
      → LeaderRun V n received
      → LeaderRun V (on_prepared V id n) received
  sends :
      (n : Node V) (received : ℕ → List Mcast)
      → LeaderRun V n received
      → LeaderRun V (send_msg V n) received
  delivers :
      (n n' : Node V) (received : ℕ → List Mcast)
      → LeaderRun V n received
      → deliver_msg V n ≡ ok n'
      → LeaderRun V n' received

-- The node is that of another process after some steps, which have brought it these messages and
-- acks. An ack comes after its message.
pub data FollowerRun (V : VectorLib) : Node V → (ℕ → List Mcast) → List Ack → Type 0 where
  begins :
      (self_id num_nodes total_size : ℕ) (n : Node V)
      → self_id ≢ 0
      → initialize V self_id num_nodes total_size ≡ ok n
      → FollowerRun V n (λ j. []) []
  takes :
      (p : Ptr) (b : Mcast) (n n' : Node V) (received : ℕ → List Mcast) (acks : List Ack)
      → FollowerRun V n received acks
      → b.id_process < n.books.num_nodes
      → process_msg V p (mcast b) n ≡ ok n'
      → FollowerRun V n' (receive sender b received) acks
  is_acked :
      (p : Ptr) (a : Ack) (b : Mcast) (rest : List Mcast) (n n' : Node V)
      (received : ℕ → List Mcast) (acks : List Ack)
      → FollowerRun V n received acks
      → p ≢ null
      → Unused V p n.books.log
      → a.id_process < n.books.num_nodes
      → pending V n.books a.id_process ≡ b ∷ rest
      → process_msg V p (ack a) n ≡ ok n'
      → FollowerRun V n' received (acks ++ a ∷ [])
  starts :
      (n : Node V) (received : ℕ → List Mcast) (acks : List Ack)
      → FollowerRun V n received acks
      → FollowerRun V (on_start V n) received acks
  sends :
      (n : Node V) (received : ℕ → List Mcast) (acks : List Ack)
      → FollowerRun V n received acks
      → FollowerRun V (send_msg V n) received acks
  delivers :
      (n n' : Node V) (received : ℕ → List Mcast) (acks : List Ack)
      → FollowerRun V n received acks
      → deliver_msg V n ≡ ok n'
      → FollowerRun V n' received acks

module _ (V : VectorLib) (room : Roomy V) where
  pub LeaderRun-Leads :
      (n : Node V) (received : ℕ → List Mcast)
      → LeaderRun V n received
      → (h : List Mcast) × Leads V n received h
  unfolding process_msg handle_ack
  LeaderRun-Leads _ _ (LeaderRun.begins num_nodes total_size n e) = (
    [],
    subst (λ m. Leads V m (λ j. []) []) (initialize-ok V 0 num_nodes total_size n e)
        (initialize-leader V num_nodes total_size),
  )
  LeaderRun-Leads _ _ (LeaderRun.takes p b n n' received r a u e) =
      let (h, s) = LeaderRun-Leads n received r in
      let (n1, ran, s1) = handle_msg-leader V room p b n received h s a u in
      (
        h ++ b ∷ [],
        ok_same (λ m. Leads V m (receive sender b received) (h ++ b ∷ [])) _ n1 n' ran e s1,
      )
  LeaderRun-Leads _ _ (LeaderRun.hears p a n n' received r e) =
      let (h, s) = LeaderRun-Leads n received r in
      (
        h,
        ok_same (λ m. Leads V m received h) (process_msg V p (ack a) n) n n'
            (rw (ap (λ x. x == 0) s.first) refl) e s,
      )
  LeaderRun-Leads _ _ (LeaderRun.starts n received r) =
      let (h, s) = LeaderRun-Leads n received r in (h, on_start-Leads V n received h s)
  LeaderRun-Leads _ _ (LeaderRun.answered id n received r) =
      let (h, s) = LeaderRun-Leads n received r in (h, on_prepared-Leads V id n received h s)
  LeaderRun-Leads _ _ (LeaderRun.sends n received r) =
      let (h, s) = LeaderRun-Leads n received r in (h, send_msg-Leads V n received h s)
  LeaderRun-Leads _ _ (LeaderRun.delivers n n' received r e) =
      let (h, s) = LeaderRun-Leads n received r in
      let (n1, ran, s1) = deliver_msg-leader V n received h s in
      (h, ok_same (λ m. Leads V m received h) _ n1 n' ran e s1)

  pub FollowerRun-Follows :
      (n : Node V) (received : ℕ → List Mcast) (acks : List Ack)
      → FollowerRun V n received acks
      → (h : List Mcast) × Follows V n received h acks
  unfolding process_msg
  FollowerRun-Follows _ _ _ (FollowerRun.begins self_id num_nodes total_size n z e) = (
    [],
    subst (λ m. Follows V m (λ j. []) [] []) (initialize-ok V self_id num_nodes total_size n e)
        (initialize-follower V self_id num_nodes total_size z),
  )
  FollowerRun-Follows _ _ _ (FollowerRun.takes p b n n' received acks r lt e) =
      let (h, s) = FollowerRun-Follows n received acks r in
      let (n1, ran, s1, grown) = handle_msg-follower V room p b n received h acks s lt in
      (h, ok_same (λ m. Follows V m (receive sender b received) h acks) _ n1 n' ran e s1)
  FollowerRun-Follows _ _ _ (FollowerRun.is_acked p a b rest n n' received acks r z u lt wait e) =
      let (h, s) = FollowerRun-Follows n received acks r in
      let (n1, ran, s1, left, num) =
        handle_ack-follower V room p a n received h acks b rest s z u lt wait in
      (
        h ++ b ∷ [],
        ok_same (λ m. Follows V m received (h ++ b ∷ []) (acks ++ a ∷ [])) _ n1 n' ran e s1,
      )
  FollowerRun-Follows _ _ _ (FollowerRun.starts n received acks r) =
      let (h, s) = FollowerRun-Follows n received acks r in
      (h, on_start-Follows V n received h acks s)
  FollowerRun-Follows _ _ _ (FollowerRun.sends n received acks r) =
      let (h, s) = FollowerRun-Follows n received acks r in
      (h, send_msg-Follows V n received h acks s)
  FollowerRun-Follows _ _ _ (FollowerRun.delivers n n' received acks r e) =
      let (h, s) = FollowerRun-Follows n received acks r in
      let (n1, ran, s1) = deliver_msg-follower V n received h acks s in
      (h, ok_same (λ m. Follows V m received h acks) _ n1 n' ran e s1)

  -- With multicast, let the leader and two other processes come from initialize by any steps:
  -- messages and acks that they handle, 'y', 'z' at the leader, and rounds of send_msg and
  -- deliver_msg, with new blocks for the msg_infos, with an ack after its message at the two, and
  -- vectors with room. Where the two have received the acks in the order in which the leader has
  -- sent them, and all three have the messages of each process in the order in which it has sent
  -- them, the messages delivered by one of the two are a prefix of those delivered by the other.
  pub group_agreement :
      (leader n n' : Node V) (sent received_leader received received' : ℕ → List Mcast)
      (acks acks' : List Ack)
      → LeaderRun V leader received_leader
      → FollowerRun V n received acks
      → FollowerRun V n' received' acks'
      → Starts acks (acks_of leader.sent)
      → Starts acks' (acks_of leader.sent)
      → ((j : ℕ) → Starts (received_leader j) (sent j))
      → ((j : ℕ) → Starts (received j) (sent j))
      → ((j : ℕ) → Starts (received' j) (sent j))
      → Starts n.books.delivered n'.books.delivered ⊎ Starts n'.books.delivered n.books.delivered
  group_agreement leader n n' sent received_leader received received' acks acks' l f f' a a' k0 k
        k' =
      let (h0, s0) = LeaderRun-Leads leader received_leader l in
      let (h, s) = FollowerRun-Follows n received acks f in
      let (h', s') = FollowerRun-Follows n' received' acks' f' in
      group-Starts V leader received_leader sent h0 s0 k0 n received h acks n' received' h' acks' s
        s' a a' k k'

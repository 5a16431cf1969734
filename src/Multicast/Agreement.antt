-- ===== src/Multicast/Agreement.antt =====
-- The processes of protocol_udp/mainUDP.c have one order, which is that of the leader.
use protocol_pfe.Base.{ℕ, ◌+◌, ◌≡◌, refl, ap, ◌⊎◌, List, [], ◌∷◌, map, map-append}
use protocol_pfe.Vector.{VectorLib}
use protocol_pfe.Books.Agreement.{
  Starts, Starts-trans, Starts-both, merge, Starts-received, Starts-delivered,
}
use protocol_pfe.Multicast.{Mcast, Ack, Node}
use protocol_pfe.Multicast.Acks.{sender, acks_of, numbering}
use protocol_pfe.Multicast.Leader.{Leads}
use protocol_pfe.Multicast.Follower.{Follows}

ids-numbering :
    (k : ℕ) (h : List Mcast)
    → map (λ (a : Ack). a.id_process) (numbering k h) ≡ map (λ (b : Mcast). b.id_process) h
ids-numbering k [] = refl
ids-numbering k (b ∷ h) = ap (λ xs. b.id_process ∷ xs) (ids-numbering (k + 1) h)

module _ (V : VectorLib) where
  module _ (leader : Node V) (received_leader sent : ℕ → List Mcast) (h_leader : List Mcast)
      (leads : Leads V leader received_leader h_leader)
      (in_order : (j : ℕ) → Starts (received_leader j) (sent j)) where
    -- The acks come to a process in the order in which the leader sends them.
    pub order_of-Starts :
        (n : Node V) (received : ℕ → List Mcast) (h : List Mcast) (acks : List Ack)
        → Follows V n received h acks
        → Starts acks (acks_of leader.sent)
        → ((j : ℕ) → Starts (received j) (sent j))
        → Starts h h_leader
    order_of-Starts n received h acks s (zs, e) k =
        merge sender h h_leader sent
          (
            map (λ (a : Ack). a.id_process) zs,
            rw (s.order, ← map-append (λ (a : Ack). a.id_process) acks zs, e, leads.ledger)
                (ids-numbering 0 h_leader),
          )
          (Starts-received V sender n.books received sent h s.story k)
          (Starts-received V sender leader.books received_leader sent h_leader leads.story in_order)

    -- With multicast, where two processes have received the acks in the order in which the leader
    -- has sent them, and they and the leader have received the messages of each process in the
    -- order in which they were sent, the messages delivered by one of the two are a prefix of
    -- those delivered by the other.
    pub group-Starts :
        (n : Node V) (received : ℕ → List Mcast) (h : List Mcast) (acks : List Ack) (n' : Node V)
        (received' : ℕ → List Mcast) (h' : List Mcast) (acks' : List Ack)
        → Follows V n received h acks
        → Follows V n' received' h' acks'
        → Starts acks (acks_of leader.sent)
        → Starts acks' (acks_of leader.sent)
        → ((j : ℕ) → Starts (received j) (sent j))
        → ((j : ℕ) → Starts (received' j) (sent j))
        → Starts n.books.delivered n'.books.delivered ⊎ Starts n'.books.delivered n.books.delivered
    group-Starts n received h acks n' received' h' acks' s s' a a' k k' =
        Starts-both n.books.delivered n'.books.delivered h_leader
          (Starts-trans n.books.delivered h h_leader
            (Starts-delivered V sender n.books received h s.story)
            (order_of-Starts n received h acks s a k))
          (Starts-trans n'.books.delivered h' h_leader
            (Starts-delivered V sender n'.books received' h' s'.story)
            (order_of-Starts n' received' h' acks' s' a' k'))

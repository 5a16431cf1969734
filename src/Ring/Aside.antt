-- ===== src/Ring/Aside.antt =====
-- Steps of protocol_tcp/main.c that leave the order of the messages alone.
use protocol_pfe.Base.{ℕ, ◌+◌, ◌≡◌, refl, sym, ◌∙◌, true, List, [], ◌∷◌, ◌==◌, if_value, append-nil}
use protocol_pfe.Vector.{VectorLib}
use protocol_pfe.Ring.{Bcast, Ack, start, Node, send, on_start}
use protocol_pfe.Ring.Acks.{acks_of, acks_of-append}
use protocol_pfe.Ring.Leader.{Leads}
use protocol_pfe.Ring.Follower.{Follows}

module _ (V : VectorLib) where
  -- The packet 'y' changes nothing of the order.
  same_field :
      {B : Type 0} (f : Node V → B) (n : Node V)
      → ((m : Node V) → f (record m { posted = n.posted + 1; started = true }) ≡ f m)
      → f (send V start n) ≡ f n
      → f (on_start V n) ≡ f n
  unfolding on_start
  same_field f n e g =
      if_value f n.started n _ (f n) refl
        (e _ ∙ if_value f (n.self_id == 0) n (send V start n) (f n) refl g)

  pub on_start-Leads :
      (n : Node V) (received : ℕ → List Bcast) (h : List Bcast)
      → Leads V n received h
      → Leads V (on_start V n) received h
  unfolding send
  on_start-Leads n received h s =
      let same : (on_start V n).books ≡ n.books = same_field (λ m. m.books) n (λ m. refl) refl in
      record {
        first = same_field (λ m. m.self_id) n (λ m. refl) refl ∙ s.first;
        story = rw same s.story;
        idle = rw same s.idle;
        count = same_field (λ m. m.ack_num) n (λ m. refl) refl ∙ s.count;
        ledger =
            same_field (λ m. acks_of m.sent) n (λ m. refl)
              (acks_of-append n.sent (start ∷ []) ∙ append-nil (acks_of n.sent))
            ∙ s.ledger;
      }

  pub on_start-Follows :
      (n : Node V) (received : ℕ → List Bcast) (h : List Bcast) (acks : List Ack)
      → Follows V n received h acks
      → Follows V (on_start V n) received h acks
  unfolding send
  on_start-Follows n received h acks s =
      let same : (on_start V n).books ≡ n.books = same_field (λ m. m.books) n (λ m. refl) refl in
      let self : (on_start V n).self_id ≡ n.self_id =
        same_field (λ m. m.self_id) n (λ m. refl) refl in
      record { behind = λ e. s.behind (sym self ∙ e); story = rw same s.story; order = s.order }

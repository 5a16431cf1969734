-- ===== src/Order/Tests.antt =====
-- A process whose first message has one bit left, and whose second has two.
use protocol_pfe.Base.{ℕ, ◌≡◌, refl, ◌==◌, none, some, [], ◌∷◌, if◌then◌else◌, leb, ok, arith}
use protocol_pfe.Vector.Lists.{list_vectors}
use protocol_pfe.Order.{MsgInfo, Log, update_log}
use protocol_pfe.Order.Marks.{mark}
use protocol_pfe.Order.Ready.{Rep, Delivered, update_log_lem}

abbrev one_left : MsgInfo ℕ
one_left = record { message = some 7; bits = 4 }

abbrev two_left : MsgInfo ℕ
two_left = record { message = some 8; bits = 6 }

abbrev two_messages : Log list_vectors ℕ
two_messages = record {
  vector_ack = 10 ∷ 20 ∷ [];
  infos = λ p. if p == 10 then some one_left else if p == 20 then some two_left else none;
  delivery_queue = [];
  highest_delivered = 5;
}

two_messages-Rep : Rep list_vectors two_messages (10 ∷ 20 ∷ []) [] (one_left ∷ two_left ∷ [])
two_messages-Rep = record {
  vector = refl;
  queue = tt;
  acks = (refl, (refl, tt));
  distinct = (((λ e. omega (arith, e)), tt), (tt, tt));
}

update_log_lem_example :
    (l' : Log list_vectors ℕ) × (update_log list_vectors (λ rank. leb rank 5) 2 two_messages
      ≡ ok l')
    × Delivered list_vectors two_messages []
        (mark (λ rank. leb rank 5) 2 5 (one_left ∷ two_left ∷ []))
        l'
update_log_lem_example =
    update_log_lem list_vectors (λ rank. leb rank 5) 2 two_messages (10 ∷ 20 ∷ []) []
      (one_left ∷ two_left ∷ []) two_messages-Rep

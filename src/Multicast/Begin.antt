-- ===== src/Multicast/Begin.antt =====
-- initialize of protocol_udp/mainUDP.c.
use protocol_pfe.Base.{
  ℕ, ◌≡◌, ◌≢◌, refl, sym, Bool-cases, inl, inr, [], ltb, leb, ok, fault, lt→ltb,
}
use protocol_pfe.Vector.{VectorLib}
use protocol_pfe.Multicast.{Node, max_nodes, initial_node, initialize}
use protocol_pfe.Books.History.{Story, pending}
use protocol_pfe.Multicast.Acks.{sender}
use protocol_pfe.Multicast.Leader.{Leads}
use protocol_pfe.Multicast.Follower.{Follows}

module _ (V : VectorLib) (self_id num_nodes total_size : ℕ) where
  nothing_pending : (j : ℕ) → pending V (initial_node V self_id num_nodes total_size).books j ≡ []
  unfolding initial_node
  nothing_pending j = elim (Bool-cases (ltb j num_nodes)) [
    | inl e ↦ rw e (V.contents-create_vector 5000)
    | inr e ↦ rw e refl
  ]

  initial-Story : Story V sender (initial_node V self_id num_nodes total_size).books (λ j. []) []
  unfolding initial_node
  initial-Story = record {
    ps = [];
    qs = [];
    ms = [];
    stands = record {
      vector = V.contents-create_vector 5000;
      queue = tt;
      acks = tt;
      distinct = tt;
    };
    todo = [];
    texts = tt;
    whole = refl;
    vectors = λ j lt. (V.create_vector 5000, rw (lt→ltb j num_nodes lt) refl);
    owned = λ j. rw (nothing_pending j) tt;
    balance = λ j. sym (nothing_pending j);
  }

pub initialize-leader :
    (V : VectorLib) (num_nodes total_size : ℕ)
    → Leads V (initial_node V 0 num_nodes total_size) (λ j. []) []
unfolding initial_node
initialize-leader V num_nodes total_size = record {
  first = refl;
  story = initial-Story V 0 num_nodes total_size;
  idle = nothing_pending V 0 num_nodes total_size;
  count = refl;
  ledger = refl;
}

pub initialize-follower :
    (V : VectorLib) (self_id num_nodes total_size : ℕ)
    → self_id ≢ 0
    → Follows V (initial_node V self_id num_nodes total_size) (λ j. []) [] []
unfolding initial_node
initialize-follower V self_id num_nodes total_size behind = record {
  behind = behind;
  story = initial-Story V self_id num_nodes total_size;
  order = refl;
}

pub initialize-ok :
    (V : VectorLib) (self_id num_nodes total_size : ℕ) (n : Node V)
    → initialize V self_id num_nodes total_size ≡ ok n
    → initial_node V self_id num_nodes total_size ≡ n
unfolding initialize
initialize-ok V self_id num_nodes total_size n e = elim (Bool-cases (leb num_nodes max_nodes)) [
  | inl few ↦ let f : ok (initial_node V self_id num_nodes total_size) ≡ ok n = rw few at e in cc f
  | inr many ↦ absurd (let f : fault ≡ ok n = rw many at e in cc f)
]

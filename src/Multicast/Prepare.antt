-- ===== src/Multicast/Prepare.antt =====
-- The start of the test in protocol_udp/mainUDP.c: the leader waits for an answer of each process.
use protocol_pfe.Base.{
  ℕ, zero, suc, ◌-◌, ◌/◌, ◌^◌, ◌<◌, ◌≤◌, leb, ok, ◌≡◌, ◌↔◌, refl, sym, ap, ◌∙◌, Bool, true, false,
  not, ◌&&◌, ◌||◌, Bool-cases, inl, inr, List, [], ◌∷◌, ◌==◌, ltb, All, ==_iff, bit, bit-zero,
  bit_ext, bit_and-le, arith,
}
use native.Mathlib.Nat.{pow-suc, one-le-pow, pow-le-pow_right}
use protocol_pfe.Vector.{VectorLib}
use protocol_pfe.Order.{clear_bit}
use protocol_pfe.Order.Bits.{bit-clear_bit}
use protocol_pfe.Multicast.{
  Node, max_nodes, initial_node, initialize, update_prepare_bits, on_prepared, on_start, send,
}

pub bit-ones : (n i : ℕ) → bit (2 ^ n - 1) i ≡ ltb i n
bit-ones zero i = bit-zero i ∙ ground arith
bit-ones (suc n) zero = ground (arith, pow-suc 2 n, one-le-pow n 2)
bit-ones (suc n) (suc i) =
    let e : (2 ^ suc n - 1) / 2 ≡ 2 ^ n - 1 = omega (arith, pow-suc 2 n, one-le-pow n 2) in
    rw e (bit-ones n i ∙ ground arith)

-- The process is among those that have answered.
abbrev pub heard : ℕ → List ℕ → Bool
heard j [] = false
heard j (i ∷ ids) = (i == j) || heard j ids

and-nor : (a b c : Bool) → ((a && not b) && not c) ≡ (a && not (b || c))
and-nor true true c = refl
and-nor true false c = refl
and-nor false b c = refl

-- A set of at most 32 processes is empty where each bit is clear.
bits-zero : (s : ℕ) → s < 2 ^ 32 → ((i : ℕ) → i < 32 → bit s i ≡ false) → s ≡ 0
bits-zero s h e = bit_ext 32 s 0 h (omega arith) (λ i k. e i k ∙ sym (bit-zero i))

module _ (V : VectorLib) where
  -- The leader takes the answers of these processes.
  abbrev pub answers : List ℕ → Node V → Node V
  answers [] n = n
  answers (i ∷ ids) n = answers ids (on_prepared V i n)

  prep_bits_lem :
      (ids : List ℕ) (n : Node V) (j : ℕ)
      → n.self_id ≡ 0
      → All (λ i. i < 32) ids
      → j < 32
      → bit ((answers ids n).prep_bits) j ≡ (bit n.prep_bits j && not (heard j ids))
  unfolding on_prepared update_prepare_bits
  prep_bits_lem [] n j z h k = ground arith
  prep_bits_lem (i ∷ ids) n j z h k =
      let next : on_prepared V i n ≡ record n { prep_bits = clear_bit n.prep_bits i } =
        rw (ap (λ x. x == 0) z) refl in
      let here : bit (clear_bit n.prep_bits i) j ≡ (bit n.prep_bits j && not (i == j)) =
        bit-clear_bit n.prep_bits i j h.0 k in
      ap (λ m. bit (answers ids m).prep_bits j) next
      ∙ prep_bits_lem ids (record n { prep_bits = clear_bit n.prep_bits i }) j z h.1 k
      ∙ ap (λ b. b && not (heard j ids)) here
      ∙ and-nor (bit n.prep_bits j) (i == j) (heard j ids)

  prep_bits-below :
      (ids : List ℕ) (n : Node V) → n.prep_bits < 2 ^ 32 → (answers ids n).prep_bits < 2 ^ 32
  unfolding on_prepared update_prepare_bits clear_bit
  prep_bits-below [] n h = h
  prep_bits-below (i ∷ ids) n h = elim (Bool-cases (n.self_id == 0)) [
    | inl e ↦ prep_bits-below ids (on_prepared V i n) (
        rw e
          (omega (arith, bit_and-le n.prep_bits n.prep_bits (2 ^ 32 - 1 - 2 ^ i) (omega arith), h)))
    | inr e ↦ prep_bits-below ids (on_prepared V i n) (rw e h)
  ]

  self_id-answers : (ids : List ℕ) (n : Node V) → (answers ids n).self_id ≡ n.self_id
  unfolding on_prepared update_prepare_bits
  self_id-answers [] n = refl
  self_id-answers (i ∷ ids) n = self_id-answers ids (on_prepared V i n) ∙ ground arith

  test_started-answers : (ids : List ℕ) (n : Node V) → (answers ids n).test_started ≡ n.test_started
  unfolding on_prepared update_prepare_bits
  test_started-answers [] n = refl
  test_started-answers (i ∷ ids) n = test_started-answers ids (on_prepared V i n) ∙ ground arith

  on_start-started :
      (n : Node V)
      → n.self_id ≡ 0
      → n.test_started ≡ false
      → (on_start V n).test_started ≡ (n.prep_bits == 0)
  unfolding on_start send
  on_start-started n z s =
      rw (ap (λ x. x == 0) z)
        (elim (Bool-cases (n.prep_bits == 0)) [ inl e ↦ rw e refl | inr e ↦ rw e s ])

  module _ (num_nodes total_size : ℕ) (few : num_nodes ≤ 5) (ids : List ℕ)
      (valid : All (λ i. i < 32) ids) where
    abbrev leader : Node V
    leader = answers ids (initial_node V 0 num_nodes total_size)

    leader-bit :
        (j : ℕ)
        → j < 32
        → bit leader.prep_bits j ≡ ((ltb j num_nodes && not (0 == j)) && not (heard j ids))
    unfolding initial_node
    leader-bit j k =
        prep_bits_lem ids (initial_node V 0 num_nodes total_size) j refl valid k
        ∙ ap (λ b. b && not (heard j ids))
            (bit-clear_bit (2 ^ num_nodes - 1) 0 j (omega arith) k
              ∙ ap (λ b. b && not (0 == j)) (bit-ones num_nodes j))

    leader-below : leader.prep_bits < 2 ^ 32
    unfolding initial_node clear_bit
    leader-below = prep_bits-below ids (initial_node V 0 num_nodes total_size) (
        omega (
          arith,
          bit_and-le (2 ^ num_nodes - 1) (2 ^ num_nodes - 1) (2 ^ 32 - 1 - 2 ^ 0) (omega arith),
          pow-le-pow_right {n = 2} (omega arith) {i = num_nodes} {j = 32} (omega arith),
          one-le-pow num_nodes 2,
        ))

    leader-waits : (on_start V leader).test_started ≡ (leader.prep_bits == 0)
    unfolding initial_node
    leader-waits =
        on_start-started leader (self_id-answers ids (initial_node V 0 num_nodes total_size))
          (test_started-answers ids (initial_node V 0 num_nodes total_size))

    in_array : initialize V 0 num_nodes total_size ≡ ok (initial_node V 0 num_nodes total_size)
    unfolding initialize
    in_array = let i : leb num_nodes max_nodes ≡ true = ground (arith, few) in rw i refl

    -- With multicast among at most 5 processes (MAX_NODES), initialize of the leader succeeds,
    -- and after the leader has then taken any answers 'z' of processes below 32, the next 'y'
    -- starts the test exactly where each process but the leader is among those that have
    -- answered.
    pub on_start-answers :
        (n : Node V) × (initialize V 0 num_nodes total_size ≡ ok n)
        × (((on_start V (answers ids n)).test_started ≡ true)
            ↔ ((j : ℕ) → 0 < j → j < num_nodes → heard j ids ≡ true))
    on_start-answers = (
      initial_node V 0 num_nodes total_size,
      in_array,
      (
        (λ h j lo hi.
            let zero : leader.prep_bits ≡ 0 = (==_iff _ _).0 (sym leader-waits ∙ h) in
            let off : bit leader.prep_bits j ≡ false = ap (λ b. bit b j) zero ∙ bit-zero j in
            ground (arith, leader-bit j (omega arith), off, lo, hi)),
        (λ h.
            leader-waits
            ∙ ap (λ b. b == 0)
                (bits-zero leader.prep_bits leader-below (λ i k.
                  leader-bit i k ∙ elim (Bool-cases (ltb i num_nodes && not (0 == i))) [
                    | inl e ↦
                        let lo : 0 < i = ground (arith, e) in
                        let hi : i < num_nodes = ground (arith, e) in rw (e, h i lo hi) refl
                    | inr e ↦ rw e refl
                  ]))
            ∙ refl),
      ),
    )

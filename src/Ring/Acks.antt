-- ===== src/Ring/Acks.antt =====
-- The acks of protocol_tcp/main.c: those among the packets, and the numbers that the leader gives.
use protocol_pfe.Base.{ℕ, ◌+◌, ◌≡◌, refl, ap, List, [], ◌∷◌, ◌++◌, length, arith}
use protocol_pfe.Ring.{Bcast, Ack, Packet, bcast, ack, start, stop, other}

-- The process that a message is from.
abbrev pub sender : Bcast → ℕ
sender b = b.id_process

-- The acks among the packets.
abbrev pub acks_of : List Packet → List Ack
acks_of [] = []
acks_of (ack a ∷ ms) = a ∷ acks_of ms
acks_of (bcast b ∷ ms) = acks_of ms
acks_of (start ∷ ms) = acks_of ms
acks_of (stop ∷ ms) = acks_of ms
acks_of (other t ∷ ms) = acks_of ms

pub acks_of-append : (ms ms' : List Packet) → acks_of (ms ++ ms') ≡ acks_of ms ++ acks_of ms'
acks_of-append [] ms' = refl
acks_of-append (ack a ∷ ms) ms' = ap (λ xs. a ∷ xs) (acks_of-append ms ms')
acks_of-append (bcast b ∷ ms) ms' = acks_of-append ms ms'
acks_of-append (start ∷ ms) ms' = acks_of-append ms ms'
acks_of-append (stop ∷ ms) ms' = acks_of-append ms ms'
acks_of-append (other t ∷ ms) ms' = acks_of-append ms ms'

-- The acks of these messages, the first with the number after `k`.
abbrev pub numbering : ℕ → List Bcast → List Ack
numbering k [] = []
numbering k (b ∷ bs) =
    record { id_process = b.id_process; seq = b.seq; rev_num = k + 1 } ∷ numbering (k + 1) bs

pub numbering-snoc :
    (k : ℕ) (bs : List Bcast) (b : Bcast) (r : ℕ)
    → r ≡ k + length bs + 1
    → numbering k (bs ++ b ∷ [])
      ≡ numbering k bs ++ record { id_process = b.id_process; seq = b.seq; rev_num = r } ∷ []
numbering-snoc k [] b r e = ground (arith, e)
numbering-snoc k (c ∷ bs) b r e =
    ap (λ xs. record { id_process = c.id_process; seq = c.seq; rev_num = k + 1 } ∷ xs)
      (numbering-snoc (k + 1) bs b r (omega (arith, e)))

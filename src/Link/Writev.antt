-- ===== src/Link/Writev.antt =====
-- commWritev: how much of its buffers it sends.
use protocol_pfe.Base.{
  ℕ, ◌+◌, ◌≡◌, refl, ap, ◌∙◌, min, Bool, true, false, Option, none, some, List, [], ◌∷◌, ◌++◌,
  length, append-nil, ok, and_then,
}
use protocol_pfe.World.{u64}
use protocol_pfe.Link.Fully.{if_false}
use protocol_pfe.Link.{
  Turn, moves, interrupted, failed, Link, take, write_loop, gathered, count_writev, comm_writev,
}

-- How the calls of `write` for `len` bytes end: they move some of them, they fail, or the
-- connection is aborted while they wait; the flag `aborted` after them, and the turns left.
pub data Wrote (len : ℕ) : List Turn → Option ℕ → Bool → List Turn → Type 0 where
  moved : {n : ℕ} {ts : List Turn} → Wrote len (moves n ∷ ts) (some (min len (n + 1))) false ts
  failing : {ts : List Turn} → Wrote len (failed ∷ ts) none false ts
  aborting : {ts : List Turn} → Wrote len (interrupted true ∷ ts) none true ts
  retried :
      {a : Bool} {r : Option ℕ} {ts us : List Turn}
      → Wrote len ts r a us
      → Wrote len (interrupted false ∷ ts) r a us

-- The first bytes of the buffers, and none where nothing is written.
abbrev pub written : List ℕ → Option ℕ → List ℕ
written buf none = []
written buf (some k) = take k buf

-- The link after the calls.
abbrev pub after : List ℕ → Option ℕ → Bool → List Turn → Link → Link
after buf r a us l = record l { aborted = a; output = l.output ++ written buf r; turns = us }

write_loop_lem :
    (buf : List ℕ) (ts us : List Turn) (l : Link) (r : Option ℕ) (a : Bool)
    → l.aborted ≡ false
    → Wrote (length buf) ts r a us
    → write_loop buf ts l ≡ ok (r, after buf r a us l)
unfolding write_loop
write_loop_lem buf ts us l r a running moved = rw running refl
write_loop_lem buf ts us l r a running failing = rw (running, append-nil l.output) refl
write_loop_lem buf ts us l r a running aborting = rw (append-nil l.output) refl
write_loop_lem buf ts us l r a running (retried t) = write_loop_lem buf _ us l r a running t

-- What commWritev does where the connection is not aborted.
pub record Sent (buf : List ℕ) (r : Option ℕ) (a : Bool) (us : List Turn) (l l' : Link)
    : Type 0 where
  pub output : l'.output ≡ l.output ++ written buf r
  pub aborted : l'.aborted ≡ a
  pub turns : l'.turns ≡ us
  pub input : l'.input ≡ l.input
  pub calls : l'.writevs ≡ u64 (l.writevs + 1)

not_aborted :
    (iov : List (List ℕ)) (l : Link)
    → l.aborted ≡ false
    → comm_writev iov l ≡ and_then (write_loop (gathered iov) l.turns l) (λ q. ok (count_writev q))
unfolding comm_writev
not_aborted iov l running = if_false l.aborted _ _ running

Sent-count_writev :
    (buf : List ℕ) (us : List Turn) (l : Link) (r : Option ℕ) (a : Bool)
    → (l' : Link) × (count_writev (r, after buf r a us l) ≡ (r, l')) × Sent buf r a us l l'
unfolding count_writev
Sent-count_writev buf us l none a =
    (_, refl, record { output = refl; aborted = refl; turns = refl; input = refl; calls = refl })
Sent-count_writev buf us l (some k) a =
    (_, refl, record { output = refl; aborted = refl; turns = refl; input = refl; calls = refl })

pub comm_writev_lem :
    (iov : List (List ℕ)) (us : List Turn) (l : Link) (r : Option ℕ) (a : Bool)
    → l.aborted ≡ false
    → Wrote (length (gathered iov)) l.turns r a us
    → (l' : Link) × (comm_writev iov l ≡ ok (r, l')) × Sent (gathered iov) r a us l l'
comm_writev_lem iov us l r a running t =
    let (l', counted, s) = Sent-count_writev (gathered iov) us l r a in
    (
      l',
      not_aborted iov l running
          ∙ ap (λ o. and_then o (λ q. ok (count_writev q)))
              (write_loop_lem (gathered iov) l.turns us l r a running t)
          ∙ ap ok counted,
      s,
    )

-- On a connection whose flag `aborted` is set, commWritev sends nothing and returns -1, and the
-- next commWritev of the same buffers, whose calls of writev then move some bytes, fail or are
-- aborted, appends to the output exactly the first bytes that they move and returns their number,
-- or nothing and -1, and sets the flag again exactly where it is aborted.
pub comm_writev-again :
    (iov : List (List ℕ)) (us : List Turn) (l : Link) (r : Option ℕ) (a : Bool)
    → l.aborted ≡ true
    → Wrote (length (gathered iov)) l.turns r a us
    → (l1 l2 : Link) × (comm_writev iov l ≡ ok (none, l1))
      × (l1.output ≡ l.output)
      × (comm_writev iov l1 ≡ ok (r, l2))
      × Sent (gathered iov) r a us l l2
unfolding comm_writev
comm_writev-again iov us l r a stopped t =
    let l1 : Link = record l { aborted = false } in
    let (l2, ran, s) = comm_writev_lem iov us l1 r a refl t in
    (
      l1,
      l2,
      rw stopped refl,
      refl,
      ran,
      record {
        output = s.output;
        aborted = s.aborted;
        turns = s.turns;
        input = s.input;
        calls = s.calls;
      },
    )

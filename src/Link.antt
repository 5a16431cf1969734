-- ===== src/Link.antt =====
-- commRead, commReadFully, commWrite and commWritev of src/comm.c. The system calls are not the
-- program's: `turns` says, call by call, how many bytes `read` or `write` may move at most, or how
-- it fails. `read` returns 0 at the end of what the other side has sent.
pub mod Lists
pub mod Fully
pub mod Writev
pub mod Tests
use protocol_pfe.Base.{
  ℕ, zero, suc, ◌+◌, ◌-◌, ◌^◌, min, Bool, true, false, not, Option, none, some, List, [], ◌∷◌, ◌++◌,
  ◌&&◌, length, ltb, if◌then◌else◌, Outcome, ok, out_of_fuel, and_then,
}
use protocol_pfe.World.{u64}

-- `moves n`: up to n + 1 bytes. `interrupted a`: errno is EINTR, and commAbort has set `aborted`
-- where `a` is true. `failed`: another errno.
pub data Turn : Type 0 where
  moves : ℕ → Turn
  interrupted : Bool → Turn
  failed : Turn

-- A connection: its flag, what has been sent to it and not yet read, what it has sent, the turns of
-- the system calls to come (no turn left is a call that blocks for ever), and the counters.
pub record Link : Type 0 where
  pub aborted : Bool
  pub input : List ℕ
  pub output : List ℕ
  pub turns : List Turn
  pub reads : ℕ
  pub read_bytes : ℕ
  pub full_reads : ℕ
  pub full_read_bytes : ℕ
  pub writes : ℕ
  pub written_bytes : ℕ
  pub writevs : ℕ
  pub writev_bytes : ℕ

unfoldable pub take : ℕ → List ℕ → List ℕ
take zero xs = []
take (suc n) [] = []
take (suc n) (x ∷ xs) = x ∷ take n xs

unfoldable pub drop : ℕ → List ℕ → List ℕ
drop zero xs = xs
drop (suc n) [] = []
drop (suc n) (x ∷ xs) = drop n xs

-- The `do ... while` around `read`: the bytes read, or `none` for -1. A turn is used up by each
-- call, so the list of turns bounds the loop.
unfoldable pub read_loop : ℕ → List Turn → Link → Outcome (Option (List ℕ) × Link)
read_loop count [] l = out_of_fuel
read_loop count (moves n ∷ ts) l =
    let k = min count (n + 1) in
    ok (some (take k l.input), record l { input = drop k l.input; turns = ts })
read_loop count (interrupted true ∷ ts) l = ok (none, record l { aborted = true; turns = ts })
read_loop count (interrupted false ∷ ts) l = read_loop count ts l
read_loop count (failed ∷ ts) l = ok (none, record l { turns = ts })

-- `comm_read_bytes += nb`, where nb may be -1.
unfoldable pub count_read : Option (List ℕ) → Link → Link
count_read none l = record l {
  reads = u64 (l.reads + 1);
  read_bytes = u64 (l.read_bytes + (2 ^ 64 - 1));
}
count_read (some xs) l = record l {
  reads = u64 (l.reads + 1);
  read_bytes = u64 (l.read_bytes + length xs);
}

unfoldable pub after_read : Option (List ℕ) × Link → Option (List ℕ) × Link
after_read (r, l) = if l.aborted then (none, l) else (r, count_read r l)

unfoldable pub comm_read : ℕ → Link → Outcome (Option (List ℕ) × Link)
comm_read count l =
    if l.aborted
    then ok (none, l)
    else and_then (read_loop count l.turns l) (λ r. ok (after_read r))

-- The `do ... while` of commReadFully, with the bytes so far.
unfoldable pub fully_next :
    (List ℕ → Link → Outcome (List ℕ × Link))
    → ℕ
    → List ℕ
    → Option (List ℕ) × Link
    → Outcome (List ℕ × Link)
fully_next again count got (none, l) = ok (got, l)
fully_next again count got (some [], l) = ok (got, l)
fully_next again count got (some (x ∷ xs), l) =
    let got' = got ++ x ∷ xs in
    if ltb (length got') count && not l.aborted then again got' l else ok (got', l)

unfoldable pub fully_loop : ℕ → ℕ → List ℕ → Link → Outcome (List ℕ × Link)
fully_loop zero count got l = out_of_fuel
fully_loop (suc fuel) count got l =
    and_then (comm_read (count - length got) l) (fully_next (fully_loop fuel count) count got)

-- Each round that does not end the loop reads a byte, so `count + 1` rounds are enough.
unfoldable pub comm_read_fully : ℕ → Link → Outcome (Option (List ℕ) × Link)
comm_read_fully count l =
    if l.aborted
    then ok (none, record l { aborted = false })
    else and_then (fully_loop (count + 1) count [] l) (λ r. ok (
      some r.0,
      record (r.1) {
        full_reads = u64 (r.1.full_reads + 1);
        full_read_bytes = u64 (r.1.full_read_bytes + length r.0);
      },
    ))

-- The loop around `write`: the number of bytes written, or `none` for -1.
unfoldable pub write_loop : List ℕ → List Turn → Link → Outcome (Option ℕ × Link)
write_loop buf [] l = out_of_fuel
write_loop buf (moves n ∷ ts) l =
    let k = min (length buf) (n + 1) in
    ok (some k, record l { output = l.output ++ take k buf; turns = ts })
write_loop buf (interrupted true ∷ ts) l = ok (none, record l { aborted = true; turns = ts })
write_loop buf (interrupted false ∷ ts) l = write_loop buf ts l
write_loop buf (failed ∷ ts) l = ok (none, record l { turns = ts })

unfoldable pub count_write : Option ℕ → Link → Link
count_write none l = record l {
  writes = u64 (l.writes + 1);
  written_bytes = u64 (l.written_bytes + (2 ^ 64 - 1));
}
count_write (some n) l = record l {
  writes = u64 (l.writes + 1);
  written_bytes = u64 (l.written_bytes + n);
}

unfoldable pub after_write : Option ℕ × Link → Option ℕ × Link
after_write (r, l) = if l.aborted then (none, l) else (r, count_write r l)

unfoldable pub comm_write : List ℕ → Link → Outcome (Option ℕ × Link)
comm_write buf l =
    if l.aborted
    then ok (none, l)
    else and_then (write_loop buf l.turns l) (λ r. ok (after_write r))

-- The buffers of an iovec, one behind the other.
unfoldable pub gathered : List (List ℕ) → List ℕ
gathered [] = []
gathered (buf ∷ bufs) = buf ++ gathered bufs

unfoldable pub count_writev : Option ℕ × Link → Option ℕ × Link
count_writev (none, l) = (
  none,
  record l { writevs = u64 (l.writevs + 1); writev_bytes = u64 (l.writev_bytes + (2 ^ 64 - 1)) },
)
count_writev (some n, l) =
    (some n, record l { writevs = u64 (l.writevs + 1); writev_bytes = u64 (l.writev_bytes + n) })

-- An abort before the call ends it, and is forgotten; one in the call is not.
unfoldable pub comm_writev : List (List ℕ) → Link → Outcome (Option ℕ × Link)
comm_writev iov l =
    if l.aborted
    then ok (none, record l { aborted = false })
    else and_then (write_loop (gathered iov) l.turns l) (λ r. ok (count_writev r))

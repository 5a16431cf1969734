-- ===== src/Receive/Wire.antt =====
-- What one process writes to a connection and another one reads from it.
use protocol_pfe.Base.{
  ℕ, zero, suc, ◌+◌, ◌-◌, ◌/◌, ◌^◌, ◌≤◌, ◌<◌, ◌≡◌, refl, ap, ◌∙◌, true, false, some, List, ◌++◌,
  length, length-append, ltb, ok, arith, ==_refl,
}
use protocol_pfe.Link.{Link, take, drop, comm_read_fully}
use protocol_pfe.Link.Lists.{take-append, drop-append}
use protocol_pfe.Link.Fully.{Calm, Calm-less, comm_read_fully-Calm}
use protocol_pfe.Connect.{bytes_of}
use protocol_pfe.Receive.{number_of, received, read_body, read_head, read_message}

number_of-bytes_of : (v : ℕ) → v < 2 ^ 32 → number_of (bytes_of 4 v) ≡ v
unfolding number_of bytes_of
number_of-bytes_of v h = omega arith

pub length-bytes_of : (n v : ℕ) → length (bytes_of n v) ≡ n
unfolding bytes_of
length-bytes_of zero v = refl
length-bytes_of (suc n) v = ap suc (length-bytes_of n (v / 256))

-- A read of the bytes `xs`, which stand in front of `more`.
record Got (xs more : List ℕ) (extra : ℕ) (l l' : Link) : Type 0 where
  ran : comm_read_fully (length xs) l ≡ ok (some xs, l')
  rest : l'.input ≡ more
  running : l'.aborted ≡ false
  calm : Calm extra l'.turns

got :
    (xs more : List ℕ) (extra : ℕ) (l : Link)
    → 0 < length xs
    → l.input ≡ xs ++ more
    → Calm (length xs + extra) l.turns
    → l.aborted ≡ false
    → (l' : Link) × Got xs more extra l l'
got xs more extra l some_bytes e calm running =
    let enough : length xs ≤ length l.input = rw e (omega (arith, length-append xs more)) in
    let (l', ran, rest, going, left) =
      comm_read_fully-Calm (length xs) extra l some_bytes enough calm running in
    (
      l',
      record {
        ran = ran ∙ ap (λ ys. ok (some ys, l')) (ap (take (length xs)) e ∙ take-append xs more);
        rest = rest ∙ ap (drop (length xs)) e ∙ drop-append xs more;
        running = going;
        calm = left;
      },
    )

-- A message: its length in the first four bytes, then the others.
pub record Read (len : ℕ) (xs more : List ℕ) (extra : ℕ) (l l' : Link) : Type 0 where
  pub ran : read_message l ≡ ok (some (received len xs), l')
  pub rest : l'.input ≡ more
  pub running : l'.aborted ≡ false
  pub calm : Calm extra l'.turns

read_body_lem :
    (len : ℕ) (xs more : List ℕ) (extra : ℕ) (l l' : Link)
    → len ≡ 4 + length xs
    → len < 2 ^ 31
    → Got xs more extra l l'
    → read_body len l ≡ ok (some (received len xs), l')
unfolding read_body
read_body_lem len xs more extra l l' e small g =
    let n : len - 4 ≡ length xs = omega arith in
    let low : ltb len 4 ≡ false = ground arith in
    let high : ltb len (2 ^ 31) ≡ true = ground arith in
    rw (low, high, n, g.ran) (rw (n, ==_refl (length xs)) refl)

pub read_message_lem :
    (len : ℕ) (xs more : List ℕ) (extra : ℕ) (l : Link)
    → len ≡ 4 + length xs
    → 0 < length xs
    → len < 2 ^ 31
    → l.input ≡ bytes_of 4 len ++ (xs ++ more)
    → Calm (len + extra) l.turns
    → l.aborted ≡ false
    → (l' : Link) × Read len xs more extra l l'
unfolding read_message read_head
read_message_lem len xs more extra l e some_bytes small input calm running =
    let four = length-bytes_of 4 len in
    let (l1, g) =
      got (bytes_of 4 len) (xs ++ more) (length xs + extra) l (omega (arith, four)) input
        (Calm-less _ (len + extra) l.turns (omega (arith, four)) calm) running in
    let (l2, g2) = got xs more extra l1 some_bytes g.rest g.calm g.running in
    (
      l2,
      record {
        ran =
            rw (← four, g.ran)
              (rw (four, number_of-bytes_of len (omega arith))
                (read_body_lem len xs more extra l1 l2 e small g2));
        rest = g2.rest;
        running = g2.running;
        calm = g2.calm;
      },
    )

-- ===== src/Link/Fully.antt =====
-- commReadFully reads as many bytes as it is asked for.
use protocol_pfe.Base.{
  ℕ, zero, suc, ◌+◌, ◌-◌, ◌≤◌, ◌<◌, ◌≡◌, refl, ap, ◌∙◌, min, Bool, true, false, not, ◌&&◌, some,
  List, [], ◌∷◌, ◌++◌, length, length-append, append_assoc, Outcome, ok, and_then, arith, ltb,
  if◌then◌else◌,
}
use native.Mathlib.Decide.{ℕ_discrete}
use protocol_pfe.Link.{
  Turn, moves, interrupted, failed, Link, take, drop, read_loop, count_read, after_read, comm_read,
  fully_next, fully_loop, comm_read_fully,
}
use protocol_pfe.World.{u64}
use protocol_pfe.Link.Lists.{length-take, length-drop, take_add, drop_add}

-- The next turns move bytes n times, and besides are only interrupted, without an abort.
abbrev pub Calm : ℕ → List Turn → Type 0
Calm zero ts = Unit
Calm (suc n) [] = ⊥
Calm (suc n) (moves k ∷ ts) = Calm n ts
Calm (suc n) (interrupted false ∷ ts) = Calm (suc n) ts
Calm (suc n) (interrupted true ∷ ts) = ⊥
Calm (suc n) (failed ∷ ts) = ⊥

pub Calm-less : (m n : ℕ) (ts : List Turn) → m ≤ n → Calm n ts → Calm m ts
Calm-less zero n ts h c = tt
Calm-less (suc m) zero ts h c = absurd (omega arith)
Calm-less (suc m) (suc n) (moves k ∷ ts) h c = Calm-less m n ts (omega arith) c
Calm-less (suc m) (suc n) (interrupted false ∷ ts) h c = Calm-less (suc m) (suc n) ts h c
Calm-less (suc m) (suc n) [] h c = elim c [ ]
Calm-less (suc m) (suc n) (interrupted true ∷ ts) h c = elim c [ ]
Calm-less (suc m) (suc n) (failed ∷ ts) h c = elim c [ ]

pub if_false : {A : Type 0} (b : Bool) (x y : A) → b ≡ false → (if b then x else y) ≡ y
if_false false x y e = refl
if_false true x y e = ground arith

if_true : {A : Type 0} (b : Bool) (x y : A) → b ≡ true → (if b then x else y) ≡ x
if_true true x y e = refl
if_true false x y e = ground arith

-- One read of a link that is not aborted.
record Read (count n : ℕ) (l : Link) (got : ℕ) (l' : Link) : Type 0 where
  some_bytes : 0 < got
  at_most : got ≤ count
  ran : comm_read count l ≡ ok (some (take got l.input), l')
  rest : l'.input ≡ drop got l.input
  calm : Calm n l'.turns
  running : l'.aborted ≡ false

loop_reads :
    (count n : ℕ) (ts : List Turn) (l : Link)
    → Calm (suc n) ts
    → (k : ℕ) × (us : List Turn) × Calm n us
      × (read_loop count ts l
          ≡ ok (
            some (take (min count (k + 1)) l.input),
            record l { input = drop (min count (k + 1)) l.input; turns = us },
          ))
unfolding read_loop
loop_reads count n (moves k ∷ ts) l c = (k, ts, c, refl)
loop_reads count n (interrupted false ∷ ts) l c = loop_reads count n ts l c
loop_reads count n [] l c = elim c [ ]
loop_reads count n (interrupted true ∷ ts) l c = elim c [ ]
loop_reads count n (failed ∷ ts) l c = elim c [ ]

read_lem :
    (count n : ℕ) (l : Link)
    → 0 < count
    → Calm (suc n) l.turns
    → l.aborted ≡ false
    → (got : ℕ) × (l' : Link) × Read count n l got l'
unfolding comm_read after_read count_read
read_lem count n l pos c running =
    let (k, us, calm, ran) = loop_reads count n l.turns l c in
    let got : ℕ = min count (k + 1) in
    (
      got,
      count_read (some (take got l.input)) (record l { input = drop got l.input; turns = us }),
      record {
        some_bytes = omega arith;
        at_most = omega arith;
        ran =
            if_false l.aborted _ _ running
            ∙ ap (λ r. and_then r (λ q. ok (after_read q))) ran
            ∙ ap ok (if_false l.aborted _ _ running);
        rest = refl;
        calm = calm;
        running = running;
      },
    )

-- The loop of commReadFully, with `left` bytes still to read, and `extra` calm turns left over.
record Whole (count left extra : ℕ) (got : List ℕ) (l : Link) (fuel : ℕ) (l' : Link) : Type 0 where
  calm : Calm extra l'.turns
  ran : fully_loop fuel count got l ≡ ok (got ++ take left l.input, l')
  rest : l'.input ≡ drop left l.input
  running : l'.aborted ≡ false

-- What commReadFully makes of a read of at least one byte.
next-some :
    (again : List ℕ → Link → Outcome (List ℕ × Link)) (count : ℕ) (got xs : List ℕ) (l : Link)
    → 0 < length xs
    → fully_next again count got (some xs, l) ≡ (
        if ltb (length (got ++ xs)) count && not l.aborted
        then again (got ++ xs) l
        else ok (got ++ xs, l))
unfolding fully_next
next-some again count got [] l h = absurd (omega arith)
next-some again count got (x ∷ xs) l h = refl

module _ (fuel count left extra n k : ℕ) (got : List ℕ) (l l' : Link)
    (e : length got + left ≡ count) (enough : left ≤ length l.input) (r : Read left n l k l') where
  abbrev more : List ℕ
  more = got ++ take k l.input

  more-length : length more ≡ length got + k
  more-length =
      length-append got (take k l.input)
      ∙ ap (λ n. length got + n) (length-take k l.input (omega (arith, r.at_most)))

  one_round : fully_loop (suc fuel) count got l ≡ (
      if ltb (length more) count && not l'.aborted
      then fully_loop fuel count more l'
      else ok (more, l'))
  unfolding fully_loop
  one_round =
      let asked : count - length got ≡ left = omega arith in
      rw asked (
        ap (λ o. and_then o (fully_next (fully_loop fuel count) count got)) r.ran
        ∙ next-some (fully_loop fuel count) count got (take k l.input) l'
            (omega (arith, length-take k l.input (omega (arith, r.at_most)), r.some_bytes)))

  last_round : k ≡ left → Calm extra l'.turns → Whole count left extra got l (suc fuel) l'
  last_round h calm = record {
    calm = calm;
    ran =
        one_round
        ∙ if_false (ltb (length more) count && not l'.aborted) (fully_loop fuel count more l')
            (ok (more, l')) (ground (arith, more-length))
        ∙ ap (λ (n : ℕ). ok (got ++ take n l.input, l')) h;
    rest = r.rest ∙ ap (λ (n : ℕ). drop n l.input) h;
    running = r.running;
  }

  next_rounds :
      (j : ℕ) (l'' : Link)
      → k + j ≡ left
      → 0 < j
      → Whole count j extra more l' fuel l''
      → Whole count left extra got l (suc fuel) l''
  next_rounds j l'' h pos w = record {
    calm = w.calm;
    ran =
        one_round
        ∙ if_true (ltb (length more) count && not l'.aborted) (fully_loop fuel count more l')
            (ok (more, l')) (ground (arith, more-length, r.running))
        ∙ w.ran
        ∙ ap (λ (ys : List ℕ). ok (ys, l''))
            (append_assoc got (take k l.input) (take j l'.input)
              ∙ ap (λ ys. got ++ ys) (rw (r.rest, ← h) (take_add k j l.input)));
    rest = w.rest ∙ rw (r.rest, ← h) (drop_add k j l.input);
    running = w.running;
  }

fully_loop_lem :
    (fuel count left extra : ℕ) (got : List ℕ) (l : Link)
    → length got + left ≡ count
    → 0 < left
    → left ≤ length l.input
    → left < fuel
    → Calm (left + extra) l.turns
    → l.aborted ≡ false
    → (l' : Link) × Whole count left extra got l fuel l'
unfolding fully_loop
fully_loop_lem zero count left extra got l e pos enough f calm running = absurd (omega arith)
fully_loop_lem (suc fuel) count zero extra got l e pos enough f calm running = absurd (omega arith)
fully_loop_lem (suc fuel) count (suc left) extra got l e pos enough f calm running =
    let calm' : Calm (suc (left + extra)) l.turns =
      Calm-less (suc (left + extra)) (suc left + extra) l.turns (omega arith) calm in
    let (k, l1, r) = read_lem (suc left) (left + extra) l pos calm' running in
    elim (ℕ_discrete k (suc left)) [
      | yes h ↦ (
        l1,
        last_round fuel count (suc left) extra (left + extra) k got l l1 e enough r h
            (Calm-less extra (left + extra) l1.turns (omega arith) r.calm),
      )
      | no ne ↦
          let below = r.at_most in
          let j : ℕ = suc left - k in
          let (l2, w) =
            fully_loop_lem fuel count j extra (got ++ take k l.input) l1
              (omega (
                arith,
                more-length fuel count (suc left) extra (left + extra) k got l l1 e enough r,
              ))
              (omega arith) (rw r.rest (omega (arith, length-drop k l.input (omega arith))))
              (omega (arith, r.some_bytes))
              (Calm-less (j + extra) (left + extra) l1.turns (omega (arith, r.some_bytes)) r.calm)
              r.running in
          (
            l2,
            next_rounds fuel count (suc left) extra (left + extra) k got l l1 e enough r j l2
                (omega arith) (omega arith) w,
          )
    ]

-- The same, and the turns that move bytes are counted: `extra` of them are left.
pub comm_read_fully-Calm :
    (count extra : ℕ) (l : Link)
    → 0 < count
    → count ≤ length l.input
    → Calm (count + extra) l.turns
    → l.aborted ≡ false
    → (l' : Link) × (comm_read_fully count l ≡ ok (some (take count l.input), l'))
      × (l'.input ≡ drop count l.input)
      × (l'.aborted ≡ false)
      × Calm extra l'.turns
unfolding comm_read_fully
comm_read_fully-Calm count extra l pos enough calm running =
    let (l1, w) =
      fully_loop_lem (count + 1) count count extra [] l (omega arith) pos enough (omega arith) calm
        running in
    (
      record l1 {
        full_reads = u64 (l1.full_reads + 1);
        full_read_bytes = u64 (l1.full_read_bytes + length (take count l.input));
      },
      if_false l.aborted _ _ running ∙ rw w.ran refl,
      w.rest,
      w.running,
      w.calm,
    )

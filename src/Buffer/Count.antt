-- ===== src/Buffer/Count.antt =====
-- The references on a block, given back one after the other.
use protocol_pfe.Base.{
  ℕ, zero, suc, ◌+◌, ◌-◌, ◌%◌, ◌^◌, ◌≤◌, ◌<◌, ◌≡◌, ◌≢◌, refl, ◌∙◌, ap, true, false, Bool-cases, inl,
  inr, Option, none, some, ◌==◌, if◌then◌else◌, ok, fault, arith, ==_refl, ==_ne,
}
use protocol_pfe.World.{Ptr, Womim, World, update}
use protocol_pfe.World.Run.{M, pure, ◌>>=◌, ◌>>◌, load, store}
use protocol_pfe.Buffer.{free_womim, decrement}

-- freeWomim, `k` times.
abbrev pub free_times : ℕ → Ptr → M (Unit {0})
free_times zero p = pure tt
free_times (suc k) p = free_womim p >> free_times k p

-- A block that has lost `k` of its references.
abbrev pub left_of : ℕ → Womim → Option Womim
left_of k m = if k == m.counter then none else some (record m { counter = m.counter - k })

free_once :
    (p : Ptr) (m : Womim) (w : World)
    → w.heap p ≡ some m
    → 0 < m.counter
    → m.counter < 2 ^ 32
    → free_womim p w ≡ ok (tt, record w { heap = update w.heap p (left_of 1 m) })
unfolding free_womim decrement ◌>>=◌ load store
free_once p m w h some_left bound =
    let less : (m.counter + 2 ^ 32 - 1) % 2 ^ 32 ≡ m.counter - 1 = omega arith in
    elim (Bool-cases (1 == m.counter)) [
      | inl e ↦
          let z : (m.counter - 1 == 0) ≡ true = ground arith in
          rw (h, load) (rw less (rw (z, e) refl))
      | inr e ↦
          let z : (m.counter - 1 == 0) ≡ false = ground arith in
          rw (h, load) (rw less (rw (z, e) refl))
    ]

free_gone : (p : Ptr) (w : World) → w.heap p ≡ none → free_womim p w ≡ fault
unfolding free_womim ◌>>=◌ load
free_gone p w h = rw (h, load) refl

left_of-next :
    (k : ℕ) (m : Womim)
    → suc k ≤ m.counter
    → 0 < k
    → left_of k (record m { counter = m.counter - 1 }) ≡ left_of (suc k) m
left_of-next k m h z = elim (Bool-cases (suc k == m.counter)) [
  | inl e ↦ let f : (k == m.counter - 1) ≡ true = ground arith in rw (e, f) refl
  | inr e ↦
      let f : (k == m.counter - 1) ≡ false = ground arith in
      let same : m.counter - 1 - k ≡ m.counter - suc k = omega arith in
      rw (e, f) (ap (λ c. some (record m { counter = c })) same)
]

-- Where a block is allocated with a counter above 0 and below 2^31, freeWomim can be called on it
-- as many times as it has references, or fewer, and each time returns: with the last reference,
-- and not before, the block is freed; until then it keeps its bytes and its size and has as many
-- references less; the other blocks stay.
pub free_times_lem :
    (k : ℕ) (p : Ptr) (m : Womim) (w : World)
    → w.heap p ≡ some m
    → 0 < m.counter
    → m.counter < 2 ^ 31
    → k ≤ m.counter
    → (v : World) × (free_times k p w ≡ ok (tt, v))
      × (v.heap p ≡ left_of k m)
      × ((q : Ptr) → q ≢ p → v.heap q ≡ w.heap q)
unfolding pure ◌>>=◌
free_times_lem zero p m w h some_left bound few =
    let not_yet : (0 == m.counter) ≡ false = ground arith in
    let same : m.counter - 0 ≡ m.counter = omega arith in
    (w, refl, h ∙ rw (not_yet, same) refl, λ q ne. refl)
free_times_lem (suc zero) p m w h some_left bound few = (
  record w { heap = update w.heap p (left_of 1 m) },
  rw (free_once p m w h some_left (omega arith)) refl,
  rw (==_refl p) refl,
  λ q ne. rw (==_ne q p ne) refl,
)
free_times_lem (suc (suc k)) p m w h some_left bound few =
    let m' : Womim = record m { counter = m.counter - 1 } in
    let w' : World = record w { heap = update w.heap p (left_of 1 m) } in
    let more : (1 == m.counter) ≡ false = ground arith in
    let there : w'.heap p ≡ some m' = rw (==_refl p) (rw more refl) in
    let (v, ran, left, others) =
      free_times_lem (suc k) p m' w' there (omega arith) (omega arith) (omega arith) in
    (
      v,
      rw (free_once p m w h some_left (omega arith)) ran,
      left ∙ left_of-next (suc k) m few (omega arith),
      λ q ne. others q ne ∙ rw (==_ne q p ne) refl,
    )

-- One call more, of a block that is freed, is a use of freed memory.
pub free_times-over :
    (p : Ptr) (m : Womim) (w : World)
    → w.heap p ≡ some m
    → 0 < m.counter
    → m.counter < 2 ^ 31
    → (v : World) × (free_times m.counter p w ≡ ok (tt, v)) × (free_womim p v ≡ fault)
free_times-over p m w h some_left bound =
    let (v, ran, left, others) = free_times_lem m.counter p m w h some_left bound (omega arith) in
    (v, ran, free_gone p v (left ∙ rw (==_refl m.counter) refl))

-- ===== src/Train/Body.antt =====
-- One round of the loop over the wagons of a train, case by case.
use protocol_pfe.Base.{
  ℕ, ◌+◌, ◌<◌, ltb, ◌≡◌, refl, sym, ◌∙◌, inl, inr, Option, none, some, true, false, [], ◌∷◌, ◌++◌,
  ok, arith, Bool-cases, Option-cases, append-nil, ==_refl,
}
use protocol_pfe.Address.{addr_is_equal}
use protocol_pfe.Memory.{Bytes}
use protocol_pfe.Wagon.{wagon_len, wagon_sender}
use protocol_pfe.World.{Ptr, Womim, Wiw, World, update, max_ntr}
use protocol_pfe.World.Run.{pure, ◌>>=◌, get, modify, load, store, or_fault, ◌>>◌, when◌then◌else◌}
use protocol_pfe.Buffer.{retain, increment}
use protocol_pfe.Train.{
  in_lts, in_unstable, nr, on_lts, on_unstable, is_kept, first_passed, pass_on, handle_wagon,
}
use protocol_pfe.Train.Loop.{wiw, Handled, Live, passed_first-nil, passed_first_skip}

retain_lem :
    (p : Ptr) (m : Womim) (w : World)
    → w.heap p ≡ some m
    → retain p w ≡ ok (tt, record w { heap = update w.heap p (some (increment m)) })
unfolding retain ◌>>=◌ load store
retain_lem p m w h = rw (h, load)

first_passed-some :
    (p : Ptr) (id x : ℕ) (ww : Wiw) (o : Option Wiw) → o ≡ some ww → first_passed p id x o ≡ pure tt
unfolding first_passed
first_passed-some p id x ww o e = rw e refl

-- The world after a wagon is kept.
abbrev keep : Ptr → ℕ → ℕ → ℕ → Womim → World → World
keep p id r x m w = record w {
  heap = update w.heap p (some (increment m));
  unstable_wagons =
      update w.unstable_wagons id
        (update (w.unstable_wagons id) r (w.unstable_wagons id r ++ wiw p x ∷ []));
}

-- The world after the first wagon to send on is noted.
abbrev noted : Ptr → ℕ → ℕ → World → World
noted p id x w = record w { lts = update w.lts id (record (w.lts id) { w_w = some (wiw p x) }) }

first_passed-none :
    (p : Ptr) (id x : ℕ) (o : Option Wiw)
    → o ≡ none
    → first_passed p id x o ≡ (on_lts id (λ l. record l { w_w = some (wiw p x) }) >> retain p)
unfolding first_passed
first_passed-none p id x o e = rw e refl

-- The world after the bytes of a wagon are counted in.
abbrev count : ℕ → ℕ → World → World
count id n w = record w {
  lts = update w.lts id (record (w.lts id) { w_len = (w.lts id).w_len + n });
}

abbrev held : Ptr → Womim → World → World
held p m w = record w { heap = update w.heap p (some (increment m)) }

in_lts-ok : (id : ℕ) (w : World) → id < 16 → in_lts id w ≡ ok (tt, w)
unfolding in_lts or_fault pure
in_lts-ok id w h = let i : ltb id max_ntr ≡ true = ground arith in rw i refl

in_unstable-ok : (id r : ℕ) (w : World) → id < 16 → r < 3 → in_unstable id r w ≡ ok (tt, w)
unfolding in_unstable or_fault pure
in_unstable-ok id r w h k =
    let i : ltb id max_ntr ≡ true = ground arith in
    let j : ltb r nr ≡ true = ground arith in rw (i, j) refl

module _ (p : Ptr) (b : Bytes) (id r x : ℕ) (w : World) (few : id < 16) (three : r < 3) where
  abbrev pub Step : World → Type 0
  Step v = (handle_wagon p b id r x w ≡ ok (tt, v)) × Live p v × Handled p b id r (x ∷ []) w v

  dropped : is_kept w id (wagon_sender b x) ≡ false → Live p w → Step w
  unfolding handle_wagon ◌>>=◌ get when◌then◌else◌ pure
  dropped e l = (
    rw (in_lts-ok id w few) (rw e),
    l,
    record {
      added = rw (e, append-nil);
      len = rw e (omega arith);
      first = sym (
          passed_first_skip (is_kept w id) p b w.succ x [] (w.lts id).w_w (rw e refl)
          ∙ passed_first-nil (is_kept w id) p b w.succ x (w.lts id).w_w);
      circuit = refl;
      gone = refl;
      mine = refl;
      succ = refl;
      delivered = refl;
    },
  )

  own :
      (m : Womim)
      → is_kept w id (wagon_sender b x) ≡ true
      → addr_is_equal w.succ (wagon_sender b x) ≡ true
      → w.heap p ≡ some m
      → Step (keep p id r x m w)
  unfolding handle_wagon pass_on ◌>>=◌ get when◌then◌else◌ pure on_unstable modify
  own m e f h = (
    rw (in_lts-ok id w few)
        (rw e (rw (retain_lem p m w h) (rw (in_unstable-ok id r _ few three) (rw f)))),
    (increment m, rw (==_refl p) refl),
    record {
      added = rw (==_refl id, ==_refl r, e) refl;
      len = rw (e, f) (omega arith);
      first = sym (
          passed_first_skip (is_kept w id) p b w.succ x [] (w.lts id).w_w (rw (e, f) refl)
          ∙ passed_first-nil (is_kept w id) p b w.succ x (w.lts id).w_w);
      circuit = refl;
      gone = refl;
      mine = refl;
      succ = refl;
      delivered = refl;
    },
  )

  later :
      (m : Womim) (ww : Wiw)
      → is_kept w id (wagon_sender b x) ≡ true
      → addr_is_equal w.succ (wagon_sender b x) ≡ false
      → w.heap p ≡ some m
      → (w.lts id).w_w ≡ some ww
      → Step (count id (wagon_len b x) (keep p id r x m w))
  unfolding handle_wagon pass_on first_passed ◌>>=◌ get when◌then◌else◌ pure on_unstable on_lts
      modify
  later m ww e f h g = (
    rw (in_lts-ok id w few) (
        rw e (
          rw (retain_lem p m w h) (
            rw (in_unstable-ok id r _ few three)
              (rw f (rw (first_passed-some p id x ww (w.lts id).w_w g) refl))))),
    (increment m, rw (==_refl p) refl),
    record {
      added = rw (==_refl id, ==_refl r, e) refl;
      len = rw (==_refl id, e, f) (omega arith);
      first = rw (==_refl id, g) refl;
      circuit = rw (==_refl id) refl;
      gone = refl;
      mine = refl;
      succ = refl;
      delivered = refl;
    },
  )

  now :
      (m : Womim)
      → is_kept w id (wagon_sender b x) ≡ true
      → addr_is_equal w.succ (wagon_sender b x) ≡ false
      → w.heap p ≡ some m
      → (w.lts id).w_w ≡ none
      → Step (count id (wagon_len b x) (held p (increment m) (noted p id x (keep p id r x m w))))
  unfolding handle_wagon pass_on ◌>>=◌ get when◌then◌else◌ pure on_unstable on_lts modify
  now m e f h g = (
    rw (in_lts-ok id w few) (
        rw e (
          rw (retain_lem p m w h) (
            rw (in_unstable-ok id r _ few three) (
              rw f (
                rw (first_passed-none p id x (w.lts id).w_w g) (
                  rw
                    (retain_lem p (increment m) (noted p id x (keep p id r x m w))
                      (rw (==_refl p) refl))
                    refl)))))),
    (increment (increment m), rw (==_refl p) refl),
    record {
      added = rw (==_refl id, ==_refl r, e) refl;
      len = rw (==_refl id, e, f) (omega arith);
      first = rw (==_refl id, g, e, f) refl;
      circuit = rw (==_refl id) refl;
      gone = refl;
      mine = refl;
      succ = refl;
      delivered = refl;
    },
  )

  pub step : Live p w → (v : World) × Step v
  step (m, h) = elim (Bool-cases (is_kept w id (wagon_sender b x))) [
    | inr e ↦ (w, dropped e (m, h))
    | inl e ↦ elim (Bool-cases (addr_is_equal w.succ (wagon_sender b x))) [
      | inl f ↦ (keep p id r x m w, own m e f h)
      | inr f ↦ elim (Option-cases (w.lts id).w_w) [
        | inl g ↦ (
          count id (wagon_len b x) (held p (increment m) (noted p id x (keep p id r x m w))),
          now m e f h g,
        )
        | inr (ww, g) ↦ (count id (wagon_len b x) (keep p id r x m w), later m ww e f h g)
      ]
    ]
  ]

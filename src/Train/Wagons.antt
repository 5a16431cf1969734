-- ===== src/Train/Wagons.antt =====
-- The loop over the wagons of a train: with the wagons laid out one behind the other it ends.
use protocol_pfe.Base.{
  ℕ, zero, suc, ◌+◌, ◌^◌, true, false, ltb, leb, ◌≤◌, ◌<◌, ◌≡◌, refl, sym, ◌∙◌, ◌⊎◌, inl, inr,
  Option, none, some, List, [], ◌∷◌, ok, arith, append_assoc, append-nil,
}
use protocol_pfe.Memory.{Bytes}
use protocol_pfe.Wagon.{wagon_len, wagon_end, msg_len, next_wagon}
use protocol_pfe.World.{Ptr, World}
use protocol_pfe.World.Run.{pure, ◌>>=◌, lift}
use protocol_pfe.Train.{is_kept, wagons_loop}
use protocol_pfe.Wagon.{wagon_len, train_type, msg_type, first_wagon}
use protocol_pfe.Base.{length, fun_ext}
use protocol_pfe.Train.Loop.{
  entry, Laid, kept_wagons, Handled, Live, passed_first-nil, passed_first-cons, passed_len-cons,
  kept_wagons-cons,
}
use protocol_pfe.Train.Body.{step}

same_kept :
    (p : Ptr) (b : Bytes) (id r : ℕ) (ws : List ℕ) (w v : World)
    → Handled p b id r ws w v
    → is_kept v id ≡ is_kept w id
unfolding is_kept
same_kept p b id r ws w v h = fun_ext (λ s. rw (h.circuit, h.gone, h.mine) refl)

-- One round, then the others.
Handled-cons :
    (p : Ptr) (b : Bytes) (id r x : ℕ) (xs : List ℕ) (w v u : World)
    → Handled p b id r (x ∷ []) w v
    → Handled p b id r xs v u
    → Handled p b id r (x ∷ xs) w u
Handled-cons p b id r x xs w v u h k =
    let e = same_kept p b id r (x ∷ []) w v h in
    record {
      added =
          k.added
          ∙ rw (e, h.added, kept_wagons-cons (is_kept w id) p b w.succ x xs)
              (append_assoc _ (kept_wagons (is_kept w id) p b (x ∷ [])) _);
      len =
          k.len
          ∙ rw (e, h.len, h.succ) (omega (arith, passed_len-cons (is_kept w id) p b w.succ x xs));
      first =
          k.first
          ∙ rw (e, h.first, h.succ)
              (sym (passed_first-cons (is_kept w id) p b w.succ x xs (w.lts id).w_w));
      circuit = k.circuit ∙ h.circuit;
      gone = k.gone ∙ h.gone;
      mine = k.mine ∙ h.mine;
      succ = k.succ ∙ h.succ;
      delivered = k.delivered ∙ h.delivered;
    }

Handled-nil : (p : Ptr) (b : Bytes) (id r : ℕ) (w : World) → Handled p b id r [] w w
Handled-nil p b id r w = record {
  added = sym (append-nil _);
  len = omega arith;
  first = sym (passed_first-nil (is_kept w id) p b w.succ 0 (w.lts id).w_w);
  circuit = refl;
  gone = refl;
  mine = refl;
  succ = refl;
  delivered = refl;
}

next_wagon_lem :
    (b : Bytes) (o : ℕ)
    → msg_len b < 2 ^ 31
    → o + wagon_len b o ≤ msg_len b
    → next_wagon b o ≡ ok (entry b (o + wagon_len b o))
unfolding next_wagon wagon_end
next_wagon_lem b o small inside =
    let i : ltb (wagon_len b o) (2 ^ 31) ≡ true = ground arith in
    let j : leb (2 ^ 31) (msg_len b) ≡ false = ground arith in rw (i, j) refl

at_end : (b : Bytes) (o : ℕ) → msg_len b ≤ o → entry b o ≡ none
at_end b o h = ground arith

not_at_end : (b : Bytes) (o : ℕ) → o < msg_len b → entry b o ≡ some o
not_at_end b o h = ground arith

module _ (p : Ptr) (b : Bytes) (id r : ℕ) (few : id < 16) (three : r < 3)
    (small : msg_len b < 2 ^ 31) where
  loop_lem :
      (fuel o : ℕ) (ws : List ℕ) (w : World)
      → Laid b o ws
      → length ws < fuel
      → Live p w
      → (v : World) × (wagons_loop fuel p b id r (entry b o) w ≡ ok (tt, v))
        × Handled p b id r ws w v
  unfolding wagons_loop ◌>>=◌ pure lift
  loop_lem zero o ws w laid f live = elim f [ ]
  loop_lem (suc fuel) o [] w laid f live = (w, rw (at_end b o laid) refl, Handled-nil p b id r w)
  loop_lem (suc fuel) o (x ∷ xs) w (at, inside, whole, ends, rest) f live =
      let (v, (ran, live', h)) = step p b id r o w few three live in
      let (u, ran', h') = loop_lem fuel (o + wagon_len b o) xs v rest (omega arith) live' in
      (
        u,
        rw (not_at_end b o inside) (rw ran (rw (next_wagon_lem b o small ends) ran')),
        rw at (Handled-cons p b id r o xs w v u h h'),
      )

-- Each wagon takes at least one byte.
Laid-length :
    (b : Bytes) (o : ℕ) (ws : List ℕ) → Laid b o ws → length ws + o ≤ msg_len b ⊎ (ws ≡ [])
Laid-length b o [] laid = inr refl
Laid-length b o (x ∷ xs) (at, inside, whole, ends, rest) =
    elim (Laid-length b (o + wagon_len b o) xs rest) [
      | inl h ↦ inl (omega arith)
      | inr e ↦ inl (rw e (omega arith))
    ]

first_wagon_lem : (b : Bytes) → msg_type b ≡ train_type → first_wagon b ≡ ok (entry b 10)
unfolding first_wagon
first_wagon_lem b e = ground arith

-- For a train of less than 2^31 bytes whose wagons stand one behind the other from its header to
-- its end, each of at least its own header, with the train's block allocated, id below MAX_NTR,
-- round below NR, and lts[id].w.len with the train below 2^31, the loop over the wagons ends
-- within the fuel that trainHandling gives it; it appends to unstableWagons[id][round] exactly
-- the wagons whose sender is in the circuit, not gone and another process, in their order; it
-- adds the lengths of those that are not the successor's to lts[id].w.len and notes the first of
-- them; the circuit, goneProc, myAddress, succ and wagonsToDeliver stay.
pub wagons_loop_lem :
    (p : Ptr) (b : Bytes) (id r : ℕ) (ws : List ℕ) (w : World)
    → msg_type b ≡ train_type
    → Laid b 10 ws
    → Live p w
    → id < 16
    → r < 3
    → (w.lts id).w_len + msg_len b < 2 ^ 31
    → (first : Option ℕ) × (v : World) × (first_wagon b ≡ ok first)
      × (wagons_loop (msg_len b + 1) p b id r first w ≡ ok (tt, v))
      × Handled p b id r ws w v
wagons_loop_lem p b id r ws w t laid live few three small =
    let enough : length ws < msg_len b + 1 = elim (Laid-length b 10 ws laid) [
      | inl h ↦ omega arith
      | inr e ↦ rw e (omega arith)
    ] in
    let (v, ran, h) =
      loop_lem p b id r few three (omega arith) (msg_len b + 1) 10 ws w laid enough live in
    (entry b 10, v, first_wagon_lem b t, ran, h)

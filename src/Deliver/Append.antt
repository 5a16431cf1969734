-- ===== src/Deliver/Append.antt =====
-- What newmsg adds to a wagon is what utoDeliveries finds in it.
use protocol_pfe.Base.{
  ℕ, ◌+◌, ◌≤◌, ◌<◌, ◌≡◌, ◌⊎◌, refl, ap, sym, ◌∙◌, inl, inr, List, [], ◌∷◌, ◌++◌, arith, All,
}
use protocol_pfe.Memory.{Bytes, get16}
use protocol_pfe.Memory.Laws.{get16_cong, get32_cong}
use protocol_pfe.Wagon.{wagon_sender, message_len, message_typ}
use protocol_pfe.World.{Ptr, Action}
use protocol_pfe.Broadcast.{am_broadcast}
use protocol_pfe.Deliver.Messages.{Laid, told, told_all}
use protocol_pfe.Deliver.Wagons.{Laid-length}

-- The message has all the bytes that are read when it is delivered.
abbrev pub Whole : Bytes → ℕ → Type 0
Whole b x = (message_typ b x ≡ am_broadcast) ⊎ (9 ≤ message_len b x)

-- The bytes of `b` are in `c` too, behind the length of the wagon up to `e`.
module _ (b c : Bytes) (e : ℕ) (same : (q : ℕ) → 4 ≤ q → q < e → c q ≡ b q) where
  message_len_same : (x : ℕ) → 4 ≤ x → x + 4 ≤ e → message_len c x ≡ message_len b x
  unfolding message_len
  message_len_same x low high = get32_cong c b x (λ q p r. same q (omega arith) (omega arith))

  message_typ_same : (x : ℕ) → 4 ≤ x → x + 5 ≤ e → message_typ c x ≡ message_typ b x
  unfolding message_typ
  message_typ_same x low high = same (x + 4) (omega arith) (omega arith)

  get16_same : (x : ℕ) → 4 ≤ x → x + 2 ≤ e → get16 c x ≡ get16 b x
  get16_same x low high =
      get16_cong c b x (same x low (omega arith)) (same (x + 1) (omega arith) (omega arith))

  pub wagon_sender_same : 7 ≤ e → wagon_sender c 0 ≡ wagon_sender b 0
  unfolding wagon_sender
  wagon_sender_same h = get16_same 4 (omega arith) (omega arith)

  -- A message at the old end becomes the last one.
  pub Laid-append :
      (e' o : ℕ) (xs : List ℕ)
      → 4 ≤ o
      → Laid b e o xs
      → 5 ≤ message_len c e
      → e + message_len c e ≡ e'
      → Laid c e' o (xs ++ e ∷ [])
  Laid-append e' o [] low laid header end = (sym laid, omega arith, rw laid header, rw laid end)
  Laid-append e' o (x ∷ xs) low (at, inside, some_bytes, rest) header end =
      let within = Laid-length b e (o + message_len b o) xs rest in
      let l = message_len_same o low (omega (arith, within)) in
      (
        at,
        omega arith,
        rw l some_bytes,
        rw l (Laid-append e' (o + message_len b o) xs (omega arith) rest header end),
      )

  module _ (p : Ptr) (h : 7 ≤ e) where
    told_same :
        (x : ℕ)
        → 4 ≤ x
        → 5 ≤ message_len b x
        → x + message_len b x ≤ e
        → Whole b x
        → told p c 0 x ≡ told p b 0 x
    told_same x low header high (inl broadcast) =
        let t = message_typ_same x low (omega arith) in rw (t, broadcast, wagon_sender_same h) refl
    told_same x low header high (inr long) =
        rw
          (
            message_typ_same x low (omega arith),
            wagon_sender_same h,
            get16_same (x + 5) (omega arith) (omega arith),
            get16_same (x + 7) (omega arith) (omega arith),
          )
          refl

    pub told_all-append :
        (o : ℕ) (xs : List ℕ) (before : List Action)
        → 4 ≤ o
        → Laid b e o xs
        → All (Whole b) xs
        → told_all p c 0 (xs ++ e ∷ []) before ≡ told p c 0 e ++ told_all p b 0 xs before
    told_all-append o [] before low laid whole = refl
    told_all-append o (x ∷ xs) before low (at, inside, header, rest) (here, others) =
        let within = Laid-length b e (o + message_len b o) xs rest in
        let t : told p c 0 x ≡ told p b 0 x =
          rw at (told_same o low header (omega (arith, within)) (rw (← at) here)) in
        ap (λ t. told_all p c 0 (xs ++ e ∷ []) (t ++ before)) t
        ∙ told_all-append (o + message_len b o) xs (told p b 0 x ++ before) (omega arith) rest
            others

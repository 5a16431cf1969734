-- ===== src/Books/Agreement.antt =====
-- Histories that agree on the messages of each process and on the processes agree.
use protocol_pfe.Base.{
  ℕ, ◌≡◌, refl, sym, ap, ap₂, ◌∙◌, true, Bool-cases, inl, inr, ◌⊎◌, List, [], ◌∷◌, ◌++◌, ◌==◌,
  if◌then◌else◌, map, append_assoc, ==_refl,
}
use protocol_pfe.Vector.{VectorLib}
use protocol_pfe.Books.{Books}
use protocol_pfe.Books.History.{from, Story, pending}

-- The second list starts with the first.
abbrev pub Starts {ℓ} : {A : Type ℓ} → List A → List A → Type ℓ
Starts {A = A} xs ys = (zs : List A) × (xs ++ zs ≡ ys)

module _ {A : Type 0} (id_of : A → ℕ) where
  head_or : A → List A → A
  head_or d [] = d
  head_or d (b ∷ bs) = b

  rest_of : List A → List A
  rest_of [] = []
  rest_of (b ∷ bs) = bs

  -- Without the first message of one process.
  without : ℕ → (ℕ → List A) → ℕ → List A
  without i all j = if i == j then rest_of (all j) else all j

  Starts-without :
      (b : A) (bs : List A) (all : ℕ → List A)
      → ((j : ℕ) → Starts (from id_of j (b ∷ bs)) (all j))
      → (j : ℕ) → Starts (from id_of j bs) (without (id_of b) all j)
  unfolding without rest_of
  Starts-without b bs all h j = elim (Bool-cases (id_of b == j)) [
    | inl e ↦
        let (zs, eq) = h j in
        let eq' : (b ∷ from id_of j bs) ++ zs ≡ all j = rw e at eq in (zs, rw e (ap rest_of eq'))
    | inr e ↦
        let (zs, eq) = h j in let eq' : from id_of j bs ++ zs ≡ all j = rw e at eq in (zs, rw e eq')
  ]

  -- Messages of one process, which start the same list, start with the same message.
  same_first :
      (b c : A) (bs cs : List A) (all : ℕ → List A)
      → id_of b ≡ id_of c
      → ((j : ℕ) → Starts (from id_of j (b ∷ bs)) (all j))
      → ((j : ℕ) → Starts (from id_of j (c ∷ cs)) (all j))
      → b ≡ c
  unfolding head_or
  same_first b c bs cs all e h k =
      let (ys, p) = h (id_of b) in
      let (zs, q) = k (id_of b) in
      let p' : (b ∷ from id_of (id_of b) bs) ++ ys ≡ all (id_of b) = rw (==_refl (id_of b)) at p in
      let mine : (id_of c == id_of b) ≡ true = rw (sym e) (==_refl (id_of b)) in
      let q' : (c ∷ from id_of (id_of b) cs) ++ zs ≡ all (id_of b) = rw mine at q in
      ap (head_or b) (p' ∙ sym q')

  -- Two histories that take the messages of each process in the order in which it has sent them, and
  -- the processes in one order, are one history, as far as they go.
  pub merge :
      (h k : List A) (all : ℕ → List A)
      → Starts (map (λ b. id_of b) h) (map (λ b. id_of b) k)
      → ((j : ℕ) → Starts (from id_of j h) (all j))
      → ((j : ℕ) → Starts (from id_of j k) (all j))
      → Starts h k
  merge [] k all e p q = (k, refl)
  merge (b ∷ h) [] all e p q = absurd (cc e.1)
  merge (b ∷ h) (c ∷ k) all (zs, e) p q =
      let same : id_of b ≡ id_of c = cc e in
      let eq = same_first b c h k all same p q in
      let (ys, r) =
        merge h k (without (id_of b) all) (zs, cc e) (Starts-without b h all p)
          (rw same (Starts-without c k all q)) in
      (ys, ap₂ (λ x xs. x ∷ xs) eq r)

pub Starts-trans : {A : Type 0} (xs ys zs : List A) → Starts xs ys → Starts ys zs → Starts xs zs
Starts-trans xs ys zs (us, p) (vs, q) =
    (us ++ vs, sym (append_assoc xs us vs) ∙ ap (λ ws. ws ++ vs) p ∙ q)

-- Of two that start the same list, one starts the other.
pub Starts-both :
    {A : Type 0} (xs ys zs : List A) → Starts xs zs → Starts ys zs → Starts xs ys ⊎ Starts ys xs
Starts-both [] ys zs p q = inl (ys, refl)
Starts-both (x ∷ xs) [] zs p q = inr (x ∷ xs, refl)
Starts-both (x ∷ xs) (y ∷ ys) [] p q = absurd (cc p.1)
Starts-both (x ∷ xs) (y ∷ ys) (z ∷ zs) (us, p) (vs, q) =
    let same : x ≡ y = cc (p, q) in
    elim (Starts-both xs ys zs (us, cc p) (vs, cc q)) [
      | inl (ws, r) ↦ inl (ws, ap₂ (λ w l. w ∷ l) same r)
      | inr (ws, r) ↦ inr (ws, ap₂ (λ w l. w ∷ l) (sym same) r)
    ]

module _ (V : VectorLib) {A : Type 0} (id_of : A → ℕ) where
  -- What is in the order has been received.
  pub Starts-received :
      (k : Books V A) (received sent : ℕ → List A) (h : List A)
      → Story V id_of k received h
      → ((j : ℕ) → Starts (received j) (sent j))
      → (j : ℕ) → Starts (from id_of j h) (sent j)
  Starts-received k received sent h s e j =
      Starts-trans (from id_of j h) (received j) (sent j) (pending V k j, sym (s.balance j)) (e j)

  -- What is delivered is in the order.
  pub Starts-delivered :
      (k : Books V A) (received : ℕ → List A) (h : List A)
      → Story V id_of k received h
      → Starts k.delivered h
  Starts-delivered k received h s = (s.todo, s.whole)

-- ===== src/Books/Moves.antt =====
-- The saving and the moving of messages in protocol_tcp/main.c and protocol_udp/mainUDP.c, as steps of the history of a
-- process.
use protocol_pfe.Base.{
  ℕ, ◌<◌, ◌≡◌, ◌≢◌, refl, sym, ap, subst, ◌∙◌, Bool-cases, inl, inr, Option, some, List, [], ◌∷◌,
  ◌++◌, ◌==◌, if◌then◌else◌, append_assoc, append-nil, All, All-append, ==_refl, ==_ne, ==_iff, ok,
  arith,
}
use protocol_pfe.World.{Ptr, null, update}
use protocol_pfe.Vector.{VectorLib, Roomy}
use protocol_pfe.Order.{Log, deref}
use protocol_pfe.Order.Ready.{Rep}
use protocol_pfe.Order.Insert.{Unused, add_info_lem}
use protocol_pfe.Books.{Books, save_in, save_acked, save_unacked, move_from, move_acked}
use protocol_pfe.Books.History.{
  from, from-append, from-same, from-other, Texts, Texts-append, Story, pending, contents_of,
}

-- The messages of each process with one more.
abbrev pub receive : {A : Type 0} → (A → ℕ) → A → (ℕ → List A) → ℕ → List A
receive id_of b received j = if id_of b == j then received j ++ b ∷ [] else received j

module _ (V : VectorLib) (room : Roomy V) {A : Type 0} (id_of : A → ℕ) where
  -- A message is put at the end of the order.
  ordered :
      (k : Books V A) (l : Log V A) (received : ℕ → List A) (h : List A) (p : Ptr) (b : A)
      (vs : ℕ → Option (V.Vec A)) (received' : ℕ → List A) (s : Story V id_of k received h)
      → Rep V l (s.ps ++ p ∷ []) s.qs (s.ms ++ record { message = some b; bits = k.conf_bits } ∷ [])
      → ((j : ℕ) → j < k.num_nodes → (v : V.Vec A) × (vs j ≡ some v))
      → ((j : ℕ) → All (λ c. id_of c ≡ j) (contents_of V (vs j)))
      → ((j : ℕ) → received' j ≡ from id_of j (h ++ b ∷ []) ++ contents_of V (vs j))
      → Story V id_of (record k { vector_no_ack = vs; log = l }) received' (h ++ b ∷ [])
  ordered k l received h p b vs received' s r v o e = record {
    ps = s.ps ++ p ∷ [];
    qs = s.qs;
    ms = s.ms ++ record { message = some b; bits = k.conf_bits } ∷ [];
    stands = r;
    todo = s.todo ++ b ∷ [];
    texts =
        subst (λ ms. Texts ms (s.todo ++ b ∷ []))
          (append_assoc s.qs s.ms (record { message = some b; bits = k.conf_bits } ∷ []))
          (Texts-append (s.qs ++ s.ms) (record { message = some b; bits = k.conf_bits } ∷ []) s.todo
            (b ∷ []) s.texts (refl, tt));
    whole = sym (append_assoc k.delivered s.todo (b ∷ [])) ∙ ap (λ bs. bs ++ b ∷ []) s.whole;
    vectors = v;
    owned = o;
    balance = e;
  }

  received-ordered :
      (k : Books V A) (received : ℕ → List A) (h : List A) (b : A)
      → Story V id_of k received h
      → pending V k (id_of b) ≡ []
      → (j : ℕ) → receive id_of b received j ≡ from id_of j (h ++ b ∷ []) ++ pending V k j
  received-ordered k received h b s e j = elim (Bool-cases (id_of b == j)) [
    | inl same ↦
        let eq : id_of b ≡ j = (==_iff _ _).0 same in
        let idle : pending V k j ≡ [] = ap (pending V k) (sym eq) ∙ e in
        rw (from-append id_of j h (b ∷ []), same, s.balance j, idle, append-nil, append-nil) refl
    | inr other ↦ rw (from-append id_of j h (b ∷ []), other, s.balance j, append-nil) refl
  ]

  pub save_acked_lem :
      (p : Ptr) (b : A) (k : Books V A) (received : ℕ → List A) (h : List A)
      → Story V id_of k received h
      → p ≢ null
      → Unused V p k.log
      → pending V k (id_of b) ≡ []
      → (l : Log V A) × (save_acked V p b k ≡ ok (record k { log = l }))
        × Story V id_of (record k { log = l }) (receive id_of b received) (h ++ b ∷ [])
  unfolding save_acked
  save_acked_lem p b k received h s a f e =
      let (l, ran, r) =
        add_info_lem V p (record { message = some b; bits = k.conf_bits }) k.log s.ps s.qs s.ms
          s.stands a f (room Ptr p k.log.vector_ack) in
      (
        l,
        rw ran refl,
        ordered k l received h p b k.vector_no_ack (receive id_of b received) s r s.vectors s.owned
            (received-ordered k received h b s e),
      )

  -- What update does at another key.
  vectors-update :
      (vs : ℕ → Option (V.Vec A)) (i m : ℕ) (v : V.Vec A)
      → ((j : ℕ) → j < m → (w : V.Vec A) × (vs j ≡ some w))
      → (j : ℕ) → j < m
      → (w : V.Vec A) × (update vs i (some v) j ≡ some w)
  vectors-update vs i m v h j lt = elim (Bool-cases (j == i)) [
    | inl e ↦ (v, rw e refl)
    | inr e ↦ let (w, g) = h j lt in (w, rw e g)
  ]

  at_key :
      (vs : ℕ → Option (V.Vec A)) (i : ℕ) (v : V.Vec A) (P : ℕ → List A → Type 0)
      → ((j : ℕ) → i ≢ j → P j (contents_of V (vs j)))
      → P i (V.contents v)
      → (j : ℕ) → P j (contents_of V (update vs i (some v) j))
  at_key vs i v P h g j = elim (Bool-cases (j == i)) [
    | inl e ↦ rw e (subst (λ x. P x (V.contents v)) (sym ((==_iff _ _).0 e)) g)
    | inr e ↦ rw e (h j (λ d. ground (arith, d, e)))
  ]

  kept_back :
      (k : Books V A) (received : ℕ → List A) (h : List A) (b : A) (v v' : V.Vec A)
      → Story V id_of k received h
      → k.vector_no_ack (id_of b) ≡ some v
      → V.contents v' ≡ V.contents v ++ b ∷ []
      → Story V id_of
          (record k { vector_no_ack = update k.vector_no_ack (id_of b) (some v') })
          (receive id_of b received)
          h
  kept_back k received h b v v' s here e =
      let i = id_of b in
      let mine : pending V k i ≡ V.contents v = ap (contents_of V) here in
      record {
        ps = s.ps;
        qs = s.qs;
        ms = s.ms;
        stands = s.stands;
        todo = s.todo;
        texts = s.texts;
        whole = s.whole;
        vectors = vectors-update k.vector_no_ack i k.num_nodes v' s.vectors;
        owned =
            at_key k.vector_no_ack i v' (λ j bs. All (λ c. id_of c ≡ j) bs) (λ j d. s.owned j)
              (rw e (
                All-append (λ c. id_of c ≡ i) (V.contents v) (b ∷ [])
                  (subst (λ bs. All (λ (c : A). id_of c ≡ i) bs) mine (s.owned i)) (refl, tt)));
        balance =
            at_key k.vector_no_ack i v' (λ j bs. receive id_of b received j ≡ from id_of j h ++ bs)
              (λ j d. rw (==_ne i j d) (s.balance j))
              (rw (==_refl i, s.balance i, mine, e, append_assoc) refl);
      }

  pub save_unacked_lem :
      (b : A) (k : Books V A) (received : ℕ → List A) (h : List A)
      → Story V id_of k received h
      → id_of b < k.num_nodes
      → (vs : ℕ → Option (V.Vec A)) × (save_unacked V (id_of b) b k
          ≡ ok (record k { vector_no_ack = vs }))
        × Story V id_of (record k { vector_no_ack = vs }) (receive id_of b received) h
        × (contents_of V (vs (id_of b)) ≡ pending V k (id_of b) ++ b ∷ [])
  unfolding save_unacked save_in deref
  save_unacked_lem b k received h s lt =
      let (v, here) = s.vectors (id_of b) lt in
      let v' = (V.add_elt b v).1 in
      let grown : V.contents v' ≡ V.contents v ++ b ∷ [] = V.contents-add_elt b v (room A b v) in
      (
        update k.vector_no_ack (id_of b) (some v'),
        rw (here, room A b v) refl,
        kept_back k received h b v v' s here grown,
        rw (==_refl (id_of b), here) grown,
      )

  moved_on :
      (k : Books V A) (l : Log V A) (received : ℕ → List A) (h : List A) (p : Ptr) (i : ℕ) (b : A)
      (rest : List A) (v' : V.Vec A) (s : Story V id_of k received h)
      → pending V k i ≡ b ∷ rest
      → V.contents v' ≡ rest
      → Rep V l (s.ps ++ p ∷ []) s.qs (s.ms ++ record { message = some b; bits = k.conf_bits } ∷ [])
      → Story V id_of
          (record k { vector_no_ack = update k.vector_no_ack i (some v'); log = l })
          received
          (h ++ b ∷ [])
  moved_on k l received h p i b rest v' s wait e r =
      let mine = subst (λ bs. All (λ (c : A). id_of c ≡ i) bs) wait (s.owned i) in
      ordered k l received h p b (update k.vector_no_ack i (some v')) received s r
        (vectors-update k.vector_no_ack i k.num_nodes v' s.vectors)
        (at_key k.vector_no_ack i v' (λ j bs. All (λ c. id_of c ≡ j) bs) (λ j d. s.owned j)
          (rw e mine.1))
        (at_key k.vector_no_ack i v' (λ j bs. received j ≡ from id_of j (h ++ b ∷ []) ++ bs)
          (λ j d.
            rw
              (
                from-append id_of j h (b ∷ []),
                from-other id_of j b (λ g. d (sym mine.0 ∙ g)),
                append-nil,
              )
              (s.balance j))
          (rw
            (
              s.balance i,
              from-append id_of i h (b ∷ []),
              from-same id_of i b mine.0,
              e,
              wait,
              append_assoc,
            )
            refl))

  -- The oldest message of the process is put into the order.
  pub move_acked_lem :
      (p : Ptr) (i : ℕ) (k : Books V A) (received : ℕ → List A) (h : List A) (b : A) (rest : List A)
      → Story V id_of k received h
      → p ≢ null
      → Unused V p k.log
      → i < k.num_nodes
      → pending V k i ≡ b ∷ rest
      → (vs : ℕ → Option (V.Vec A)) × (l : Log V A) × (move_acked V p i k
          ≡ ok (record k { vector_no_ack = vs; log = l }))
        × Story V id_of (record k { vector_no_ack = vs; log = l }) received (h ++ b ∷ [])
        × (id_of b ≡ i)
        × (contents_of V (vs i) ≡ rest)
  unfolding move_acked move_from deref
  move_acked_lem p i k received h b rest s f u lt wait =
      let (v, here) = s.vectors i lt in
      let first = V.remove_first_lem b rest v (sym (ap (contents_of V) here) ∙ wait) in
      let v' = (V.remove_first v).1 in
      let (l, ran, r) =
        add_info_lem V p (record { message = some b; bits = k.conf_bits }) k.log s.ps s.qs s.ms
          s.stands f u (room Ptr p k.log.vector_ack) in
      let mine = subst (λ bs. All (λ (c : A). id_of c ≡ i) bs) wait (s.owned i) in
      (
        update k.vector_no_ack i (some v'),
        l,
        rw (here, first.0, ran) refl,
        moved_on k l received h p i b rest v' s wait first.1 r,
        mine.0,
        rw (==_refl i) first.1,
      )

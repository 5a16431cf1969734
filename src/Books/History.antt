-- ===== src/Books/History.antt =====
-- The history of a process in protocol_tcp/main.c and protocol_udp/mainUDP.c: the messages it has put into the common order, the delivered ones
-- first.
use protocol_pfe.Base.{
  ℕ, suc, ◌<◌, ◌≡◌, ◌≢◌, refl, ap, Bool, Option, none, some, List, [], ◌∷◌, ◌++◌, ◌==◌,
  if◌then◌else◌, All, arith,
}
use protocol_pfe.World.{Ptr}
use protocol_pfe.Vector.{VectorLib}
use protocol_pfe.Order.{MsgInfo}
use protocol_pfe.Order.Ready.{Rep, ready, waiting}
use protocol_pfe.Order.Marks.{mark}
use protocol_pfe.Books.{Books}

module _ {A : Type 0} (id_of : A → ℕ) where
  -- The messages of one process.
  abbrev pub from : ℕ → List A → List A
  from j [] = []
  from j (b ∷ bs) = if id_of b == j then b ∷ from j bs else from j bs

  pub from-append : (j : ℕ) (xs ys : List A) → from j (xs ++ ys) ≡ from j xs ++ from j ys
  from-append j [] ys = refl
  from-append j (x ∷ xs) ys = ground (arith, from-append j xs ys)

  pub from-same : (j : ℕ) (b : A) → id_of b ≡ j → from j (b ∷ []) ≡ b ∷ []
  from-same j b e = ground (arith, e)

  pub from-other : (j : ℕ) (b : A) → id_of b ≢ j → from j (b ∷ []) ≡ []
  from-other j b e = ground (arith, e)

module _ {A : Type 0} where
  -- The messages behind the msg_infos.
  abbrev pub Texts : List (MsgInfo A) → List A → Type 0
  Texts [] [] = Unit
  Texts [] (b ∷ bs) = ⊥
  Texts (m ∷ ms) [] = ⊥
  Texts (m ∷ ms) (b ∷ bs) = (m.message ≡ some b) × Texts ms bs

  pub Texts-append :
      (ms ms' : List (MsgInfo A)) (bs bs' : List A)
      → Texts ms bs
      → Texts ms' bs'
      → Texts (ms ++ ms') (bs ++ bs')
  Texts-append [] ms' [] bs' h k = k
  Texts-append [] ms' (b ∷ bs) bs' h k = elim h [ ]
  Texts-append (m ∷ ms) ms' [] bs' h k = elim h [ ]
  Texts-append (m ∷ ms) ms' (b ∷ bs) bs' h k = (h.0, Texts-append ms ms' bs bs' h.1 k)

  pub Texts-split :
      (ms ms' : List (MsgInfo A)) (bs : List A)
      → Texts (ms ++ ms') bs
      → (xs ys : List A) × (bs ≡ xs ++ ys) × Texts ms xs × Texts ms' ys
  Texts-split [] ms' bs h = ([], bs, refl, tt, h)
  Texts-split (m ∷ ms) ms' [] h = elim h [ ]
  Texts-split (m ∷ ms) ms' (b ∷ bs) h =
      let (xs, ys, e, hx, hy) = Texts-split ms ms' bs h.1 in
      (b ∷ xs, ys, ap (λ zs. b ∷ zs) e, (h.0, hx), hy)

  -- Clearing bits leaves the messages as they are.
  pub Texts-mark :
      (covers : ℕ → Bool) (id rank : ℕ) (ms : List (MsgInfo A)) (bs : List A)
      → Texts ms bs
      → Texts (mark covers id rank ms) bs
  Texts-mark covers id rank [] [] h = h
  Texts-mark covers id rank [] (b ∷ bs) h = elim h [ ]
  Texts-mark covers id rank (m ∷ ms) [] h = elim h [ ]
  Texts-mark covers id rank (m ∷ ms) (b ∷ bs) h =
      (ground (arith, h.0), Texts-mark covers id (suc rank) ms bs h.1)

  pub ready-waiting : (ms : List (MsgInfo A)) → ready ms ++ waiting ms ≡ ms
  ready-waiting [] = refl
  ready-waiting (m ∷ ms) = ground (arith, ready-waiting ms)

module _ (V : VectorLib) {A : Type 0} where
  abbrev pub contents_of : Option (V.Vec A) → List A
  contents_of none = []
  contents_of (some v) = V.contents v

  -- The messages of a process that wait for their acks.
  abbrev pub pending : Books V A → ℕ → List A
  pending k j = contents_of (k.vector_no_ack j)

module _ (V : VectorLib) {A : Type 0} (id_of : A → ℕ) where
  -- `received` are the messages that the process has received from each process, or made itself,
  -- and `h` those that it has put into the order, of which `todo` are not delivered yet.
  pub record Story (k : Books V A) (received : ℕ → List A) (h : List A) : Type 0 where
    pub ps : List Ptr
    pub qs : List (MsgInfo A)
    pub ms : List (MsgInfo A)
    pub stands : Rep V k.log ps qs ms
    pub todo : List A
    pub texts : Texts (qs ++ ms) todo
    pub whole : k.delivered ++ todo ≡ h
    pub vectors : (j : ℕ) → j < k.num_nodes → (v : V.Vec A) × (k.vector_no_ack j ≡ some v)
    pub owned : (j : ℕ) → All (λ b. id_of b ≡ j) (pending V k j)
    pub balance : (j : ℕ) → received j ≡ from id_of j h ++ pending V k j

-- ===== src/Links/Chains.antt =====
-- The links of a list on the heap.
use protocol_pfe.Base.{
  ℕ, ◌≡◌, ◌≢◌, refl, ap, ◌∙◌, Option, none, some, List, [], ◌∷◌, ◌++◌, All, ==_refl, ==_ne,
}
use protocol_pfe.World.{Ptr, null, update}
use protocol_pfe.Order.Holds.{Fresh, Distinct}
use protocol_pfe.Links.{ListLink, Heap, TrList}

-- The links at these pointers are chained and have these values; the last has none.
abbrev pub Chain : Heap → List Ptr → List ℕ → Type 0
Chain heap [] vs = ⊥
Chain heap (p ∷ []) [] =
    (r : Ptr) × (heap p ≡ some (record { value = 0; next = null; previous = r }))
Chain heap (p ∷ []) (v ∷ vs) = ⊥
Chain heap (p ∷ q ∷ ps) [] = ⊥
Chain heap (p ∷ q ∷ ps) (v ∷ vs) =
    (v ≢ 0)
    × (r : Ptr) × (heap p ≡ some (record { value = v; next = q; previous = r }))
    × Chain heap (q ∷ ps) vs

abbrev pub last_of : Ptr → List Ptr → Ptr
last_of p [] = p
last_of p (q ∷ ps) = last_of q ps

pub last_of-All : (P : Ptr → Type 0) (p : Ptr) (ps : List Ptr) → All P (p ∷ ps) → P (last_of p ps)
last_of-All P p [] h = h.0
last_of-All P p (q ∷ ps) h = last_of-All P q ps h.1

pub last_of-snoc : (p : Ptr) (ps : List Ptr) (new : Ptr) → last_of p (ps ++ new ∷ []) ≡ new
last_of-snoc p [] new = refl
last_of-snoc p (q ∷ ps) new = last_of-snoc q ps new

-- The list holds these values.
pub record IsList (l : TrList) (heap : Heap) (vs : List ℕ) : Type 0 where
  pub rest : List Ptr
  pub chain : Chain heap (l.first ∷ rest) vs
  pub distinct : Distinct (l.first ∷ rest)
  pub valid : All (λ p. p ≢ null) (l.first ∷ rest)
  pub end : l.last ≡ last_of l.first rest

pub Chain-agree :
    (heap heap' : Heap) (ps : List Ptr) (vs : List ℕ)
    → All (λ p. heap' p ≡ heap p) ps
    → Chain heap ps vs
    → Chain heap' ps vs
Chain-agree heap heap' [] vs e c = c
Chain-agree heap heap' (p ∷ []) [] e (r, c) = (r, e.0 ∙ c)
Chain-agree heap heap' (p ∷ []) (v ∷ vs) e c = c
Chain-agree heap heap' (p ∷ q ∷ ps) [] e c = c
Chain-agree heap heap' (p ∷ q ∷ ps) (v ∷ vs) e (nz, r, c, cs) =
    (nz, r, e.0 ∙ c, Chain-agree heap heap' (q ∷ ps) vs e.1 cs)

pub agree-update :
    (heap : Heap) (p : Ptr) (o : Option ListLink) (ps : List Ptr)
    → Fresh p ps
    → All (λ q. update heap p o q ≡ heap q) ps
agree-update heap p o [] f = tt
agree-update heap p o (q ∷ ps) f = (rw (==_ne q p f.0) refl, agree-update heap p o ps f.1)

pub Chain-update :
    (heap : Heap) (p : Ptr) (o : Option ListLink) (ps : List Ptr) (vs : List ℕ)
    → Fresh p ps
    → Chain heap ps vs
    → Chain (update heap p o) ps vs
Chain-update heap p o ps vs f c =
    Chain-agree heap (update heap p o) ps vs (agree-update heap p o ps f) c

-- A free block is none of the links.
pub Chain-Fresh :
    (heap : Heap) (p : Ptr) (ps : List Ptr) (vs : List ℕ)
    → heap p ≡ none
    → Chain heap ps vs
    → Fresh p ps
Chain-Fresh heap p [] vs e c = tt
Chain-Fresh heap p (q ∷ []) [] e (r, c) = ((λ s. absurd (cc (ap heap s, e, c))), tt)
Chain-Fresh heap p (q ∷ []) (v ∷ vs) e c = elim c [ ]
Chain-Fresh heap p (q ∷ q' ∷ ps) [] e c = elim c [ ]
Chain-Fresh heap p (q ∷ q' ∷ ps) (v ∷ vs) e (nz, r, c, cs) =
    ((λ s. absurd (cc (ap heap s, e, c))), Chain-Fresh heap p (q' ∷ ps) vs e cs)

-- The last link takes a value, and a new one stands behind it.
pub Chain-snoc :
    (heap heap' : Heap) (p : Ptr) (ps : List Ptr) (vs : List ℕ) (new : Ptr) (v : ℕ) (r r' : Ptr)
    → Chain heap (p ∷ ps) vs
    → Distinct (p ∷ ps)
    → v ≢ 0
    → heap' (last_of p ps) ≡ some (record { value = v; next = new; previous = r })
    → ((q : Ptr) → last_of p ps ≢ q → q ≢ new → heap' q ≡ heap q)
    → Fresh new (p ∷ ps)
    → heap' new ≡ some (record { value = 0; next = null; previous = r' })
    → Chain heap' (p ∷ ps ++ new ∷ []) (vs ++ v ∷ [])
Chain-snoc heap heap' p [] [] new v r r' c d nz e same f n = (nz, r, e, (r', n))
Chain-snoc heap heap' p [] (w ∷ vs) new v r r' c d nz e same f n = elim c [ ]
Chain-snoc heap heap' p (q ∷ ps) [] new v r r' c d nz e same f n = elim c [ ]
Chain-snoc heap heap' p (q ∷ ps) (w ∷ vs) new v r r' (nw, r0, c, cs) d nz e same f n = (
  nw,
  r0,
  same p (last_of-All (λ x. x ≢ p) q ps d.0) f.0 ∙ c,
  Chain-snoc heap heap' q ps vs new v r r' cs d.1 nz e same f.1 n,
)

pub Chain-last :
    (heap : Heap) (p : Ptr) (ps : List Ptr) (vs : List ℕ)
    → Chain heap (p ∷ ps) vs
    → (r : Ptr) × (heap (last_of p ps) ≡ some (record { value = 0; next = null; previous = r }))
Chain-last heap p [] [] c = c
Chain-last heap p [] (v ∷ vs) c = elim c [ ]
Chain-last heap p (q ∷ ps) [] c = elim c [ ]
Chain-last heap p (q ∷ ps) (v ∷ vs) (nz, r, c, cs) = Chain-last heap q ps vs cs

-- The first link, and the list with another `previous` in it.
pub Chain-first :
    (heap : Heap) (p : Ptr) (ps : List Ptr) (vs : List ℕ)
    → Chain heap (p ∷ ps) vs
    → Distinct (p ∷ ps)
    → (link : ListLink) × (heap p ≡ some link)
      × Chain (update heap p (some (record link { previous = null }))) (p ∷ ps) vs
Chain-first heap p [] [] (r, c) d =
    (record { value = 0; next = null; previous = r }, c, (null, rw (==_refl p) refl))
Chain-first heap p [] (v ∷ vs) c d = elim c [ ]
Chain-first heap p (q ∷ ps) [] c d = elim c [ ]
Chain-first heap p (q ∷ ps) (v ∷ vs) (nz, r, c, cs) d =
    let link : ListLink = record { value = v; next = q; previous = r } in
    (
      link,
      c,
      (
        nz,
        null,
        rw (==_refl p) refl,
        Chain-update heap p (some (record link { previous = null })) (q ∷ ps) vs d.0 cs,
      ),
    )

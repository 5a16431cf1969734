-- ===== src/Order/Holds.antt =====
-- Pointers and the values they point to.
use protocol_pfe.Base.{
  suc, ◌≡◌, ◌≢◌, refl, sym, ap, ◌∙◌, Option, some, List, [], ◌∷◌, ◌++◌, length, All, All-append,
  ==_ne,
}
use protocol_pfe.World.{Ptr, update}

-- No pointer of the list is `p`.
abbrev pub Fresh : Ptr → List Ptr → Type 0
Fresh p ps = All (λ q. q ≢ p) ps

-- No pointer stands twice.
abbrev pub Distinct : List Ptr → Type 0
Distinct [] = Unit
Distinct (p ∷ ps) = Fresh p ps × Distinct ps

module _ {A : Type 0} where
  -- The pointers point to these values.
  abbrev pub Holds : (Ptr → Option A) → List Ptr → List A → Type 0
  Holds store [] [] = Unit
  Holds store [] (x ∷ xs) = ⊥
  Holds store (p ∷ ps) [] = ⊥
  Holds store (p ∷ ps) (x ∷ xs) = (store p ≡ some x) × Holds store ps xs

  pub Holds-length :
      (store : Ptr → Option A) (ps : List Ptr) (xs : List A)
      → Holds store ps xs
      → length ps ≡ length xs
  Holds-length store [] [] h = refl
  Holds-length store [] (x ∷ xs) h = elim h [ ]
  Holds-length store (p ∷ ps) [] h = elim h [ ]
  Holds-length store (p ∷ ps) (x ∷ xs) h = ap suc (Holds-length store ps xs h.1)

  -- A store that agrees on the pointers.
  pub Holds-agree :
      (store store' : Ptr → Option A) (ps : List Ptr) (xs : List A)
      → All (λ p. store' p ≡ store p) ps
      → Holds store ps xs
      → Holds store' ps xs
  Holds-agree store store' [] [] e h = tt
  Holds-agree store store' [] (x ∷ xs) e h = elim h [ ]
  Holds-agree store store' (p ∷ ps) [] e h = elim h [ ]
  Holds-agree store store' (p ∷ ps) (x ∷ xs) e h =
      (e.0 ∙ h.0, Holds-agree store store' ps xs e.1 h.1)

  -- A store that agrees but at one pointer.
  pub Holds-but :
      (store store' : Ptr → Option A) (p : Ptr) (ps : List Ptr) (xs : List A)
      → ((q : Ptr) → p ≢ q → store' q ≡ store q)
      → Fresh p ps
      → Holds store ps xs
      → Holds store' ps xs
  Holds-but store store' p ps xs same f h = Holds-agree store store' ps xs (go ps f) h
    where
      go : (qs : List Ptr) → Fresh p qs → All (λ q. store' q ≡ store q) qs
      go [] g = tt
      go (q ∷ qs) g = (same q (λ e. g.0 (sym e)), go qs g.1)

  agree-update :
      (store : Ptr → Option A) (p : Ptr) (o : Option A) (ps : List Ptr)
      → Fresh p ps
      → All (λ q. update store p o q ≡ store q) ps
  agree-update store p o [] f = tt
  agree-update store p o (q ∷ ps) f = (rw (==_ne q p f.0) refl, agree-update store p o ps f.1)

  pub Holds-update :
      (store : Ptr → Option A) (p : Ptr) (o : Option A) (ps : List Ptr) (xs : List A)
      → Fresh p ps
      → Holds store ps xs
      → Holds (update store p o) ps xs
  Holds-update store p o ps xs f h =
      Holds-agree store (update store p o) ps xs (agree-update store p o ps f) h

  pub Holds-append :
      (store : Ptr → Option A) (ps qs : List Ptr) (xs ys : List A)
      → Holds store ps xs
      → Holds store qs ys
      → Holds store (ps ++ qs) (xs ++ ys)
  Holds-append store [] qs [] ys h k = k
  Holds-append store [] qs (x ∷ xs) ys h k = elim h [ ]
  Holds-append store (p ∷ ps) qs [] ys h k = elim h [ ]
  Holds-append store (p ∷ ps) qs (x ∷ xs) ys h k = (h.0, Holds-append store ps qs xs ys h.1 k)

-- Parts of lists without repetitions.
pub Fresh-append : (p : Ptr) (ps qs : List Ptr) → Fresh p (ps ++ qs) → Fresh p ps × Fresh p qs
Fresh-append p [] qs f = (tt, f)
Fresh-append p (q ∷ ps) qs f = let r = Fresh-append p ps qs f.1 in ((f.0, r.0), r.1)

pub Distinct-append :
    (ps qs : List Ptr) → Distinct (ps ++ qs) → Distinct ps × Distinct qs × All (λ p. Fresh p qs) ps
Distinct-append [] qs d = (tt, d, tt)
Distinct-append (p ∷ ps) qs d =
    let (dp, dq, apart) = Distinct-append ps qs d.1 in
    let (fp, fq) = Fresh-append p ps qs d.0 in ((fp, dp), dq, (fq, apart))

-- A new pointer may stand at the end.
pub Distinct-snoc : (ps : List Ptr) (p : Ptr) → Distinct ps → Fresh p ps → Distinct (ps ++ p ∷ [])
Distinct-snoc [] p d f = (tt, tt)
Distinct-snoc (q ∷ ps) p d f =
    (All-append (λ r. r ≢ q) ps (p ∷ []) d.0 ((λ e. f.0 (sym e)), tt), Distinct-snoc ps p d.1 f.1)

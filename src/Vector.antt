-- ===== src/Vector.antt =====
-- vector.h, which protocol_tcp/main.c and protocol_udp/mainUDP.c include and the repository does
-- not hold: its functions as they are called, and what the callers rely on.
pub mod Lists
use protocol_pfe.Base.{ℕ, ◌<◌, ◌≡◌, ◌++◌, List, [], ◌∷◌, Option, some, length, get_elem?}

-- `contents` is the sequence that a vector stands for. addElt returns 1 where it has appended the
-- element; elementAt is called with ranks of elements, removeFirst on a vector that is not empty.
pub record VectorLib : Type 1 where
  pub Vec : Type 0 → Type 0
  pub create_vector : {A : Type 0} → ℕ → Vec A
  pub add_elt : {A : Type 0} → A → Vec A → ℕ × Vec A
  pub remove_first : {A : Type 0} → Vec A → Option A × Vec A
  pub element_at : {A : Type 0} → ℕ → Vec A → Option A
  pub number_of_elt : {A : Type 0} → Vec A → ℕ
  pub contents : {A : Type 0} → Vec A → List A
  pub contents-create_vector : {A : Type 0} (n : ℕ) → contents (create_vector {A = A} n) ≡ []
  pub contents-add_elt :
      {A : Type 0} (x : A) (v : Vec A)
      → (add_elt x v).0 ≡ 1
      → contents (add_elt x v).1 ≡ contents v ++ x ∷ []
  pub remove_first_lem :
      {A : Type 0} (x : A) (xs : List A) (v : Vec A)
      → contents v ≡ x ∷ xs
      → ((remove_first v).0 ≡ some x) × (contents (remove_first v).1 ≡ xs)
  pub element_at_lem :
      {A : Type 0} (i : ℕ) (v : Vec A)
      → i < length (contents v)
      → element_at i v ≡ get_elem? i (contents v)
  pub number_of_elt_lem : {A : Type 0} (v : Vec A) → number_of_elt v ≡ length (contents v)

-- Every vector takes one more element.
abbrev pub Roomy : VectorLib → Type 1
Roomy V = (A : Type 0) (x : A) (v : V.Vec A) → (V.add_elt x v).0 ≡ 1

-- ===== src/Vector/Lists.antt =====
-- Vectors of any length, as lists: an instance of the interface for the tests.
use protocol_pfe.Base.{◌≡◌, refl, ◌++◌, List, [], ◌∷◌, Option, none, some, length, get_elem?}
use protocol_pfe.Vector.{VectorLib}

abbrev pub pop : {A : Type 0} → List A → Option A × List A
pop [] = (none, [])
pop (x ∷ xs) = (some x, xs)

pub pop_lem :
    {A : Type 0} (x : A) (xs v : List A) → v ≡ x ∷ xs → ((pop v).0 ≡ some x) × ((pop v).1 ≡ xs)
pop_lem x xs v e = rw e (refl, refl)

abbrev pub list_vectors : VectorLib
list_vectors = record {
  Vec = List;
  create_vector = λ n. [];
  add_elt = λ x v. (1, v ++ x ∷ []);
  remove_first = pop;
  element_at = get_elem?;
  number_of_elt = length;
  contents = λ v. v;
  contents-create_vector = λ n. refl;
  contents-add_elt = λ x v e. refl;
  remove_first_lem = pop_lem;
  element_at_lem = λ i v h. refl;
  number_of_elt_lem = λ v. refl;
}

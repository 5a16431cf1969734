-- ===== src/Config/Words.antt =====
-- The words that get_substr takes from a line.
use protocol_pfe.Base.{
  ℕ, zero, suc, ◌+◌, ◌-◌, ◌<◌, ◌≡◌, ap, ◌∙◌, false, List, [], ◌∷◌, ◌++◌, length, length-append,
  append_assoc, get_elem?, get_elem?-length, All, ◌==◌, arith,
}
use protocol_pfe.Config.{delimiter, or_end, char_at, substr_loop, get_substr}

abbrev pub Unbroken : List ℕ → Type 0
Unbroken w = All (λ c. (c == delimiter) ≡ false) w

pub char_at_lem : (pre rest : List ℕ) (c i : ℕ) → i ≡ length pre → char_at (pre ++ c ∷ rest) i ≡ c
unfolding char_at
char_at_lem pre rest c i e =
    ap (λ n. or_end (get_elem? n (pre ++ c ∷ rest))) e ∙ ap or_end (get_elem?-length pre rest c)

one_more : (pre : List ℕ) (c i : ℕ) → i ≡ length pre → i + 1 ≡ length (pre ++ c ∷ [])
one_more pre c i e = omega (arith, length-append pre (c ∷ []))

-- A word up to the end that is given, or up to a delimiter before it.
substr_to_end :
    (w pre rest : List ℕ) (i : ℕ)
    → i ≡ length pre
    → Unbroken w
    → substr_loop (length w) i (pre ++ (w ++ rest)) ≡ (w, i + length w)
unfolding substr_loop
substr_to_end [] pre rest i e h = ap (λ n. ([], n)) (omega arith)
substr_to_end (c ∷ w) pre rest i e h =
    let next = substr_to_end w (pre ++ c ∷ []) rest (i + 1) (one_more pre c i e) h.1 in
    rw (char_at_lem pre (w ++ rest) c i e, h.0, ← append_assoc pre (c ∷ []) (w ++ rest), next)
      (ap (λ n. (c ∷ w, n)) (omega arith))

-- The last word of a line, in front of its end.
pub get_substr-last :
    (pre w rest : List ℕ) (i end_index : ℕ)
    → i ≡ length pre
    → end_index ≡ length pre + length w
    → Unbroken w
    → get_substr i end_index (pre ++ (w ++ rest)) ≡ (w, i + length w)
unfolding get_substr
get_substr-last pre w rest i end_index e f h =
    let n : end_index - i ≡ length w = omega arith in rw n (substr_to_end w pre rest i e h)

substr_to_delimiter :
    (w pre rest : List ℕ) (n i : ℕ)
    → i ≡ length pre
    → length w < n
    → Unbroken w
    → substr_loop n i (pre ++ (w ++ delimiter ∷ rest)) ≡ (w, i + length w)
unfolding substr_loop
substr_to_delimiter w pre rest zero i e l h = absurd (omega arith)
substr_to_delimiter [] pre rest (suc n) i e l h =
    rw (char_at_lem pre rest delimiter i e) (ap (λ n. ([], n)) (omega arith))
substr_to_delimiter (c ∷ w) pre rest (suc n) i e l h =
    let next =
      substr_to_delimiter w (pre ++ c ∷ []) rest n (i + 1) (one_more pre c i e) (omega arith) h.1 in
    rw
      (
        char_at_lem pre (w ++ delimiter ∷ rest) c i e,
        h.0,
        ← append_assoc pre (c ∷ []) (w ++ delimiter ∷ rest),
        next,
      )
      (ap (λ n. (c ∷ w, n)) (omega arith))

-- A word in front of a delimiter.
pub get_substr-next :
    (pre w rest : List ℕ) (i end_index : ℕ)
    → i ≡ length pre
    → length pre + length w < end_index
    → Unbroken w
    → get_substr i end_index (pre ++ (w ++ delimiter ∷ rest)) ≡ (w, i + length w)
unfolding get_substr
get_substr-next pre w rest i end_index e f h =
    substr_to_delimiter w pre rest (end_index - i) i e (omega arith) h

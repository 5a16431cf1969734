-- ===== src/Config/Numbers.antt =====
-- Decimal numbers, and what atoi makes of them.
use protocol_pfe.Base.{
  ℕ, zero, suc, ◌+◌, ◌-◌, ◌*◌, ◌/◌, ◌%◌, ◌≤◌, ◌<◌, ◌≡◌, refl, ap, ◌∙◌, inl, inr, true, List, [],
  ◌∷◌, ◌++◌, All, All-append, All-map, false, ◌==◌, ltb, ◌^◌, ok, if◌then◌else◌, arith, Bool-cases,
}
use protocol_pfe.Config.{delimiter, number_sign, is_digit, atoi_from, atoi, char_at}

-- The digits of a number, the first one first. A number has at most as many as itself and one more.
abbrev pub digits_of : ℕ → ℕ → List ℕ
digits_of zero n = []
digits_of (suc fuel) n =
    let more = digits_of fuel (n / 10) in
    if ltb n 10 then (48 + n) ∷ [] else more ++ ((48 + n % 10) ∷ [])

abbrev pub decimal : ℕ → List ℕ
decimal n = digits_of (suc n) n

digit : (d : ℕ) → d < 10 → is_digit (48 + d) ≡ true
unfolding is_digit
digit d h = ground arith

digits_of-digits : (fuel n : ℕ) → All (λ c. is_digit c ≡ true) (digits_of fuel n)
digits_of-digits zero n = tt
digits_of-digits (suc fuel) n = elim (Bool-cases (ltb n 10)) [
  | inl e ↦ rw e (digit n (ground arith), tt)
  | inr e ↦ rw e (
      All-append (λ c. is_digit c ≡ true) (digits_of fuel (n / 10)) ((48 + n % 10) ∷ [])
        (digits_of-digits fuel (n / 10)) (digit (n % 10) (omega arith), tt))
]

atoi_from-snoc :
    (n d : ℕ) (cs : List ℕ)
    → All (λ c. is_digit c ≡ true) cs
    → d < 10
    → atoi_from n (cs ++ (48 + d) ∷ []) ≡ atoi_from n cs * 10 + d
unfolding atoi_from
atoi_from-snoc n d [] h l = rw (digit d l) (omega arith)
atoi_from-snoc n d (c ∷ cs) h l = rw h.0 (atoi_from-snoc (n * 10 + (c - 48)) d cs h.1 l)

digits_of_lem : (fuel n : ℕ) → n < fuel → atoi_from 0 (digits_of fuel n) ≡ n
unfolding atoi_from
digits_of_lem zero n h = absurd (omega arith)
digits_of_lem (suc fuel) n h = elim (Bool-cases (ltb n 10)) [
  | inl e ↦ let l : n < 10 = ground arith in rw (e, digit n l) (omega arith)
  | inr e ↦
      let l : 10 ≤ n = ground arith in
      rw e (
        atoi_from-snoc 0 (n % 10) (digits_of fuel (n / 10)) (digits_of-digits fuel (n / 10))
          (omega arith)
        ∙ omega (arith, digits_of_lem fuel (n / 10) (omega arith)))
]

pub atoi-decimal : (n : ℕ) → n < 2 ^ 31 → atoi (decimal n) ≡ ok n
unfolding atoi
atoi-decimal n h =
    let small : ltb n (2 ^ 31) ≡ true = ground arith in
    rw (digits_of_lem (suc n) n (omega arith), small) refl

no_delimiter : (c : ℕ) → is_digit c ≡ true → (c == delimiter) ≡ false
unfolding is_digit
no_delimiter c h = ground arith

-- A number has no space in it.
pub decimal-Unbroken : (n : ℕ) → All (λ c. (c == delimiter) ≡ false) (decimal n)
decimal-Unbroken n =
    All-map (λ c. is_digit c ≡ true) (λ c. (c == delimiter) ≡ false) no_delimiter (decimal n)
      (digits_of-digits (suc n) n)

-- Its first character is a digit.
digits_of_first :
    (fuel n : ℕ)
    → n < fuel
    → (d : ℕ) × (cs : List ℕ) × (digits_of fuel n ≡ d ∷ cs) × (is_digit d ≡ true)
digits_of_first zero n h = absurd (omega arith)
digits_of_first (suc fuel) n h = elim (Bool-cases (ltb n 10)) [
  | inl e ↦ (48 + n, [], rw e refl, digit n (ground arith))
  | inr e ↦
      let (d, cs, first, is) = digits_of_first fuel (n / 10) (ground arith) in
      (d, cs ++ (48 + n % 10) ∷ [], rw (e, first) refl, is)
]

not_number_sign : (c : ℕ) → is_digit c ≡ true → (c == number_sign) ≡ false
unfolding is_digit
not_number_sign c h = ground arith

pub decimal_first : (n : ℕ) (rest : List ℕ) → (char_at (decimal n ++ rest) 0 == number_sign) ≡ false
unfolding char_at
decimal_first n rest =
    let (d, cs, first, is) = digits_of_first (suc n) n (omega arith) in
    ap (λ xs. char_at (xs ++ rest) 0 == number_sign) first ∙ not_number_sign d is

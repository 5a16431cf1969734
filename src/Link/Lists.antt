-- ===== src/Link/Lists.antt =====
-- take, drop and length of lists.
use protocol_pfe.Base.{ℕ, zero, suc, ◌+◌, ◌≤◌, ◌≡◌, refl, ap, List, [], ◌∷◌, ◌++◌, length, arith}
use protocol_pfe.Link.{take, drop}

pub length-take : (n : ℕ) (xs : List ℕ) → n ≤ length xs → length (take n xs) ≡ n
unfolding take
length-take zero xs h = refl
length-take (suc n) [] h = absurd (omega arith)
length-take (suc n) (x ∷ xs) h = ap suc (length-take n xs (omega arith))

pub length-drop : (n : ℕ) (xs : List ℕ) → n ≤ length xs → length (drop n xs) + n ≡ length xs
unfolding drop
length-drop zero xs h = omega arith
length-drop (suc n) [] h = absurd (omega arith)
length-drop (suc n) (x ∷ xs) h = omega (arith, length-drop n xs (omega arith))

suc_plus : (a b : ℕ) → suc a + b ≡ suc (a + b)
suc_plus a b = omega arith

zero_plus : (k : ℕ) → zero + k ≡ k
zero_plus k = omega arith

take-[] : (n : ℕ) → take n [] ≡ []
unfolding take
take-[] zero = refl
take-[] (suc n) = refl

drop-[] : (n : ℕ) → drop n [] ≡ []
unfolding drop
drop-[] zero = refl
drop-[] (suc n) = refl

-- Taking in two goes.
pub take_add : (m n : ℕ) (xs : List ℕ) → take m xs ++ take n (drop m xs) ≡ take (m + n) xs
unfolding take drop
take_add zero n xs = rw (zero_plus n) refl
take_add (suc m) n [] = rw (take-[] n, take-[] (suc m + n)) refl
take_add (suc m) n (x ∷ xs) = rw (suc_plus m n) (ap (λ ys. x ∷ ys) (take_add m n xs))

pub drop_add : (m n : ℕ) (xs : List ℕ) → drop n (drop m xs) ≡ drop (m + n) xs
unfolding drop
drop_add zero n xs = rw (zero_plus n) refl
drop_add (suc m) n [] = rw (drop-[] n, drop-[] (suc m + n)) refl
drop_add (suc m) n (x ∷ xs) = rw (suc_plus m n) (drop_add m n xs)

-- The first list of two.
pub take-append : (xs ys : List ℕ) → take (length xs) (xs ++ ys) ≡ xs
unfolding take
take-append [] ys = refl
take-append (x ∷ xs) ys = ap (λ zs. x ∷ zs) (take-append xs ys)

pub drop-append : (xs ys : List ℕ) → drop (length xs) (xs ++ ys) ≡ ys
unfolding drop
drop-append [] ys = refl
drop-append (x ∷ xs) ys = drop-append xs ys

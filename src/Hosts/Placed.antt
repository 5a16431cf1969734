-- ===== src/Hosts/Placed.antt =====
-- The table that addrGenerator makes: each line has its place, and no host has two.
use protocol_pfe.Base.{
  ℕ, zero, suc, ◌+◌, ◌≤◌, ◌<◌, ◌≡◌, refl, sym, ap, subst, ◌∙◌, Bool, true, false, not, ◌||◌,
  Bool-cases, inl, inr, Option, none, some, List, [], ◌∷◌, length, ◌==◌, ltb, if◌then◌else◌, All,
  and_then-ok, ==_refl, ==_iff, ok, exited, arith,
}
use protocol_pfe.World.{update}
use protocol_pfe.Hosts.{
  Host, Hosts, Line, ranks, max_len, str_eq, same_host, is_taken, insert_host, add_tokens,
  tokens_of, add_found, add_line, add_lines, actual_ip, name_fails,
}

str_eq_refl : (xs : List ℕ) → str_eq xs xs ≡ true
unfolding str_eq
str_eq_refl [] = refl
str_eq_refl (x ∷ xs) = rw (==_refl x) (str_eq_refl xs)

str_eq_sym : (xs ys : List ℕ) → str_eq xs ys ≡ str_eq ys xs
unfolding str_eq
str_eq_sym [] [] = refl
str_eq_sym [] (y ∷ ys) = refl
str_eq_sym (x ∷ xs) [] = refl
str_eq_sym (x ∷ xs) (y ∷ ys) = ground (arith, str_eq_sym xs ys)

pub same_host_refl : (h : Host) → same_host h h ≡ true
unfolding same_host
same_host_refl h = rw (str_eq_refl h.ip, str_eq_refl h.chan) refl

pub same_host_sym : (h k : Host) → same_host h k ≡ same_host k h
unfolding same_host
same_host_sym h k = rw (str_eq_sym h.ip k.ip, str_eq_sym h.chan k.chan) refl

-- No two places hold the host of a line.
abbrev pub Unique : Hosts → Type 0
Unique t =
    (i j : ℕ)
    → i < ranks
    → j < ranks
    → t.already_exist i ≡ true
    → same_host (t.array i) (t.array j) ≡ true
    → i ≡ j

or_false : (a b : Bool) → (a || b) ≡ false → (a ≡ false) × (b ≡ false)
or_false true b e = absurd (cc e)
or_false false b e = (refl, e)

pub is_taken_lem :
    (n i : ℕ) (h : Host) (array : ℕ → Host)
    → is_taken n i h array ≡ false
    → (j : ℕ) → i ≤ j
    → j < i + n
    → same_host (array j) h ≡ false
unfolding is_taken
is_taken_lem zero i h array e j lo hi = absurd (omega arith)
is_taken_lem (suc n) i h array e j lo hi =
    let (here, later) = or_false (same_host (array i) h) (is_taken n (i + 1) h array) e in
    elim (Bool-cases (i == j)) [
      | inl q ↦ subst (λ x. same_host (array x) h ≡ false) ((==_iff i j).0 q) here
      | inr q ↦ is_taken_lem n (i + 1) h array later j (ground (arith, q)) (omega arith)
    ]

placed-Unique :
    (rank : ℕ) (h : Host) (t : Hosts)
    → Unique t
    → is_taken ranks 0 h t.array ≡ false
    → Unique
        (record { array = update t.array rank h; already_exist = update t.already_exist rank true })
placed-Unique rank h t u free i j lt lt' known same = elim (Bool-cases (i == rank)) [
  | inl p ↦ elim (Bool-cases (j == rank)) [
    | inl q ↦ (==_iff i rank).0 p ∙ sym ((==_iff j rank).0 q)
    | inr q ↦
        let met : same_host h (t.array j) ≡ true = rw (p, q) at same in
        let off = is_taken_lem ranks 0 h t.array free j (omega arith) (omega arith) in
        absurd (cc (met, off, same_host_sym h (t.array j)))
  ]
  | inr p ↦ elim (Bool-cases (j == rank)) [
    | inl q ↦
        let met : same_host (t.array i) h ≡ true = rw (p, q) at same in
        let off = is_taken_lem ranks 0 h t.array free i (omega arith) (omega arith) in
        absurd (cc (met, off))
    | inr q ↦
        let met : same_host (t.array i) (t.array j) ≡ true = rw (p, q) at same in
        let seen : t.already_exist i ≡ true = rw p at known in u i j lt lt' seen met
  ]
]

pub insert_host_lem :
    (rank : ℕ) (h : Host) (t t' : Hosts)
    → insert_host rank h t ≡ ok t'
    → (is_taken ranks 0 h t.array ≡ false)
      × (record { array = update t.array rank h; already_exist = update t.already_exist rank true }
          ≡ t')
unfolding insert_host
insert_host_lem rank h t t' e = elim (Bool-cases (is_taken ranks 0 h t.array)) [
  | inl p ↦ let e' : exited ≡ ok t' = rw p at e in absurd (cc e')
  | inr p ↦
      let e' : ok (record {
        array = update t.array rank h;
        already_exist = update t.already_exist rank true;
      })
          ≡ ok t' =
        rw p at e in
      (p, cc e')
]

-- The places that are taken stay as they are.
abbrev pub Keeps : Hosts → Hosts → Type 0
Keeps t t' =
    (i : ℕ) → t.already_exist i ≡ true → (t'.already_exist i ≡ true) × (t'.array i ≡ t.array i)

-- The host of the line stands at its rank.
abbrev pub Placed : List ℕ → Hosts → Line → Type 0
Placed hostname t l =
    (r : ℕ) × (ip : List ℕ) × (chan : List ℕ) × (tokens_of l ≡ some (r, ip, chan))
    × (r < ranks)
    × (t.already_exist r ≡ true)
    × (t.array r ≡ record { ip = actual_ip hostname ip; chan = chan })

pub add_tokens_lem :
    (hostname : List ℕ) (rank : ℕ) (ip chan : List ℕ) (t t' : Hosts)
    → add_tokens hostname rank ip chan t ≡ ok t'
    → (rank < ranks)
      × (t.already_exist rank ≡ false)
      × (insert_host rank (record { ip = actual_ip hostname ip; chan = chan }) t ≡ ok t')
unfolding add_tokens
add_tokens_lem hostname rank ip chan t t' e =
    elim (Bool-cases (
      not (ltb rank ranks)
      || (not (ltb (length ip) max_len)
          || (not (ltb (length chan) max_len)
              || (t.already_exist rank || name_fails hostname ip))))) [
                | inl p ↦ let e' : exited ≡ ok t' = rw p at e in absurd (cc e')
                | inr p ↦
                    let (small, rest) =
                      or_false (not (ltb rank ranks))
                        (not (ltb (length ip) max_len)
                          || (not (ltb (length chan) max_len)
                              || (t.already_exist rank || name_fails hostname ip)))
                        p in
                    let (ip_fits, rest') =
                      or_false (not (ltb (length ip) max_len))
                        (not (ltb (length chan) max_len)
                          || (t.already_exist rank || name_fails hostname ip))
                        rest in
                    let (chan_fits, new_and) =
                      or_false (not (ltb (length chan) max_len))
                        (t.already_exist rank || name_fails hostname ip) rest' in
                    let (new, named) =
                      or_false (t.already_exist rank) (name_fails hostname ip) new_and in
                    (ground (arith, small), new, rw p at e)
              ]

placed-Keeps :
    (rank : ℕ) (h : Host) (t : Hosts)
    → t.already_exist rank ≡ false
    → Keeps t
        (record { array = update t.array rank h; already_exist = update t.already_exist rank true })
placed-Keeps rank h t new i known = elim (Bool-cases (i == rank)) [
  | inl p ↦ absurd (cc (ap t.already_exist ((==_iff i rank).0 p), known, new))
  | inr p ↦ (rw p known, rw p refl)
]

tokens_lem :
    (hostname : List ℕ) (rank : ℕ) (ip chan : List ℕ) (t t' : Hosts)
    → Unique t
    → add_tokens hostname rank ip chan t ≡ ok t'
    → Unique t'
      × Keeps t t'
      × (rank < ranks)
      × (t'.already_exist rank ≡ true)
      × (t'.array rank ≡ record { ip = actual_ip hostname ip; chan = chan })
tokens_lem hostname rank ip chan t t' u e =
    let (small, new, put) = add_tokens_lem hostname rank ip chan t t' e in
    let h : Host = record { ip = actual_ip hostname ip; chan = chan } in
    let (free, same) = insert_host_lem rank h t t' put in
    (
      subst Unique same (placed-Unique rank h t u free),
      subst (Keeps t) same (placed-Keeps rank h t new),
      small,
      sym (ap (λ (s : Hosts). s.already_exist rank) same) ∙ rw (==_refl rank) refl,
      sym (ap (λ (s : Hosts). s.array rank) same) ∙ rw (==_refl rank) refl,
    )

pub with_tokens :
    (hostname : List ℕ) (c : Bool) (o : Option (ℕ × List ℕ × List ℕ)) (t t' : Hosts)
    → (if c then exited else add_found hostname t o) ≡ ok t'
    → (r : ℕ) × (ip : List ℕ) × (chan : List ℕ) × (o ≡ some (r, ip, chan))
      × (add_tokens hostname r ip chan t ≡ ok t')
unfolding add_found
with_tokens hostname true o t t' e = absurd (cc e)
with_tokens hostname false none t t' e = absurd (cc e)
with_tokens hostname false (some (r, ip, chan)) t t' e = (r, ip, chan, refl, e)

pub add_line_lem :
    (hostname : List ℕ) (l : Line) (t t' : Hosts)
    → Unique t
    → add_line hostname l t ≡ ok t'
    → Unique t' × Keeps t t' × Placed hostname t' l
unfolding add_line
add_line_lem hostname l t t' u e =
    let (rank, ip, chan, known, e') = with_tokens hostname l.too_long (tokens_of l) t t' e in
    let (u', keeps, small, there, host) = tokens_lem hostname rank ip chan t t' u e' in
    (u', keeps, (rank, ip, chan, known, small, there, host))

pub Placed-Keeps :
    (hostname : List ℕ) (l : Line) (t t' : Hosts)
    → Keeps t t'
    → Placed hostname t l
    → Placed hostname t' l
Placed-Keeps hostname l t t' k (rank, ip, chan, known, small, there, host) =
    let (there', same) = k rank there in (rank, ip, chan, known, small, there', same ∙ host)

pub add_lines_lem :
    (hostname : List ℕ) (ls : List Line) (t t' : Hosts)
    → Unique t
    → add_lines hostname ls t ≡ ok t'
    → Unique t' × Keeps t t' × All (Placed hostname t') ls
unfolding add_lines
add_lines_lem hostname [] t t' u e =
    let same : t ≡ t' = cc e in
    (subst Unique same u, subst (Keeps t) same (λ i known. (known, refl)), tt)
add_lines_lem hostname (l ∷ ls) t t' u e =
    let (t1, first, later) = and_then-ok (add_line hostname l t) (add_lines hostname ls) t' e in
    let (u1, k1, placed) = add_line_lem hostname l t t1 u first in
    let (u2, k2, others) = add_lines_lem hostname ls t1 t' u1 later in
    (
      u2,
      (λ i known. let (a, b) = k1 i known in let (c, d) = k2 i a in (c, d ∙ b)),
      (Placed-Keeps hostname l t1 t' k2 placed, others),
    )

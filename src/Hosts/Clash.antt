-- ===== src/Hosts/Clash.antt =====
-- Lines that clash.
use protocol_pfe.Base.{
  ℕ, ◌<◌, ◌≡◌, ◌⊎◌, refl, sym, ap, ap₂, subst, ◌∙◌, Bool, true, false, not, ◌||◌, inl, inr, Option,
  none, some, List, [], ◌∷◌, ◌++◌, length, ltb, if◌then◌else◌, and_then-ok, Outcome, ok, exited,
  and_then, arith,
}
use protocol_pfe.Hosts.{
  Host, Hosts, Line, ranks, max_len, same_host, init_addr_list, is_taken, insert_host, add_tokens,
  tokens_of, add_found, add_line, add_lines, addr_generator, actual_ip, name_fails,
}
use protocol_pfe.Hosts.Placed.{
  same_host_refl, is_taken_lem, insert_host_lem, add_tokens_lem, with_tokens, add_line_lem,
  Placed-Keeps, add_lines_lem,
}

-- A call returns a table, or the process ends.
abbrev Settled : Outcome Hosts → Type 0
Settled r = (r ≡ exited) ⊎ ((t : Hosts) × (r ≡ ok t))

if-Settled : (c : Bool) (r : Outcome Hosts) → Settled r → Settled (if c then exited else r)
if-Settled true r s = inl refl
if-Settled false r s = s

add_found-Settled :
    (hostname : List ℕ) (t : Hosts) (o : Option (ℕ × List ℕ × List ℕ))
    → Settled (add_found hostname t o)
unfolding add_found add_tokens insert_host
add_found-Settled hostname t none = inl refl
add_found-Settled hostname t (some (rank, ip, chan)) =
    if-Settled
      (not (ltb rank ranks)
        || (not (ltb (length ip) max_len)
            || (not (ltb (length chan) max_len)
                || (t.already_exist rank || name_fails hostname ip))))
      _
      (if-Settled (is_taken ranks 0 (record { ip = actual_ip hostname ip; chan = chan }) t.array) _
        (inr (_, refl)))

add_lines-Settled :
    (hostname : List ℕ) (ls : List Line) (t : Hosts) → Settled (add_lines hostname ls t)
unfolding add_lines add_line
add_lines-Settled hostname [] t = inr (t, refl)
add_lines-Settled hostname (l ∷ ls) t =
    elim (if-Settled l.too_long _ (add_found-Settled hostname t (tokens_of l))) [
      | inl e ↦ inl (ap (λ r. and_then r (add_lines hostname ls)) e)
      | inr (t1, e) ↦
          subst Settled (sym (ap (λ r. and_then r (add_lines hostname ls)) e))
            (add_lines-Settled hostname ls t1)
    ]

add_lines-append :
    (hostname : List ℕ) (xs ys : List Line) (t t' : Hosts)
    → add_lines hostname (xs ++ ys) t ≡ ok t'
    → (t1 : Hosts) × (add_lines hostname xs t ≡ ok t1) × (add_lines hostname ys t1 ≡ ok t')
unfolding add_lines
add_lines-append hostname [] ys t t' e = (t, refl, e)
add_lines-append hostname (x ∷ xs) ys t t' e =
    let (t0, first, later) =
      and_then-ok (add_line hostname x t) (add_lines hostname (xs ++ ys)) t' e in
    let (t1, run, rest) = add_lines-append hostname xs ys t0 t' later in
    (t1, ap (λ r. and_then r (add_lines hostname xs)) first ∙ run, rest)

-- A rank or a host that stands in the table is not taken again.
refused :
    (hostname : List ℕ) (t t' : Hosts) (l : Line) (r : ℕ) (ip chan : List ℕ)
    → r < ranks
    → t.already_exist r ≡ true
    → tokens_of l ≡ some (r, ip, chan)
    → add_line hostname l t ≡ ok t'
    → ⊥
unfolding add_line
refused hostname t t' l r ip chan small there known e =
    let (r', ip', chan', known', run) = with_tokens hostname l.too_long (tokens_of l) t t' e in
    let (small', new, put) = add_tokens_lem hostname r' ip' chan' t t' run in
    let same : r' ≡ r = cc (known, known') in cc (ap t.already_exist same, there, new)

refused_host :
    (hostname : List ℕ) (t t' : Hosts) (l : Line) (r : ℕ) (ip chan : List ℕ) (r0 : ℕ)
    → r0 < ranks
    → t.array r0 ≡ record { ip = actual_ip hostname ip; chan = chan }
    → tokens_of l ≡ some (r, ip, chan)
    → add_line hostname l t ≡ ok t'
    → ⊥
unfolding add_line
refused_host hostname t t' l r ip chan r0 small there known e =
    let (r', ip', chan', known', run) = with_tokens hostname l.too_long (tokens_of l) t t' e in
    let (small', new, put) = add_tokens_lem hostname r' ip' chan' t t' run in
    let h' : Host = record { ip = actual_ip hostname ip'; chan = chan' } in
    let (free, same) = insert_host_lem r' h' t t' put in
    let one : ip ≡ ip' = cc (known, known') in
    let two : chan ≡ chan' = cc (known, known') in
    let host : t.array r0 ≡ h' =
      there ∙ ap₂ (λ a b. record { ip = actual_ip hostname a; chan = b }) one two in
    let off = is_taken_lem ranks 0 h' t.array free r0 (omega arith) (omega (arith, small)) in
    cc (ap (λ k. same_host k h') host, same_host_refl h', off)

-- The hosts of two lines clash.
abbrev pub Clash : List ℕ → ℕ × List ℕ × List ℕ → ℕ × List ℕ × List ℕ → Type 0
Clash hostname a b = (a.0 ≡ b.0) ⊎ ((actual_ip hostname a.1 ≡ actual_ip hostname b.1) × (a.2 ≡ b.2))

-- Where two lines of a file of addresses, wherever they stand, have the same rank, or the same
-- host and port once localhost is replaced by the name of this host, addrGenerator ends the
-- process.
pub addr_generator-Clash :
    (hostname : List ℕ) (xs ys zs : List Line) (l l' : Line) (a b : ℕ × List ℕ × List ℕ)
    → tokens_of l ≡ some a
    → tokens_of l' ≡ some b
    → Clash hostname a b
    → addr_generator hostname (xs ++ (l ∷ (ys ++ (l' ∷ zs)))) ≡ exited
unfolding addr_generator init_addr_list add_lines
addr_generator-Clash hostname xs ys zs l l' (r, ip, chan) (r', ip', chan') p q clash =
    elim (add_lines-Settled hostname (xs ++ (l ∷ (ys ++ (l' ∷ zs)))) init_addr_list) [
      | inl e ↦ e
      | inr (t, e) ↦
          let (t0, run0, e0) =
            add_lines-append hostname xs (l ∷ (ys ++ (l' ∷ zs))) init_addr_list t e in
          let (t1, run1, e1) =
            and_then-ok (add_line hostname l t0) (add_lines hostname (ys ++ l' ∷ zs)) t e0 in
          let (t2, run2, e2) = add_lines-append hostname ys (l' ∷ zs) t1 t e1 in
          let (t3, run3, e3) = and_then-ok (add_line hostname l' t2) (add_lines hostname zs) t e2 in
          let (u0, k0, placed0) =
            add_lines_lem hostname xs init_addr_list t0 (λ i j lt lt' known met. absurd (cc known))
              run0 in
          let (u1, k1, placed1) = add_line_lem hostname l t0 t1 u0 run1 in
          let (u2, k2, placed2) = add_lines_lem hostname ys t1 t2 u1 run2 in
          let (s, jp, jc, known, small, there, host) = Placed-Keeps hostname l t1 t2 k2 placed1 in
          absurd (elim clash [
            | inl same ↦
                let rank : s ≡ r' = cc (known, p, same) in
                refused hostname t2 t3 l' r' ip' chan' (subst (λ x. x < ranks) rank small)
                  (subst (λ x. t2.already_exist x ≡ true) rank there) q run3
            | inr (same, same') ↦
                let one : jp ≡ ip = cc (known, p) in
                let two : jc ≡ chan' = cc (known, p, same') in
                refused_host hostname t2 t3 l' r' ip' chan' s small
                  (host
                    ∙ ap₂ (λ x y. record { ip = x; chan = y }) (ap (actual_ip hostname) one ∙ same)
                        two)
                  q run3
          ])
    ]

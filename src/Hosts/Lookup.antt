-- ===== src/Hosts/Lookup.antt =====
-- What addrID finds in the table.
use protocol_pfe.Base.{
  ℕ, zero, suc, ◌+◌, ◌≤◌, ◌<◌, ◌≡◌, ◌≢◌, sym, ap, ◌∙◌, true, Bool-cases, inl, inr, some, List, [],
  ◌∷◌, All, ok, arith,
}
use protocol_pfe.Hosts.{
  Host, Hosts, Line, ranks, same_host, init_addr_list, tokens_of, addr_generator, actual_ip,
  id_loop, addr_id,
}
use protocol_pfe.Hosts.Placed.{Unique, Placed, same_host_refl, same_host_sym, add_lines_lem}

-- The first place with the host is its only one.
id_loop_lem :
    (n i : ℕ) (h : Host) (array : ℕ → Host) (r : ℕ)
    → i ≤ r
    → r < i + n
    → same_host (array r) h ≡ true
    → ((j : ℕ) → i ≤ j → j < i + n → same_host (array j) h ≡ true → j ≡ r)
    → id_loop n i h array ≡ some r
unfolding id_loop
id_loop_lem zero i h array r lo hi e only = absurd (omega arith)
id_loop_lem (suc n) i h array r lo hi e only = elim (Bool-cases (same_host (array i) h)) [
  | inl p ↦ rw p (ap some (only i (omega arith) (omega arith) p))
  | inr p ↦
      let apart : i ≢ r = λ q. cc (ap (λ x. same_host (array x) h) q, e, p) in
      rw p (
        id_loop_lem n (i + 1) h array r (omega (arith, apart)) (omega arith) e
          (λ j lo' hi' met. only j (omega arith) (omega arith) met))
]

-- addrID finds the host of the line at its rank.
abbrev pub Found : List ℕ → Hosts → Line → Type 0
Found hostname t l =
    (r : ℕ) × (ip : List ℕ) × (chan : List ℕ) × (tokens_of l ≡ some (r, ip, chan))
    × (addr_id (actual_ip hostname ip) chan t.array ≡ some r)

Placed-Found :
    (hostname : List ℕ) (t : Hosts) (l : Line) → Unique t → Placed hostname t l → Found hostname t l
unfolding addr_id
Placed-Found hostname t l u (r, ip, chan, known, small, there, host) =
    let h : Host = record { ip = actual_ip hostname ip; chan = chan } in
    let here : same_host (t.array r) h ≡ true = ap (λ k. same_host k h) host ∙ same_host_refl h in
    (
      r,
      ip,
      chan,
      known,
      id_loop_lem ranks 0 h t.array r (omega arith) (omega (arith, small)) here (λ j lo hi met.
          let met' : same_host (t.array r) (t.array j) ≡ true =
            same_host_sym (t.array r) (t.array j) ∙ ap (same_host (t.array j)) host ∙ met in
          sym (u r j small (omega (arith, hi)) there met')),
    )

All-Found :
    (hostname : List ℕ) (t : Hosts) (ls : List Line)
    → Unique t
    → All (Placed hostname t) ls
    → All (Found hostname t) ls
All-Found hostname t [] u h = tt
All-Found hostname t (l ∷ ls) u h = (Placed-Found hostname t l u h.0, All-Found hostname t ls u h.1)

-- For every file of addresses that addrGenerator takes, addrID with the host and the port of any
-- of its lines, localhost replaced by the name of this host, gives back the rank of that line.
pub addr_id-addr_generator :
    (hostname : List ℕ) (ls : List Line) (t : Hosts)
    → addr_generator hostname ls ≡ ok t
    → All (Found hostname t) ls
unfolding addr_generator init_addr_list
addr_id-addr_generator hostname ls t e =
    let (u, keeps, placed) =
      add_lines_lem hostname ls init_addr_list t (λ i j lt lt' known met. absurd (cc known)) e in
    All-Found hostname t ls u placed

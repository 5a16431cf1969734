-- ===== src/Automaton/Search.antt =====
-- The search for a predecessor ends.
use protocol_pfe.Base.{
  ℕ, zero, suc, ◌+◌, ◌-◌, ◌≤◌, ◌<◌, ◌≡◌, refl, ap, ◌∙◌, Bool, true, false, ok, arith, ==_refl,
}
use native.Mathlib.Decide.{dec_lt}
use protocol_pfe.Address.{np, rank_to_addr, addr_is_member, addr_is_equal, addr_append_gone}
use protocol_pfe.Address.Prec.{back, IsNearest, addr_prec_lem}
use protocol_pfe.World.{World, Env}
use protocol_pfe.World.Run.{◌>>=◌, get, modify, lift, pure}
use protocol_pfe.World.Ends.{Kept, kept}
use protocol_pfe.World.Halts.{Halts, returns, Halts-bind, Halts-when}
use protocol_pfe.Connect.Opens.{open_connection-Halts}
use protocol_pfe.Automaton.Several.{lose_prec, prec_search}

-- The process of rank m is in the circuit of the last train, n places before prec.
pub record Ring (w : World) (i m n : ℕ) : Type 0 where
  pub prec : w.prec ≡ rank_to_addr i
  pub mine : w.my_address ≡ rank_to_addr m
  pub prec_rank : i < 16
  pub my_rank : m < 16
  pub member : addr_is_member (rank_to_addr m) (w.lts w.lis).circuit ≡ true
  pub places : back i n ≡ m
  pub near : n < 16

abbrev next : World → ℕ → World
next w j = record w {
  came_proc = (addr_append_gone w.came_proc w.gone_proc w.prec).0;
  gone_proc = (addr_append_gone w.came_proc w.gone_proc w.prec).1;
  prec = rank_to_addr j;
}

same_Ring : (w v : World) (i m n : ℕ) → kept v ≡ kept w → Ring w i m n → Ring v i m n
same_Ring w v i m n e r = record {
  prec = ap (λ (k : Kept). k.prec) e ∙ r.prec;
  mine = ap (λ (k : Kept). k.my_address) e ∙ r.mine;
  prec_rank = r.prec_rank;
  my_rank = r.my_rank;
  member = ap (λ (k : Kept). addr_is_member (rank_to_addr m) (k.lts k.lis).circuit) e ∙ r.member;
  places = r.places;
  near = r.near;
}

-- The nearest member before prec is not beyond this process.
not_beyond :
    (w : World) (i m n k : ℕ) → Ring w i m n → 0 < n → IsNearest (w.lts w.lis).circuit i k → k ≤ n
not_beyond w i m n k r pos near = elim (dec_lt n k) [
  | yes h ↦ absurd (ground (arith, near.nearest n pos h, r.places, r.member))
  | no h ↦ omega arith
]

lose_prec_lem :
    (w : World) (i m n : ℕ)
    → Ring w i m n
    → 0 < n
    → (j n' : ℕ) × (lose_prec w ≡ ok (tt, next w j)) × (n' < n) × Ring (next w j) j m n'
unfolding lose_prec ◌>>=◌ get modify lift
lose_prec_lem w i m n r pos =
    let (k, some_places, most, near, found) =
      addr_prec_lem i m (w.lts w.lis).circuit r.prec_rank r.my_rank r.member in
    let below = not_beyond w i m n k r pos near in
    (
      back i k,
      n - k,
      rw (r.prec, found) refl,
      omega arith,
      record {
        prec = refl;
        mine = r.mine;
        prec_rank = omega arith;
        my_rank = r.my_rank;
        member = r.member;
        places = omega (arith, r.places, r.prec_rank, r.near);
        near = omega (arith, r.near);
      },
    )

-- What the search leaves: where it found no one, this process is its own predecessor.
abbrev pub Left : Bool → World → Type 0
Left found v = found ≡ false → addr_is_equal v.prec v.my_address ≡ true

apart : (w : World) (i m n : ℕ) → Ring w i m n → addr_is_equal w.prec w.my_address ≡ false → 0 < n
apart w i m zero r e =
    let same : i ≡ m = omega (arith, r.places, r.prec_rank) in
    absurd (ground (arith, ==_refl (rank_to_addr m), rw (r.prec, r.mine, same) at e))
apart w i m (suc n) r e = omega arith

search_lem :
    (fuel : ℕ) (env : Env) (w : World) (i m n : ℕ)
    → Ring w i m n
    → n < fuel
    → Halts Left (prec_search fuel env w)
unfolding prec_search ◌>>=◌ get pure
search_lem zero env w i m n r f = absurd (omega arith)
search_lem (suc fuel) env w i m n r f =
    Halts-when _ _ _ w (λ e. returns (λ _. e))
      (λ e. Halts-bind (open_connection-Halts env w.prec true w) (λ got v same.
        Halts-when _ _ _ v (λ _. returns (λ h. absurd (ground arith)))
          (λ _.
            let (j, n', ran, less, ring) =
              lose_prec_lem v i m n (same_Ring w v i m n same r) (apart w i m n r e) in
            rw ran (search_lem fuel env (next v j) j m n' ring (omega arith)))))

-- In state SEVERAL on the loss of the predecessor, where prec and myAddress are the addresses of
-- ranks below 16 and this process is in the circuit of the last train, the search for a new
-- predecessor ends within NP + 1 rounds whatever connections can be opened (with a result, the
-- end of the process or a fault, and never without fuel); where it has found no one, prec is this
-- process.
pub prec_search_lem :
    (env : Env) (w : World) (i m : ℕ)
    → i < 16
    → m < 16
    → w.prec ≡ rank_to_addr i
    → w.my_address ≡ rank_to_addr m
    → addr_is_member w.my_address (w.lts w.lis).circuit ≡ true
    → Halts Left (prec_search (np + 1) env w)
prec_search_lem env w i m hi hm prec mine member =
    search_lem (np + 1) env w i m (back i m)
      (record {
        prec = prec;
        mine = mine;
        prec_rank = hi;
        my_rank = hm;
        member = rw (← mine) member;
        places = omega arith;
        near = omega arith;
      })
      (omega arith)

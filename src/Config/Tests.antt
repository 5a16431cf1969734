-- ===== src/Config/Tests.antt =====
-- A file of one process behind a comment.
use protocol_pfe.Base.{ℕ, ◌≡◌, refl, some, List, [], ◌∷◌, get_elem?, ok, arith}
use protocol_pfe.Config.{
  NodeInfo, number_sign, get_substr, substr_loop, char_at, get_ip_port, atoi, atoi_from, is_digit,
}
use protocol_pfe.Config.Printed.{Member, Parsed, comment, entry, nothing, line_of, get_ip_port_lem}

-- "1.7", of process 0 with the port 80
abbrev member : Member
member = record { id = 0; ip = 49 ∷ 46 ∷ 55 ∷ []; port = 80 }

abbrev no_nodes : ℕ → NodeInfo
no_nodes k = record { self_id = 0; ip = λ q. 0; port = 0 }

abbrev file : List (List ℕ)
file = (number_sign ∷ 97 ∷ 10 ∷ []) ∷ line_of member ∷ []

get_ip_port_example :
    (nodes' : ℕ → NodeInfo) × (get_ip_port file no_nodes ≡ ok nodes')
    × ((k : ℕ) (n : Member) → get_elem? k (member ∷ []) ≡ some n → Parsed n (nodes' k))
get_ip_port_example =
    get_ip_port_lem file (member ∷ []) no_nodes
      (comment (
        entry
          (record {
            id = omega arith;
            port = omega arith;
            whole = (refl, (refl, (refl, tt)));
            short = omega arith;
          })
          nothing))
      (omega arith) (λ j q. refl)

-- Without a new line at its end, the last character of the port is lost: 8 instead of 80.
abbrev cut_line : List ℕ
cut_line = 48 ∷ 32 ∷ 49 ∷ 32 ∷ 56 ∷ 48 ∷ []

digit_lost : atoi (get_substr 4 5 cut_line).0 ≡ ok 8
unfolding get_substr substr_loop char_at atoi atoi_from is_digit
digit_lost = refl

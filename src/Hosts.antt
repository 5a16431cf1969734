-- ===== src/Hosts.antt =====
-- The file of addresses and its table: the checks and the insertion of addrGenerator, and addrID, of
-- src/management_addr.c. A string is the list of its characters. A line is taken as its tokens.
pub mod Placed
pub mod Lookup
pub mod Clash
pub mod Tests
use protocol_pfe.Base.{
  ℕ, zero, suc, ◌+◌, Bool, true, false, not, ◌&&◌, ◌||◌, Option, none, some, List, [], ◌∷◌, length,
  ◌==◌, ltb, if◌then◌else◌, Outcome, ok, exited, and_then,
}
use protocol_pfe.World.{update}

-- `ip` and `chan` of ADDR.
pub record Host : Type 0 where
  pub ip : List ℕ
  pub chan : List ℕ

-- The tokens of a line that is no comment and not empty: a negative rank is `none`, and so are
-- tokens that are not there. `too_long`: fgets has not come to its end.
pub record Line : Type 0 where
  pub rank : Option ℕ
  pub ip_only : Option (List ℕ)
  pub addr_full : Option (List ℕ)
  pub too_long : Bool

-- `array` and `alreadyExist`.
pub record Hosts : Type 0 where
  pub array : ℕ → Host
  pub already_exist : ℕ → Bool

-- MAX_LEN_IP and MAX_LEN_CHAN
abbrev pub max_len : ℕ
max_len = 64

-- NP
abbrev pub ranks : ℕ
ranks = 16

-- strcmp(a, b) == 0
unfoldable pub str_eq : List ℕ → List ℕ → Bool
str_eq [] [] = true
str_eq [] (y ∷ ys) = false
str_eq (x ∷ xs) [] = false
str_eq (x ∷ xs) (y ∷ ys) = (x == y) && str_eq xs ys

unfoldable pub same_host : Host → Host → Bool
same_host h k = str_eq h.ip k.ip && str_eq h.chan k.chan

-- initAddrList, which fills the table with zeros.
unfoldable pub init_addr_list : Hosts
init_addr_list = record { array = λ i. record { ip = []; chan = [] }; already_exist = λ i. false }

-- "localhost"
abbrev pub localhost : List ℕ
localhost = 108 ∷ 111 ∷ 99 ∷ 97 ∷ 108 ∷ 104 ∷ 111 ∷ 115 ∷ 116 ∷ []

-- gethostname into an array of 64 characters fails where the name of this host, with its end, does
-- not fit.
unfoldable pub name_fails : List ℕ → List ℕ → Bool
name_fails hostname ip = str_eq ip localhost && not (ltb (length hostname) 64)

-- The name of this host stands for localhost. Its array is read after its block has ended, where the
-- language leaves open what is read; `hostname` stands for the name that is still there.
unfoldable pub actual_ip : List ℕ → List ℕ → List ℕ
actual_ip hostname ip = if str_eq ip localhost then hostname else ip

-- The `for` over the array from `i` on, with `n` elements to go.
unfoldable pub is_taken : ℕ → ℕ → Host → (ℕ → Host) → Bool
is_taken zero i h array = false
is_taken (suc n) i h array = same_host (array i) h || is_taken n (i + 1) h array

unfoldable pub insert_host : ℕ → Host → Hosts → Outcome Hosts
insert_host rank h t =
    if is_taken ranks 0 h t.array
    then exited
    else ok
        (record { array = update t.array rank h; already_exist = update t.already_exist rank true })

-- A line with its tokens: the checks on them, and on the result of gethostname.
unfoldable pub add_tokens : List ℕ → ℕ → List ℕ → List ℕ → Hosts → Outcome Hosts
add_tokens hostname rank ip chan t =
    if not (ltb rank ranks)
      || (not (ltb (length ip) max_len)
          || (not (ltb (length chan) max_len) || (t.already_exist rank || name_fails hostname ip)))
    then exited
    else insert_host rank (record { ip = actual_ip hostname ip; chan = chan }) t

unfoldable pub tokens_of : Line → Option (ℕ × List ℕ × List ℕ)
tokens_of l = elim l.rank [
  | none ↦ none
  | some r ↦ elim l.ip_only [
    | none ↦ none
    | some ip ↦ elim l.addr_full [ none ↦ none | some chan ↦ some (r, ip, chan) ]
  ]
]

unfoldable pub add_found : List ℕ → Hosts → Option (ℕ × List ℕ × List ℕ) → Outcome Hosts
add_found hostname t none = exited
add_found hostname t (some (rank, ip, chan)) = add_tokens hostname rank ip chan t

unfoldable pub add_line : List ℕ → Line → Hosts → Outcome Hosts
add_line hostname l t = if l.too_long then exited else add_found hostname t (tokens_of l)

-- The loop over the lines. The loop at the end empties the places without a line, which are empty.
unfoldable pub add_lines : List ℕ → List Line → Hosts → Outcome Hosts
add_lines hostname [] t = ok t
add_lines hostname (l ∷ ls) t = and_then (add_line hostname l t) (add_lines hostname ls)

unfoldable pub addr_generator : List ℕ → List Line → Outcome Hosts
addr_generator hostname ls = add_lines hostname ls init_addr_list

-- The `while` of addrID from rank `i` on, with `n` ranks to go; `none` for -1.
unfoldable pub id_loop : ℕ → ℕ → Host → (ℕ → Host) → Option ℕ
id_loop zero i h array = none
id_loop (suc n) i h array =
    let rest = id_loop n (i + 1) h array in if same_host (array i) h then some i else rest

unfoldable pub addr_id : List ℕ → List ℕ → (ℕ → Host) → Option ℕ
addr_id ip chan array = id_loop ranks 0 (record { ip = ip; chan = chan }) array

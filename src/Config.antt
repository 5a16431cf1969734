-- ===== src/Config.antt =====
-- get_ip_port and get_substr of protocol_tcp/main.c: the file with the processes of the ring. A
-- string is the list of its characters, and the file the list of the lines that fgets returns.
pub mod Numbers
pub mod Words
pub mod Printed
pub mod Tests
use protocol_pfe.Base.{
  ℕ, zero, suc, ◌+◌, ◌-◌, ◌*◌, ◌%◌, ◌^◌, Bool, true, false, ◌&&◌, Option, none, some, List, [], ◌∷◌,
  length, ltb, leb, ◌==◌, if◌then◌else◌, get_elem?, Outcome, ok, fault, and_then,
}
use protocol_pfe.World.{update}

-- DELIMITER, which is a space, and the number sign.
abbrev pub delimiter : ℕ
delimiter = 32

abbrev pub number_sign : ℕ
number_sign = 35

-- node_info. IP is an array of 16 characters, whose bytes are given by their places. self_id is a
-- typId, a `signed short`, kept as its bit pattern: from 2^15 on it is negative.
pub record NodeInfo : Type 0 where
  pub self_id : ℕ
  pub ip : ℕ → ℕ
  pub port : ℕ

-- The number at the start of a word without a blank or a sign in front of it.
unfoldable pub is_digit : ℕ → Bool
is_digit c = leb 48 c && leb c 57

unfoldable pub atoi_from : ℕ → List ℕ → ℕ
atoi_from n [] = n
atoi_from n (c ∷ cs) = let rest = atoi_from (n * 10 + (c - 48)) cs in if is_digit c then rest else n

-- What `atoi` makes of it: a number that is no `int` is undefined behaviour, a fault.
unfoldable pub atoi : List ℕ → Outcome ℕ
atoi cs = let n = atoi_from 0 cs in if ltb n (2 ^ 31) then ok n else fault

-- source[i], with the null character behind the last one.
abbrev pub or_end : Option ℕ → ℕ
or_end none = 0
or_end (some c) = c

unfoldable pub char_at : List ℕ → ℕ → ℕ
char_at source i = or_end (get_elem? i source)

-- The `for` of get_substr with `n` characters to go: the word, and the place of the delimiter.
unfoldable pub substr_loop : ℕ → ℕ → List ℕ → List ℕ × ℕ
substr_loop zero i source = ([], i)
substr_loop (suc n) i source =
    let rest = substr_loop n (i + 1) source in
    if char_at source i == delimiter then ([], i) else (char_at source i ∷ rest.0, rest.1)

unfoldable pub get_substr : ℕ → ℕ → List ℕ → List ℕ × ℕ
get_substr start_index end_index source = substr_loop (end_index - start_index) start_index source

-- memcpy of a word into an array, without its end.
unfoldable pub copied : List ℕ → ℕ → (ℕ → ℕ) → ℕ → ℕ
copied [] o ip = ip
copied (c ∷ cs) o ip = copied cs (o + 1) (update ip o c)

-- A line with its three words. Past MAX_NODES, or with an IP of more than 16 characters, memory
-- outside the array is written.
unfoldable pub add_node : List ℕ → ℕ → (ℕ → NodeInfo) → Outcome (ℕ → NodeInfo)
add_node line counter nodes =
    let end_index = length line - 1 in
    let id = get_substr 0 end_index line in
    let ip = get_substr (id.1 + 1) end_index line in
    let port = get_substr (ip.1 + 1) end_index line in
    if ltb counter 5 && leb (length ip.0) 16
    then and_then (atoi id.0) (λ number. and_then (atoi port.0) (λ port_number. ok (
        update nodes counter (record {
          self_id = number % 2 ^ 16;
          ip = copied ip.0 0 (nodes counter).ip;
          port = port_number;
        }))))
    else fault

-- The loop over the lines, from node_counter on. A line that starts with a number sign is a comment.
unfoldable pub add_nodes : List (List ℕ) → ℕ → (ℕ → NodeInfo) → Outcome (ℕ → NodeInfo)
add_nodes [] counter nodes = ok nodes
add_nodes (line ∷ lines) counter nodes =
    let rest = and_then (add_node line counter nodes) (add_nodes lines (counter + 1)) in
    let next = add_nodes lines counter nodes in if char_at line 0 == number_sign then next else rest

unfoldable pub get_ip_port : List (List ℕ) → (ℕ → NodeInfo) → Outcome (ℕ → NodeInfo)
get_ip_port lines nodes = add_nodes lines 0 nodes

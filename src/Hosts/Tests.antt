-- ===== src/Hosts/Tests.antt =====
-- Two lines, the second of which names this host.
use protocol_pfe.Base.{ℕ, true, false, some, List, [], ◌∷◌, All, ◌≡◌, refl, ok, exited, inl}
use protocol_pfe.World.{update}
use protocol_pfe.Hosts.{
  Hosts, Line, str_eq, same_host, init_addr_list, is_taken, insert_host, add_tokens, tokens_of,
  add_found, add_line, add_lines, addr_generator, actual_ip, name_fails, localhost,
}
use protocol_pfe.Hosts.Clash.{addr_generator-Clash}
use protocol_pfe.Hosts.Lookup.{Found, addr_id-addr_generator}

abbrev pub this_host : List ℕ
this_host = 97 ∷ 98 ∷ []

abbrev pub lines : List Line
lines =
    record {
      rank = some 3;
      ip_only = some (99 ∷ []);
      addr_full = some (56 ∷ 48 ∷ []);
      too_long = false;
    }
    ∷ record {
      rank = some 0;
      ip_only = some localhost;
      addr_full = some (56 ∷ 48 ∷ []);
      too_long = false;
    }
    ∷ []

abbrev pub both_hosts : Hosts
both_hosts = record {
  array =
      update (update init_addr_list.array 3 (record { ip = 99 ∷ []; chan = 56 ∷ 48 ∷ [] })) 0
        (record { ip = this_host; chan = 56 ∷ 48 ∷ [] });
  already_exist = update (update init_addr_list.already_exist 3 true) 0 true;
}

pub lines_taken : addr_generator this_host lines ≡ ok both_hosts
unfolding addr_generator add_lines add_line add_found add_tokens tokens_of insert_host is_taken
    same_host str_eq actual_ip name_fails init_addr_list
lines_taken = refl

addr_id-addr_generator_example : All (Found this_host both_hosts) lines
addr_id-addr_generator_example = addr_id-addr_generator this_host lines both_hosts lines_taken

abbrev other_line : Line
other_line = record {
  rank = some 3;
  ip_only = some (100 ∷ []);
  addr_full = some (57 ∷ []);
  too_long = false;
}

abbrev first_line : Line
first_line = record {
  rank = some 3;
  ip_only = some (99 ∷ []);
  addr_full = some (56 ∷ 48 ∷ []);
  too_long = false;
}

tokens_of-first_line : tokens_of first_line ≡ some (3, 99 ∷ [], 56 ∷ 48 ∷ [])
unfolding tokens_of
tokens_of-first_line = refl

tokens_of-other_line : tokens_of other_line ≡ some (3, 100 ∷ [], 57 ∷ [])
unfolding tokens_of
tokens_of-other_line = refl

addr_generator-Clash_example : addr_generator this_host (first_line ∷ other_line ∷ []) ≡ exited
addr_generator-Clash_example =
    addr_generator-Clash this_host [] [] [] first_line other_line (3, 99 ∷ [], 56 ∷ 48 ∷ [])
      (3, 100 ∷ [], 57 ∷ []) tokens_of-first_line tokens_of-other_line (inl refl)

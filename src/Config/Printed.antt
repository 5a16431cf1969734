-- ===== src/Config/Printed.antt =====
-- The file that describes a ring, line by line.
use protocol_pfe.Base.{
  ℕ, zero, suc, ◌+◌, ◌-◌, ◌%◌, ◌^◌, ◌≤◌, ◌<◌, ◌≡◌, refl, ap, sym, subst, ◌∙◌, true, some, List, [],
  ◌∷◌, ◌++◌, length, length-append, append_assoc, get_elem?, ltb, leb, ok, arith, ==_refl, ==_ne,
}
use protocol_pfe.World.{update}
use protocol_pfe.Config.{
  delimiter, number_sign, NodeInfo, atoi, char_at, get_substr, copied, add_node, add_nodes,
  get_ip_port,
}
use protocol_pfe.Config.Numbers.{decimal, atoi-decimal, decimal-Unbroken, decimal_first}
use protocol_pfe.Config.Words.{Unbroken, get_substr-last, get_substr-next}

-- A process of the ring.
pub record Member : Type 0 where
  pub id : ℕ
  pub ip : List ℕ
  pub port : ℕ

-- Its line, with the new line at its end.
abbrev pub line_of : Member → List ℕ
line_of n = decimal n.id ++ (delimiter ∷ (n.ip ++ (delimiter ∷ (decimal n.port ++ (10 ∷ [])))))

-- The identifier fits a `signed short`, the port an `int`; the address has no space and leaves room
-- for the null character.
pub record Fair (n : Member) : Type 0 where
  pub id : n.id < 2 ^ 15
  pub port : n.port < 2 ^ 31
  pub whole : Unbroken n.ip
  pub short : length n.ip < 16

-- The string in an array.
abbrev pub HoldsString : (ℕ → ℕ) → List ℕ → Type 0
HoldsString a w = ((i c : ℕ) → get_elem? i w ≡ some c → a i ≡ c) × (a (length w) ≡ 0)

pub record Parsed (n : Member) (info : NodeInfo) : Type 0 where
  pub id : info.self_id ≡ n.id
  pub ip : HoldsString info.ip n.ip
  pub port : info.port ≡ n.port

copied_outside : (w : List ℕ) (o k : ℕ) (a : ℕ → ℕ) → k < o → copied w o a k ≡ a k
unfolding copied
copied_outside [] o k a h = refl
copied_outside (c ∷ w) o k a h =
    copied_outside w (o + 1) k (update a o c) (omega arith) ∙ rw (==_ne k o (λ e. omega arith)) refl

copied_after : (w : List ℕ) (o k : ℕ) (a : ℕ → ℕ) → o + length w ≤ k → copied w o a k ≡ a k
unfolding copied
copied_after [] o k a h = refl
copied_after (c ∷ w) o k a h =
    copied_after w (o + 1) k (update a o c) (omega arith) ∙ rw (==_ne k o (λ e. omega arith)) refl

copied_at : (w : List ℕ) (o i c : ℕ) (a : ℕ → ℕ) → get_elem? i w ≡ some c → copied w o a (o + i) ≡ c
unfolding copied
copied_at [] o zero c a e = absurd (cc e)
copied_at [] o (suc i) c a e = absurd (cc e)
copied_at (x ∷ w) o zero c a e =
    let here : o + 0 ≡ o = omega arith in
    let is_x : x ≡ c = cc e in
    rw here (copied_outside w (o + 1) o (update a o x) (omega arith) ∙ rw (==_refl o) is_x)
copied_at (x ∷ w) o (suc i) c a e =
    let there : o + suc i ≡ o + 1 + i = omega arith in
    rw there (copied_at w (o + 1) i c (update a o x) e)

-- A line by its three words.
add_node-words :
    (line : List ℕ) (counter : ℕ) (nodes : ℕ → NodeInfo) (w1 w2 w3 : List ℕ) (i1 i2 i3 n1 n3 : ℕ)
    → get_substr 0 (length line - 1) line ≡ (w1, i1)
    → get_substr (i1 + 1) (length line - 1) line ≡ (w2, i2)
    → get_substr (i2 + 1) (length line - 1) line ≡ (w3, i3)
    → counter < 5
    → length w2 < 16
    → atoi w1 ≡ ok n1
    → atoi w3 ≡ ok n3
    → add_node line counter nodes
      ≡ ok (
          update nodes counter
            (record { self_id = n1 % 2 ^ 16; ip = copied w2 0 (nodes counter).ip; port = n3 }))
unfolding add_node
add_node-words line counter nodes w1 w2 w3 i1 i2 i3 n1 n3 e1 e2 e3 few short a1 a3 =
    let in_array : ltb counter 5 ≡ true = ground arith in
    let fits : leb (length w2) 16 ≡ true = ground arith in
    rw e1 (rw e2 (rw e3 (rw (in_array, fits) (rw (a1, a3) refl))))

module _ (n : Member) where
  abbrev line : List ℕ
  line = line_of n

  abbrev before_ip : List ℕ
  before_ip = decimal n.id ++ delimiter ∷ []

  abbrev before_port : List ℕ
  before_port = before_ip ++ (n.ip ++ delimiter ∷ [])

  at_ip : line ≡ before_ip ++ (n.ip ++ (delimiter ∷ (decimal n.port ++ (10 ∷ []))))
  at_ip = sym (append_assoc (decimal n.id) (delimiter ∷ []) _)

  at_port : line ≡ before_port ++ (decimal n.port ++ (10 ∷ []))
  at_port =
      at_ip
      ∙ ap (λ xs. before_ip ++ xs)
          (sym (append_assoc n.ip (delimiter ∷ []) (decimal n.port ++ (10 ∷ []))))
      ∙ sym (append_assoc before_ip (n.ip ++ delimiter ∷ []) (decimal n.port ++ (10 ∷ [])))

  ip_place : length before_ip ≡ length (decimal n.id) + 1
  ip_place = length-append (decimal n.id) (delimiter ∷ [])

  port_place : length before_port ≡ length (decimal n.id) + 1 + (length n.ip + 1)
  port_place = omega (
    arith,
    length-append before_ip (n.ip ++ delimiter ∷ []),
    length-append n.ip (delimiter ∷ []),
    ip_place,
  )

  line_len : length line ≡ length before_port + length (decimal n.port) + 1
  line_len =
      ap length at_port
      ∙ omega (
        arith,
        length-append before_port (decimal n.port ++ (10 ∷ [])),
        length-append (decimal n.port) (10 ∷ []),
      )

  abbrev added : (ℕ → NodeInfo) → ℕ → NodeInfo
  added nodes counter = record {
    self_id = n.id % 2 ^ 16;
    ip = copied n.ip 0 (nodes counter).ip;
    port = n.port;
  }

  add_node_lem :
      (counter : ℕ) (nodes : ℕ → NodeInfo)
      → Fair n
      → counter < 5
      → add_node line counter nodes ≡ ok (update nodes counter (added nodes counter))
  add_node_lem counter nodes f few =
      let end_index = length line - 1 in
      let i1 = 0 + length (decimal n.id) in
      let e1 =
        get_substr-next [] (decimal n.id) (n.ip ++ (delimiter ∷ (decimal n.port ++ (10 ∷ [])))) 0
          end_index refl (omega (arith, line_len, port_place)) (decimal-Unbroken n.id) in
      let e2 : get_substr (i1 + 1) end_index line ≡ (n.ip, i1 + 1 + length n.ip) =
        ap (get_substr (i1 + 1) end_index) at_ip
        ∙ get_substr-next before_ip n.ip (decimal n.port ++ (10 ∷ [])) (i1 + 1) end_index
            (omega (arith, ip_place)) (omega (arith, line_len, port_place, ip_place)) f.whole in
      let i2 = i1 + 1 + length n.ip in
      let e3 : get_substr (i2 + 1) end_index line
          ≡ (decimal n.port, i2 + 1 + length (decimal n.port)) =
        ap (get_substr (i2 + 1) end_index) at_port
        ∙ get_substr-last before_port (decimal n.port) (10 ∷ []) (i2 + 1) end_index
            (omega (arith, port_place)) (omega (arith, line_len)) (decimal-Unbroken n.port) in
      add_node-words line counter nodes (decimal n.id) n.ip (decimal n.port) i1 i2 _ n.id n.port e1
        e2 e3 few f.short (atoi-decimal n.id (omega (arith, f.id))) (atoi-decimal n.port f.port)

-- The lines of a file: comments, and one line for each process.
pub data Describes : List (List ℕ) → List Member → Type 0 where
  nothing : Describes [] []
  comment :
      {cs : List ℕ} {ls : List (List ℕ)} {ns : List Member}
      → Describes ls ns
      → Describes ((number_sign ∷ cs) ∷ ls) ns
  entry :
      {n : Member} {ls : List (List ℕ)} {ns : List Member}
      → Fair n
      → Describes ls ns
      → Describes (line_of n ∷ ls) (n ∷ ns)

-- The processes `ns` stand in the array from `counter` on, and the places before it are kept.
abbrev Filled : ℕ → List Member → (ℕ → NodeInfo) → (ℕ → NodeInfo) → Type 0
Filled counter ns nodes nodes' =
    ((k : ℕ) (n : Member) → get_elem? k ns ≡ some n → Parsed n (nodes' (counter + k)))
    × ((j : ℕ) → j < counter → nodes' j ≡ nodes j)

Parsed-added :
    (n : Member) (counter : ℕ) (nodes : ℕ → NodeInfo)
    → Fair n
    → ((q : ℕ) → (nodes counter).ip q ≡ 0)
    → Parsed n (added n nodes counter)
Parsed-added n counter nodes f zeros = record {
  id = omega (arith, f.id);
  ip = (
    λ i c e.
        let at : 0 + i ≡ i = omega arith in
        subst (λ k. copied n.ip 0 (nodes counter).ip k ≡ c) at
          (copied_at n.ip 0 i c (nodes counter).ip e),
    copied_after n.ip 0 (length n.ip) (nodes counter).ip (omega arith) ∙ zeros (length n.ip),
  );
  port = refl;
}

Filled-cons :
    (n : Member) (ns : List Member) (counter : ℕ) (nodes nodes' : ℕ → NodeInfo)
    → Parsed n (added n nodes counter)
    → Filled (counter + 1) ns (update nodes counter (added n nodes counter)) nodes'
    → Filled counter (n ∷ ns) nodes nodes'
Filled-cons n ns counter nodes nodes' p (there, kept) =
    (first_or_later, λ j h. kept j (omega arith) ∙ rw (==_ne j counter (λ e. omega arith)) refl)
  where
    first_or_later :
        (k : ℕ) (m : Member) → get_elem? k (n ∷ ns) ≡ some m → Parsed m (nodes' (counter + k))
    first_or_later zero m e =
        let here : counter + 0 ≡ counter = omega arith in
        let same : n ≡ m = cc e in
        let node : nodes' counter ≡ added n nodes counter =
          kept counter (omega arith) ∙ rw (==_refl counter) refl in
        rw here (rw (← same, node) p)
    first_or_later (suc k) m e =
        let later : counter + suc k ≡ counter + 1 + k = omega arith in rw later (there k m e)

add_nodes_lem :
    (ls : List (List ℕ)) (ns : List Member) (counter : ℕ) (nodes : ℕ → NodeInfo)
    → Describes ls ns
    → counter + length ns ≤ 5
    → ((j q : ℕ) → counter ≤ j → (nodes j).ip q ≡ 0)
    → (nodes' : ℕ → NodeInfo) × (add_nodes ls counter nodes ≡ ok nodes')
      × Filled counter ns nodes nodes'
unfolding add_nodes char_at
add_nodes_lem [] [] counter nodes nothing few zeros =
    (nodes, refl, ((λ k n e. absurd (cc e)), λ j h. refl))
add_nodes_lem _ ns counter nodes (comment {ls = ls} d) few zeros =
    add_nodes_lem ls ns counter nodes d few zeros
add_nodes_lem _ _ counter nodes (entry {n = n} {ls = ls} {ns = ns} f d) few zeros =
    let nodes1 = update nodes counter (added n nodes counter) in
    let (nodes', ran, (there, kept)) =
      add_nodes_lem ls ns (counter + 1) nodes1 d (omega arith)
        (λ j q h. rw (==_ne j counter (λ e. omega arith)) (zeros j q (omega arith))) in
    (
      nodes',
      rw (decimal_first n.id _, add_node_lem n counter nodes f (omega arith)) ran,
      Filled-cons n ns counter nodes nodes'
          (Parsed-added n counter nodes f (λ q. zeros counter q (omega arith))) (there, kept),
    )

-- For a file of comment lines and of a line for each of at most five processes, its identifier
-- below 2^15, its address without a space and of at most 15 characters, and its port below 2^31,
-- the numbers in decimal, with a new line at the end, and where the array of node_info is filled
-- with zeros before, get_ip_port returns without a write outside an array, and has each process
-- at its place in the order of the lines, with its identifier, its address as a string with its
-- end, and its port.
pub get_ip_port_lem :
    (ls : List (List ℕ)) (ns : List Member) (nodes : ℕ → NodeInfo)
    → Describes ls ns
    → length ns ≤ 5
    → ((j q : ℕ) → (nodes j).ip q ≡ 0)
    → (nodes' : ℕ → NodeInfo) × (get_ip_port ls nodes ≡ ok nodes')
      × ((k : ℕ) (n : Member) → get_elem? k ns ≡ some n → Parsed n (nodes' k))
unfolding get_ip_port
get_ip_port_lem ls ns nodes d few zeros =
    let (nodes', ran, (there, kept)) =
      add_nodes_lem ls ns 0 nodes d (omega arith) (λ j q h. zeros j q) in
    (
      nodes',
      ran,
      λ k n e.
          let at : 0 + k ≡ k = omega arith in subst (λ i. Parsed n (nodes' i)) at (there k n e),
    )

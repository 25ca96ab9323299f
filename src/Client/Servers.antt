-- ===== src/Client/Servers.antt =====
-- The list of servers and the choice of one (`client_front_end`, src/main_client.cpp).
use sisop2_tf.Base.{
  ℕ, zero, suc, ◌+◌, ◌≡◌, Bool, true, false, List, [], ◌∷◌, Option, none, some, arith, ◌==◌,
  if◌then◌else◌, drop, All, Bool-cases, inl, inr,
}
use sisop2_tf.Client.{atoi}

pub record StServer : Type 0 where
  pub serveraddr : List ℕ
  pub port : ℕ

-- `getline`: the lines of a file. The last one need not end in a newline.
abbrev onto_first : ℕ → List (List ℕ) → List (List ℕ)
onto_first c [] = (c ∷ []) ∷ []
onto_first c (l ∷ ls) = (c ∷ l) ∷ ls

unfoldable pub lines : List ℕ → List (List ℕ)
lines [] = []
lines (c ∷ cs) = let rest = lines cs in if c == 10 then [] ∷ rest else onto_first c rest

-- What stands before and behind the first comma of a line.
unfoldable pub split_comma : List ℕ → Option (List ℕ × List ℕ)
split_comma [] = none
split_comma (c ∷ cs) =
    let rest = split_comma cs in
    if c == b',' then some ([], cs) else elim rest [ none ↦ none | some (a, b) ↦ some (c ∷ a, b) ]

-- The servers of the lines; `none` where a port does not fit an `int`.
unfoldable pub parse_servers : List (List ℕ) → Option (List StServer)
parse_servers [] = some []
parse_servers (l ∷ ls) =
    let rest = parse_servers ls in
    elim (split_comma l) [
      | none ↦ rest
      | some (address, number) ↦ elim (atoi number) [
        | none ↦ none
        | some n ↦ elim rest [
          | none ↦ none
          | some servers ↦ some (record { serveraddr = address; port = n } ∷ servers)
        ]
      ]
    ]

unfoldable pub load_server_list : List ℕ → Option (List StServer)
load_server_list bytes = parse_servers (lines bytes)

-- The loop over the servers from place `i` on: the place of the first where the sign-in succeeds, if
-- no sign-in before ends the program.
unfoldable pub first_that : (StServer → Bool) → ℕ → List StServer → Option ℕ
first_that signs_in i [] = none
first_that signs_in i (s ∷ ss) =
    let rest = first_that signs_in (suc i) ss in if signs_in s then some i else rest

-- The first time the loop begins at the first server, later at the one used last.
unfoldable pub choose_server : (StServer → Bool) → Bool → ℕ → List StServer → Option ℕ
choose_server signs_in first_time server_index servers =
    if first_time
    then first_that signs_in 0 servers
    else first_that signs_in server_index (drop server_index servers)

-- The server at a place signs the client in, and none before it does.
abbrev pub IsFirst : (StServer → Bool) → ℕ → List StServer → Type 0
IsFirst signs_in i [] = ⊥
IsFirst signs_in zero (s ∷ ss) = signs_in s ≡ true
IsFirst signs_in (suc i) (s ∷ ss) = (signs_in s ≡ false) × IsFirst signs_in i ss

abbrev pub Chosen : (StServer → Bool) → ℕ → List StServer → Option ℕ → Type 0
Chosen signs_in start ss none = All (λ s. signs_in s ≡ false) ss
Chosen signs_in start ss (some i) = (j : ℕ) × (i ≡ start + j) × IsFirst signs_in j ss

-- One server more in front.
Chosen-cons :
    (signs_in : StServer → Bool) (start : ℕ) (s : StServer) (ss : List StServer) (found : Option ℕ)
    → signs_in s ≡ false
    → Chosen signs_in (suc start) ss found
    → Chosen signs_in start (s ∷ ss) found
Chosen-cons signs_in start s ss none refused h = (refused, h)
Chosen-cons signs_in start s ss (some i) refused (j, e, h) = (suc j, omega arith, (refused, h))

first_that-Chosen :
    (signs_in : StServer → Bool) (start : ℕ) (ss : List StServer)
    → Chosen signs_in start ss (first_that signs_in start ss)
unfolding first_that
first_that-Chosen signs_in start [] = tt
first_that-Chosen signs_in start (s ∷ ss) = elim (Bool-cases (signs_in s)) [
  | inl accepted ↦ rw accepted (zero, omega arith, accepted)
  | inr refused ↦ rw refused (
      Chosen-cons signs_in start s ss (first_that signs_in (suc start) ss) refused
        (first_that-Chosen signs_in (suc start) ss))
]

-- Where the loop begins.
abbrev pub start_of : Bool → ℕ → ℕ
start_of first_time server_index = if first_time then 0 else server_index

-- The server that is chosen signs the client in, and is the first from the start on that does; the
-- start is the first server of the list at first, and the one used last on a reconnection. None is
-- chosen only if no server from the start on signs the client in.
pub choose_server-Chosen :
    (signs_in : StServer → Bool) (first_time : Bool) (server_index : ℕ) (servers : List StServer)
    → let start = start_of first_time server_index in
      Chosen signs_in start
        (drop start servers)
        (choose_server signs_in first_time server_index servers)
unfolding choose_server
choose_server-Chosen signs_in true server_index servers = first_that-Chosen signs_in 0 servers
choose_server-Chosen signs_in false server_index servers =
    first_that-Chosen signs_in server_index (drop server_index servers)

-- ===== src/Process/Accepting.antt =====
-- `handle_connection_controller` (src/main_server.cpp): the loop that accepts connections.
use sisop2_tf.Base.{
  ℕ, ◌≡◌, Bool, List, [], ◌∷◌, ◌++◌, Option, none, some, append-nil, append_assoc, if◌then◌else◌,
  inl, inr, Bool-cases, arith,
}
use sisop2_tf.Data.{minus_one}

-- What a round meets: whether `poll` reports something, the socket that `accept` returns, if any, and
-- the shutdown notice behind it.
pub record Round : Type 0 where
  pub is_reported : Bool
  pub accept : Option ℕ
  pub server_shutdown_notice : Bool

-- The descriptor of `newsockfd`, and those that the threads in `clientConnections` were given.
pub record Accepting : Type 0 where
  pub newsockfd : ℕ
  pub client_connections : List ℕ

abbrev pub descriptor : Option ℕ → ℕ
descriptor none = minus_one
descriptor (some fd) = fd

unfoldable pub accept_round : Round → Accepting → Accepting
accept_round r s =
    let fd = descriptor r.accept in
    if r.is_reported
    then record { newsockfd = fd; client_connections = s.client_connections ++ fd ∷ [] }
    else record s { newsockfd = fd }

-- The loop, which makes its first round in any case; the list ends where the program would go on.
unfoldable pub accept_rounds : Round → List Round → Accepting → Accepting
accept_rounds r [] s = accept_round r s
accept_rounds r (next ∷ rs) s =
    let rest = accept_rounds next rs (accept_round r s) in
    if r.server_shutdown_notice then accept_round r s else rest

-- The rounds that are made: up to the first that finds the notice.
abbrev pub until_shutdown : Round → List Round → List Round
until_shutdown r [] = r ∷ []
until_shutdown r (next ∷ rs) =
    if r.server_shutdown_notice then r ∷ [] else r ∷ until_shutdown next rs

-- The descriptors of the rounds in which `poll` reports something.
abbrev pub reported : List Round → List ℕ
reported [] = []
reported (r ∷ rs) = if r.is_reported then descriptor r.accept ∷ reported rs else reported rs

accept_round-reported :
    (r : Round) (s : Accepting)
    → (accept_round r s).client_connections ≡ s.client_connections ++ reported (r ∷ [])
unfolding accept_round
accept_round-reported r s = ground (arith, append-nil s.client_connections)

-- The loop of the connection controller starts one thread for each round that it makes, up to the
-- first that finds the shutdown notice, and in which `poll` reports something, in their order and with
-- what `accept` returns there, be it -1; a connection that `accept` returns in another round gets no
-- thread.
pub accept_rounds-reported :
    (r : Round) (rs : List Round) (s : Accepting)
    → (accept_rounds r rs s).client_connections
      ≡ s.client_connections ++ reported (until_shutdown r rs)
unfolding accept_rounds
accept_rounds-reported r [] s = accept_round-reported r s
accept_rounds-reported r (next ∷ rs) s = elim (Bool-cases r.server_shutdown_notice) [
  | inl ends ↦ ground (arith, ends, accept_round-reported r s)
  | inr goes ↦ ground (
    arith,
    goes,
    accept_round-reported r s,
    accept_rounds-reported next rs (accept_round r s),
    append_assoc s.client_connections (descriptor r.accept ∷ [])
        (reported (until_shutdown next rs)),
    append-nil s.client_connections,
  )
]

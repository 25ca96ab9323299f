-- ===== src/Process.antt =====
-- The server's process: the start, and the loop of `main` that saves the tables (src/main_server.cpp),
-- while clients make queries. `Request` and `perform_all` are those of Database/Service/Runs.
pub mod Restart
pub mod Accepting
mod Tests
use sisop2_tf.Base.{
  ℕ, suc, ◌+◌, ◌-◌, ◌^◌, ◌≤◌, ◌<◌, ◌≡◌, refl, ap, sym, subst, ◌∙◌, Bool, true, false, List, [], ◌∷◌,
  ◌++◌, arith, length, length-append, if◌then◌else◌, pure, ok, ◌>>=◌, ◌>>◌, Returns, Returns->>=,
  Returns-weaken, >>=-ok,
}
use sisop2_tf.Connections.{ConnectionManager}
use sisop2_tf.Database.State.{Action, Server, Tables, at_rest, free_locks, server_eq}
use sisop2_tf.Database.Service.{Service, view}
use sisop2_tf.Database.Service.Runs.{
  Request, perform_all, serve, serve_all, AreAllowed, IsReady, ServesAll, perform_all-ServesAll,
}
use sisop2_tf.Files.Save.{FileSet, files_of, save_database}

-- A turn of the loop: the queries that are made while `main` waits, and whether something was typed.
pub record Turn : Type 0 where
  pub requests : List Request
  pub is_typed : Bool

-- The loop of `main`; what is in the files after each save.
unfoldable pub main_loop : List Turn → Action (List FileSet)
main_loop [] = pure []
main_loop (turn ∷ turns) =
    let rest : Action (List FileSet) = main_loop turns in
    (do
      perform_all turn.requests
      files ← save_database
      saves ← if turn.is_typed then pure [] else rest
      pure (files ∷ saves))

-- The requests of the turns that `main` makes.
abbrev pub requests_of : List Turn → List Request
requests_of [] = []
requests_of (turn ∷ turns) = turn.requests ++ (if turn.is_typed then [] else requests_of turns)

-- The last files, or those that were there before.
abbrev pub last_of : FileSet → List FileSet → FileSet
last_of old [] = old
last_of old (files ∷ saves) = last_of files saves

save_database-files :
    (s : Server) → s.locks ≡ free_locks → save_database s ≡ ok (files_of s.tables) s
unfolding save_database
save_database-files s free =
    subst (λ u. save_database u ≡ ok (files_of u.tables) u) (sym (server_eq s s.tables refl free))
      (at_rest-files s.tables s.connections)
  where
    at_rest-files :
        (t : Tables) (c : ConnectionManager)
        → save_database (at_rest t c) ≡ ok (files_of t) (at_rest t c)
    at_rest-files t c = refl

serve_all-append :
    (a : Service) (rs more : List Request)
    → (serve_all a (rs ++ more)).1 ≡ (serve_all (serve_all a rs).1 more).1
serve_all-append a [] more = refl
serve_all-append a (r ∷ rs) more = serve_all-append (serve a r).1 rs more

AreAllowed-append :
    (a : Service) (rs more : List Request)
    → AreAllowed a (rs ++ more)
    → AreAllowed a rs × AreAllowed (serve_all a rs).1 more
AreAllowed-append a [] more h = (tt, h)
AreAllowed-append a (r ∷ rs) more h =
    let (first, rest) = AreAllowed-append (serve a r).1 rs more h.1 in ((h.0, first), rest)

-- What the loop owes: the server is as the service after all requests, ready for the next query, and
-- the last files, or those of the tables at the start where there was no save, are those of its tables.
abbrev pub Saves : Server → List Request → List FileSet → Server → Type 0
Saves s rs saves s' =
    IsReady s'
    × (view s'.tables s'.connections ≡ (serve_all (view s.tables s.connections) rs).1)
    × (last_of (files_of s.tables) saves ≡ files_of s'.tables)

turn-Saves :
    (s : Server) (rs more : List Request) (k : Action (List FileSet))
    → IsReady s
    → AreAllowed (view s.tables s.connections) rs
    → s.tables.num_tweets + length rs < 2 ^ 31
    → ((s₁ : Server)
        → IsReady s₁
        → view s₁.tables s₁.connections ≡ (serve_all (view s.tables s.connections) rs).1
        → s₁.tables.num_tweets ≤ s.tables.num_tweets + length rs
        → Returns (k s₁) (Saves s₁ more))
    → Returns
        ((perform_all rs >> (save_database >>= λ files. k >>= λ saves. pure (files ∷ saves))) s)
        (Saves s (rs ++ more))
turn-Saves s rs more k ready allowed room h =
    Returns->>= (ServesAll (view s.tables s.connections) s.tables.num_tweets rs)
      (Saves s (rs ++ more)) (λ _. save_database >>= λ files. k >>= λ saves. pure (files ∷ saves))
      (perform_all rs) s (perform_all-ServesAll s rs ready allowed room)
      λ out s₁ (same, after, ready₁, few).
        subst (λ o. Returns o (Saves s (rs ++ more)))
          (sym (
            >>=-ok save_database (λ files. k >>= λ saves. pure (files ∷ saves))
              (save_database-files s₁ ready₁.free)))
          (Returns->>= (Saves s₁ more) (Saves s (rs ++ more))
            (λ saves. pure (files_of s₁.tables ∷ saves)) k s₁ (h s₁ ready₁ after few)
            λ saves s' (ready', served, last). (
              ready',
              served
                  ∙ ap (λ a. (serve_all a more).1) after
                  ∙ sym (serve_all-append (view s.tables s.connections) rs more),
              last,
            ))

next_turns :
    (typed : Bool) (turns : List Turn) (s : Server)
    → IsReady s
    → AreAllowed (view s.tables s.connections) (if typed then [] else requests_of turns)
    → s.tables.num_tweets + length (if typed then [] else requests_of turns) < 2 ^ 31
    → (AreAllowed (view s.tables s.connections) (requests_of turns)
        → s.tables.num_tweets + length (requests_of turns) < 2 ^ 31
        → Returns (main_loop turns s) (Saves s (requests_of turns)))
    → Returns
        ((if typed then pure [] else main_loop turns) s)
        (Saves s (if typed then [] else requests_of turns))
next_turns true turns s ready allowed room h = (ready, refl, refl)
next_turns false turns s ready allowed room h = h allowed room

-- From a server between two queries, with valid tables and a valid manager, for requests that the
-- service allows one after another, and while tweet numbers last for them, the loop of `main` makes
-- every turn up to the first in which something is typed, with no save that waits for ever: the
-- server is then as the service after the requests of these turns, ready for the next query, and
-- the files that the last save wrote, or those of the tables at the start where there was no turn,
-- are those of its tables.
pub main_loop-Saves :
    (s : Server) (turns : List Turn)
    → IsReady s
    → AreAllowed (view s.tables s.connections) (requests_of turns)
    → s.tables.num_tweets + length (requests_of turns) < 2 ^ 31
    → Returns (main_loop turns s) (Saves s (requests_of turns))
unfolding main_loop
main_loop-Saves s [] ready allowed room = (ready, refl, refl)
main_loop-Saves s (turn ∷ turns) ready allowed room =
    let more = if turn.is_typed then [] else requests_of turns in
    let (now, later) = AreAllowed-append (view s.tables s.connections) turn.requests more allowed in
    turn-Saves s turn.requests more (if turn.is_typed then pure [] else main_loop turns) ready now
      (omega (arith, room, length-append turn.requests more))
      λ s₁ ready₁ after few.
        next_turns turn.is_typed turns s₁ ready₁ (subst (λ a. AreAllowed a more) (sym after) later)
          (omega (arith, room, few, length-append turn.requests more))
          (λ allowed₁ room₁. main_loop-Saves s₁ turns ready₁ allowed₁ room₁)

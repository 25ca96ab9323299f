-- ===== src/Client/Start.antt =====
-- The start of the client (src/main_client.cpp): the arguments, the first search for a server and the
-- controller. `answers` says how each server of the list answers the sign-in.
use sisop2_tf.Base.{
  ℕ, suc, ◌+◌, ◌≡◌, refl, ap, ◌∙◌, Bool, true, false, List, [], ◌∷◌, map, Option, none, some, All,
  arith, ltb, ◌==◌, if◌then◌else◌, length, drop, ◌>>=◌, ◌>>◌, pure, requires, modify, or_fault,
}
use sisop2_tf.Message.{Message}
use sisop2_tf.Client.{ClientState, Ending, connected, exited, waiting, failed, undefined}
use sisop2_tf.Client.Servers.{StServer, load_server_list, first_that, choose_server, start_of}
use sisop2_tf.Client.Shell.{
  Contact, Search, found, nowhere, ended, hanging, broken, one_further, search_end, Action,
  contact_server, find_server, after_search,
}
use sisop2_tf.Client.Controller.{Turn, rounds}

-- `strcpy` into `m_username`.
unfoldable pub set_username : List ℕ → Action (Unit {0})
set_username name = do
  requires (λ w. ltb (length name) 256)
  modify (λ w. record w { username = name })

unfoldable pub first_search : List ℕ → (StServer → Contact) → Action Bool
first_search file answers = do
  servers ← or_fault (load_server_list file)
  λ w. after_search (find_server (map answers servers) w.client) w

abbrev begins_with_at : List ℕ → Bool
begins_with_at [] = false
begins_with_at (c ∷ cs) = c == b'@'

-- The program's name, the user's and the bytes of the file that is named; whether the program goes on.
unfoldable pub client_main :
    Message → (StServer → Contact) → List (List ℕ) → List Turn → Action Bool
client_main blank answers (program ∷ user ∷ file ∷ []) turns =
    if begins_with_at user
    then (do
      set_username user
      go ← first_search file answers
      if go then rounds blank turns else pure false)
    else pure false
client_main blank answers _ turns = pure false

-- A sign-in that neither ends the program nor waits.
abbrev pub IsSettled : Ending → Type 0
IsSettled (connected s) = Unit
IsSettled failed = Unit
IsSettled _ = ⊥

abbrev is_connected : Ending → Bool
is_connected (connected s) = true
is_connected _ = false

-- Whether a server signs the client in.
abbrev pub signs_in : (StServer → Contact) → ClientState → StServer → Bool
signs_in answers s server = is_connected (contact_server (answers server) s)

-- The place of the server that was found.
abbrev pub place_of : ℕ → Search → Option ℕ
place_of start (found i s) = some (start + i)
place_of start _ = none

place_of-one_further :
    (start : ℕ) (o : Search) → place_of start (one_further o) ≡ place_of (suc start) o
place_of-one_further start (found i s) = ap some (omega arith)
place_of-one_further start nowhere = refl
place_of-one_further start ended = refl
place_of-one_further start hanging = refl
place_of-one_further start broken = refl

place_of-search_end :
    (start : ℕ) (e : Ending) (rest : Search)
    → IsSettled e
    → place_of start (search_end e rest)
      ≡ (if is_connected e then some start else place_of (suc start) rest)
place_of-search_end start (connected s) rest h = ap some (omega arith)
place_of-search_end start failed rest h = place_of-one_further start rest
place_of-search_end start (exited s) rest h = absurd h
place_of-search_end start (waiting s) rest h = absurd h
place_of-search_end start undefined rest h = absurd h

find_server-first_that :
    (start : ℕ) (answers : StServer → Contact) (servers : List StServer) (s : ClientState)
    → All (λ server. IsSettled (contact_server (answers server) s)) servers
    → place_of start (find_server (map answers servers) s)
      ≡ first_that (signs_in answers s) start servers
unfolding first_that find_server
find_server-first_that start answers [] s h = refl
find_server-first_that start answers (server ∷ servers) s h =
    place_of-search_end start (contact_server (answers server) s)
      (find_server (map answers servers) s) h.0
    ∙ ap (λ o. if signs_in answers s server then some start else o)
        (find_server-first_that (suc start) answers servers s h.1)

-- When no sign-in with a server of the list ends the program or waits for ever, the search that signs in
-- with one server after another, as the state of the client is, finds the same server as the choice of
-- the first in the list that signs the client in, and none exactly where that choice finds none; so it
-- is for the first search, over the whole list, and for a later one, from the server used last on.
pub find_server-choose_server :
    (answers : StServer → Contact) (first_time : Bool) (index : ℕ) (servers : List StServer)
    (s : ClientState)
    → All
        (λ server. IsSettled (contact_server (answers server) s))
        (drop (start_of first_time index) servers)
    → place_of
        (start_of first_time index)
        (find_server (map answers (drop (start_of first_time index) servers)) s)
      ≡ choose_server (signs_in answers s) first_time index servers
unfolding choose_server
find_server-choose_server answers true index servers s h =
    find_server-first_that 0 answers servers s h
find_server-choose_server answers false index servers s h =
    find_server-first_that index answers (drop index servers) s h

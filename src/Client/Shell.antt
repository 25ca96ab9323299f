-- ===== src/Client/Shell.antt =====
-- What the client's controller works on (src/Client.cpp), and its search for a server
-- (`client_front_end`, src/main_client.cpp). `input` holds the lines typed, `errors` the `SO_ERROR`
-- after each `send_message`, `reads` what each `read` gives, and `contacts` how the servers from the one
-- used last on answer at each search. The front end's own thread runs while the controller waits for it.
use sisop2_tf.Base.{
  ℕ, suc, ◌+◌, Bool, true, false, List, [], ◌∷◌, map, Option, some, ◌==◌, Program, ok, blocked,
  fault,
}
use sisop2_tf.Message.{Message}
use sisop2_tf.Client.{
  ClientState, Ending, connected, exited, waiting, failed, undefined, sign_in_to,
}
use sisop2_tf.Client.Sockets.{receive_message_no_retry, connect_to_server}

-- How one server answers a sign-in.
pub record Contact : Type 0 where
  pub has_host : Bool
  pub has_socket : Bool
  pub accepted : Bool
  pub is_sent : Bool
  pub received : List (Option Message)

-- What `print_message` writes.
pub data Line : Type 0 where
  tweet_line : List ℕ → ℕ → List ℕ → Line
  error_line : List ℕ → Line

pub record Shell : Type 0 where
  pub input : List (List ℕ)
  pub errors : List ℕ
  pub reads : List (Option Message)
  pub contacts : List (List Contact)
  pub sent : List Message
  pub printed : List Line
  pub client : ClientState
  pub server_index : ℕ
  pub username : List ℕ

abbrev pub Action : Type 0 → Type 0
Action A = Program Shell A

-- `Client::sign_in` with one server.
abbrev pub contact_server : Contact → ClientState → Ending
contact_server c s =
    sign_in_to (connect_to_server c.has_host c.has_socket c.accepted == 0) c.is_sent
      (map (λ r. some (receive_message_no_retry r)) c.received) s

-- How the loop over the servers ends.
pub data Search : Type 0 where
  found : ℕ → ClientState → Search
  nowhere ended hanging broken : Search

abbrev pub one_further : Search → Search
one_further (found i s) = found (suc i) s
one_further nowhere = nowhere
one_further ended = ended
one_further hanging = hanging
one_further broken = broken

-- What one sign-in means for the search; `rest` is the search behind it.
abbrev pub search_end : Ending → Search → Search
search_end (connected s) rest = found 0 s
search_end (exited s) rest = ended
search_end (waiting s) rest = hanging
search_end failed rest = one_further rest
search_end undefined rest = broken

unfoldable pub find_server : List Contact → ClientState → Search
find_server [] s = nowhere
find_server (c ∷ cs) s = search_end (contact_server c s) (find_server cs s)

-- Closing the connection and waiting for the front end; whether the program goes on.
abbrev pub after_search : Search → Action Bool
after_search (found i s) w = ok true (record w { client = s; server_index = w.server_index + i })
after_search nowhere w = ok false w
after_search ended w = ok false w
after_search hanging w = blocked w
after_search broken w = fault

abbrev pub search_with : List (List Contact) → Action Bool
search_with [] w = blocked w
search_with (cs ∷ rest) w = after_search (find_server cs w.client) (record w { contacts = rest })

unfoldable pub look_for_server : Action Bool
look_for_server w = search_with w.contacts w

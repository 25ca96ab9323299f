-- ===== src/Client/LinkTests.antt =====
-- Sign-ins and the two threads of the client (src/Client.cpp, src/main_client.cpp) at concrete inputs.
use sisop2_tf.Base.{
  length, All, arith, ◌≡◌, ◌<◌, ◌⊎◌, refl, true, false, List, [], ◌∷◌, ◌++◌, some, none, ℕ, ok,
  fault,
}
use sisop2_tf.Stream.{show_nat}
use sisop2_tf.Message.{Message, strcpy, sign_in, reconnect, new_message}
use sisop2_tf.Database.Tests.{tables, manager}
use sisop2_tf.Session.State.{opened}
use sisop2_tf.Session.Connector.{Env, dispatch, not_authenticated}
use sisop2_tf.Session.SignIn.{world}
use sisop2_tf.Session.Unsigned.{refusal}
use sisop2_tf.Client.{ClientState, exited, failed, first_message, sign_in_to}
use sisop2_tf.Client.Sockets.{zeros, zero_message}
use sisop2_tf.Client.Endpoint.{
  Endpoint, Attempt, own, client_sign_in, set_server, set_port, set_hostname, chars_of,
}
use sisop2_tf.Client.Leaks.{Candidate, try_servers, try_servers-leaks}
use sisop2_tf.Client.FrontEnd.{
  Flags, working, resting, Reach, here, by_front, by_controller, by_time, wakes, finds, begins,
  searches_late, searching, IsServed, working-IsServed,
}
use sisop2_tf.Client.Reconnect.{first_message-exits}

abbrev client : ClientState
client = record { inbox = []; inbox_has_item = false; uid = 7 }

abbrev endpoint : Endpoint
endpoint = record {
  socket_num = 0;
  port = 0;
  hostname = zeros 280;
  username = zeros 256;
  opened_sockets = [];
  closed_sockets = [];
  client = client;
  sent = [];
}

abbrev attempt : Attempt
attempt = record {
  contact = record {
    has_host = true;
    has_socket = true;
    accepted = true;
    is_sent = true;
    received = none ∷ [];
  };
  descriptor = 5;
}

abbrev at_ana : List ℕ
at_ana = b'@' ∷ b'a' ∷ []

abbrev greeting : Message
greeting = record zero_message { type = sign_in; timestamp = 9; payload = at_ana ++ zeros 254 }

-- The address of a server is cut at its first NUL.
address_set :
    set_server false own (b'h' ∷ 0 ∷ b'x' ∷ []) 4000 endpoint
    ≡ ok tt (record endpoint { port = 4000; hostname = b'h' ∷ zeros 279 })
unfolding set_server set_port set_hostname chars_of strcpy
address_set = refl

-- The first sign-in copies the name of the client onto itself.
name_overlaps : client_sign_in zero_message 9 true own (b'h' ∷ []) 4000 attempt endpoint ≡ fault
unfolding client_sign_in set_server
name_overlaps = refl

-- One server refuses the connection, and another one is unknown.
abbrev candidates : List Candidate
candidates =
    record {
      address = b'h' ∷ [];
      port = 4000;
      attempt = record attempt { contact = record attempt.contact { accepted = false } };
    }
    ∷ record {
      address = b'x' ∷ [];
      port = 4001;
      attempt = record attempt { contact = record attempt.contact { has_host = false } };
    }
    ∷ []

addresses_fit : All (λ k. length (chars_of k.address) < 280) candidates
unfolding chars_of
addresses_fit = (omega arith, (omega arith, tt))

try_servers-leaks_example :
    (t : Endpoint) × (try_servers zero_message 9 candidates endpoint ≡ ok failed t)
    × (t.opened_sockets ≡ 5 ∷ [])
    × (t.closed_sockets ≡ [])
try_servers-leaks_example =
    try_servers-leaks zero_message 9 candidates endpoint addresses_fit (refl, (refl, tt))

-- The front end finds a server, and the controller begins.
abbrev served : Flags
served = record { look_for_server = false; connected = true; front = resting; controller = working }

served-Reach : Reach 0 served
served-Reach =
    by_controller (by_front (by_front here (wakes refl refl)) (finds refl))
      (begins refl refl refl refl)

working-IsServed_example : (0 < 0) ⊎ IsServed served
working-IsServed_example = working-IsServed 0 served served-Reach refl

-- After 1000 seconds of work the front end searches once more.
late-Reach :
    Reach 1 (record {
      look_for_server = false;
      connected = false;
      front = searching;
      controller = working;
    })
late-Reach = by_time served-Reach (searches_late refl)

abbrev env : Env
env = record { server_shutdown_notice = false; alive = true; now = 9; blank = zero_message }

abbrev again : Message
again = record zero_message { type = reconnect; timestamp = 9; payload = b'7' ∷ zeros 255 }

again_built : first_message zero_message false 9 at_ana client ≡ some again
unfolding first_message new_message strcpy show_nat
again_built = refl

refusal_fits : strcpy (zeros 256) not_authenticated ≡ some (not_authenticated ++ zeros 225)
unfolding strcpy
refusal_fits = refl

first_message-exits_example :
    (dispatch env again (world tables manager (opened zero_message))
      ≡ ok tt (
          world tables manager (record (opened zero_message) {
            sent = refusal env (not_authenticated ++ zeros 225) ∷ [];
          })))
    × (sign_in_to true true (some (refusal env (not_authenticated ++ zeros 225)) ∷ []) client
        ≡ exited (record client { inbox_has_item = false }))
first_message-exits_example =
    first_message-exits env tables manager zero_message zero_message again 9 at_ana
      (not_authenticated ++ zeros 225) [] client refl refl refusal_fits again_built

-- ===== src/Client/Endpoint.antt =====
-- The socket of the client, whose members are global (inc/Socket.hpp, src/SocketClient.cpp), and the
-- whole of `Client::sign_in` (src/Client.cpp) on it.
use sisop2_tf.Base.{
  map, ℕ, ◌^◌, ◌-◌, ◌≤◌, ◌≡◌, refl, Bool, true, false, not, List, [], ◌∷◌, ◌++◌, some, ◌==◌,
  if◌then◌else◌, length, Program, ok, fault, pure, gets, modify, or_fault, ◌>>=◌, ◌>>◌, arith,
}
use sisop2_tf.Message.{Message, strcpy}
use sisop2_tf.Client.{ClientState, Ending, failed, first_message, wait_server_response}
use sisop2_tf.Client.Sockets.{connect_to_server, receive_message_no_retry}
use sisop2_tf.Client.Shell.{Contact}

-- `m_hostname` has 280 bytes and `m_username` 256. `open_sockets` and `closed_sockets` are the
-- descriptors that the program has opened and closed.
pub record Endpoint : Type 0 where
  pub socket_num : ℕ
  pub port : ℕ
  pub hostname : List ℕ
  pub username : List ℕ
  pub opened_sockets : List ℕ
  pub closed_sockets : List ℕ
  pub client : ClientState
  pub sent : List Message

abbrev pub Action : Type 0 → Type 0
Action A = Program Endpoint A

-- The characters that `strcpy` takes: those before the first NUL.
unfoldable pub chars_of : List ℕ → List ℕ
chars_of [] = []
chars_of (c ∷ cs) = let rest = chars_of cs in if c == 0 then [] else c ∷ rest

-- The array that a caller passes as the name: `m_username` itself, as `get_username` returns it, or
-- another one.
pub data NameArgument : Type 0 where
  own : NameArgument
  other : List ℕ → NameArgument

unfoldable pub set_port : ℕ → Action (Unit {0})
set_port port = modify λ s. record s { port = port }

unfoldable pub set_hostname : List ℕ → Action (Unit {0})
set_hostname name = do
  old ← gets (λ s. s.hostname)
  bytes ← or_fault (strcpy old (chars_of name))
  modify λ s. record s { hostname = bytes }

-- `SocketClient(char[], int)`.
unfoldable pub socket_client : List ℕ → ℕ → Action (Unit {0})
socket_client name port = do set_hostname name; set_port port

-- `SocketClient::close_connection`.
unfoldable pub close_socket : Action (Unit {0})
close_socket = modify λ s. record s { closed_sockets = s.closed_sockets ++ s.socket_num ∷ [] }

-- A server that is tried: how it answers, and the descriptor of the socket, if there is one.
pub record Attempt : Type 0 where
  pub contact : Contact
  pub descriptor : ℕ

abbrev no_socket : ℕ
no_socket = 2 ^ 32 - 1

-- The socket that `connect_to_server` opens where the host is known; -1 where there is none.
abbrev pub opened_for : Attempt → Endpoint → Endpoint
opened_for a s =
    if not a.contact.has_host
    then s
    else (if a.contact.has_socket
        then record s {
          socket_num = a.descriptor;
          opened_sockets = s.opened_sockets ++ a.descriptor ∷ [];
        }
        else record s { socket_num = no_socket })

-- `SocketClient::connect_to_server` with the member that it sets.
unfoldable pub connect : Attempt → Action ℕ
connect a s =
    ok (connect_to_server a.contact.has_host a.contact.has_socket a.contact.accepted)
      (opened_for a s)

unfoldable pub send_message_no_retry : Bool → Message → Action Bool
send_message_no_retry is_sent m s =
    ok is_sent (if is_sent then record s { sent = s.sent ++ m ∷ [] } else s)

-- The address and the name, which is copied at the first connection only: `m_username` onto itself is
-- undefined, since the arrays of a `strcpy` must not overlap.
unfoldable pub set_server : Bool → NameArgument → List ℕ → ℕ → Action (Unit {0})
set_server true own address port = λ s. fault
set_server true (other username) address port = do
  old ← gets (λ s. s.username)
  name ← or_fault (strcpy old (chars_of username))
  modify λ s. record s { username = name }
  socket_client address port
set_server false username address port = do set_port port; set_hostname address

-- The characters of the name that is passed.
abbrev name_in : NameArgument → Endpoint → List ℕ
name_in own s = chars_of s.username
name_in (other bytes) s = chars_of bytes

-- The sign-in behind the connection.
unfoldable pub introduce : Message → ℕ → Bool → List ℕ → Attempt → Action Ending
introduce blank now first_connect username a = do
  client ← gets (λ s. s.client)
  m ← or_fault (first_message blank first_connect now username client)
  sent ← send_message_no_retry a.contact.is_sent m
  pure (
      if sent
      then wait_server_response (map (λ r. some (receive_message_no_retry r)) a.contact.received)
          (record client { inbox_has_item = false })
      else failed)

unfoldable pub client_sign_in :
    Message → ℕ → Bool → NameArgument → List ℕ → ℕ → Attempt → Action Ending
client_sign_in blank now first_connect username address port a = do
  set_server first_connect username address port
  code ← connect a
  name ← gets (name_in username)
  if code == 0 then introduce blank now first_connect name a else pure failed

-- An address with as many characters as `m_hostname` has bytes, or more, is written past its end.
pub sign_in-overflow :
    (blank : Message) (now : ℕ) (first_connect : Bool) (username : NameArgument) (address : List ℕ)
    (port : ℕ) (a : Attempt) (s : Endpoint)
    → length s.hostname ≤ length (chars_of address)
    → client_sign_in blank now first_connect username address port a s ≡ fault
unfolding client_sign_in set_server socket_client set_hostname set_port strcpy
sign_in-overflow blank now true own address port a s long = refl
sign_in-overflow blank now true (other username) address port a s long = ground (arith, long)
sign_in-overflow blank now false username address port a s long = ground (arith, long)

-- ===== src/Session/Connector.antt =====
-- `handle_client_connector` (src/main_server.cpp): one round of its loop, and what follows the loop.
use sisop2_tf.Base.{
  ℕ, Bool, true, false, not, ◌&&◌, ◌||◌, List, [], ◌∷◌, ◌++◌, ◌==◌, if◌then◌else◌, ◌>>=◌, ◌>>◌,
  pure, when, or_fault,
}
use sisop2_tf.Data.{minus_one}
use sisop2_tf.Message.{
  MessageType, ack, nack, follow, update, sign_in, shutdown_req, Message, c_str, strcpy,
  new_message,
}
use sisop2_tf.Connections.{register_connection, close_connection}
use sisop2_tf.Database.State.{on_connections}
use sisop2_tf.Database.Users.{get_user_index}
use sisop2_tf.Session.State.{Action, on_server, session_of, change, write_socket}

-- What one `recv` reports.
pub data Recv : Type 0 where
  would_block refused closed partial : Recv
  packet : Message → Recv

-- What comes from outside in a round: the shutdown notice, whether the client can still be written
-- to, the time, and what the memory of a fresh `Message` holds.
pub record Env : Type 0 where
  pub server_shutdown_notice : Bool
  pub alive : Bool
  pub now : ℕ
  pub blank : Message

abbrev is_shutdown_req : MessageType → Bool
is_shutdown_req shutdown_req = true
is_shutdown_req _ = false

abbrev is_sign_in : MessageType → Bool
is_sign_in sign_in = true
is_sign_in _ = false

abbrev is_request : MessageType → Bool
is_request follow = true
is_request update = true
is_request _ = false

abbrev shut_down : Action (Unit {0})
shut_down = change λ s. record s { client_shutdown_notice = true }

unfoldable pub receive : Env → Recv → Action (Unit {0})
receive env would_block = pure tt
receive env refused = do
  pkt ← session_of (λ s. s.incoming_pkt)
  written ← write_socket env.alive pkt
  when (not written) shut_down
receive env closed = shut_down
receive env partial = pure tt
receive env (packet m) = change λ s. record s { incoming_pkt = m; data_read = true }

abbrev is_would_block : Recv → Bool
is_would_block would_block = true
is_would_block _ = false

-- The inner loop: it goes on while there is nothing to read, to send or to shut down for. The list
-- ends where the program would go on waiting.
unfoldable pub receive_loop : Env → List Recv → Action (Unit {0})
receive_loop env [] = pure tt
receive_loop env (r ∷ rs) = do
  receive env r
  idle ← session_of (λ s. s.outgoing_queue_empty)
  if not env.server_shutdown_notice && (is_would_block r && idle)
      then receive_loop env rs
      else pure tt

-- The messages that wait are written; a failure ends the connection. The queue is emptied anyway.
unfoldable pub send_all : Env → List Message → Action (Unit {0})
send_all env [] = pure tt
send_all env (m ∷ ms) = do
  written ← write_socket env.alive m
  if written then send_all env ms else shut_down

unfoldable pub flush_outgoing : Env → Action (Unit {0})
unfolding send_all
flush_outgoing env = do
  ms ← session_of (λ s. s.outgoing_messages)
  send_all env ms
  change λ s. elim ms [
    | [] ↦ s
    | m ∷ rest ↦ record s { outgoing_messages = []; outgoing_queue_empty = true }
  ]

-- The branch for `SIGN_IN`. The connection is registered whether or not the user was found.
unfoldable pub sign_in_client : Env → Message → Action (Unit {0})
sign_in_client env m = do
  name ← or_fault (c_str m.payload)
  index ← on_server (get_user_index name)
  change λ s. record s { client_index = index }
  registered ← on_server (on_connections (register_connection index))
  let accepted = not (index == minus_one) && registered
  ack_pkt ← or_fault (new_message env.blank (if accepted then ack else nack) env.now name)
  change λ s. record s { client_name = name }
  written ← write_socket env.alive ack_pkt
  change λ s. record s { client_shutdown_notice = if written then not accepted else true }

-- "User has not authenticated yet."
abbrev pub not_authenticated : List ℕ
not_authenticated =
    85 ∷ 115 ∷ 101 ∷ 114 ∷ 32 ∷ 104 ∷ 97 ∷ 115 ∷ 32 ∷ 110 ∷ 111 ∷ 116 ∷ 32 ∷ 97 ∷ 117 ∷ 116 ∷ 104
    ∷ 101 ∷ 110 ∷ 116 ∷ 105 ∷ 99 ∷ 97 ∷ 116 ∷ 101 ∷ 100 ∷ 32 ∷ 121 ∷ 101 ∷ 116 ∷ 46 ∷ []

unfoldable pub refuse : Env → Action (Unit {0})
refuse env = do
  bytes ← or_fault (strcpy env.blank.payload not_authenticated)
  write_socket env.alive (record env.blank { type = nack; payload = bytes })
  pure tt

unfoldable pub say_goodbye : Env → Action (Unit {0})
say_goodbye env = do
  shut_down
  write_socket env.alive
      (record env.blank { type = if env.server_shutdown_notice then shutdown_req else ack })
  pure tt

unfoldable pub enqueue : Message → Action (Unit {0})
enqueue m = change λ s. record s {
  incoming_messages = s.incoming_messages ++ m ∷ [];
  incoming_queue_empty = false;
}

-- What is done with a packet.
unfoldable pub dispatch : Env → Message → Action (Unit {0})
dispatch env m = do
  index ← session_of (λ s. s.client_index)
  if env.server_shutdown_notice || is_shutdown_req m.type
      then say_goodbye env
      else (if is_sign_in m.type
          then sign_in_client env m
          else (if index == minus_one
              then refuse env
              else (if is_request m.type then enqueue m else pure tt)))

-- What a round does with the packet that it has read, if any. On a shutdown it goes on without one.
unfoldable pub handle_packet : Env → Action (Unit {0})
handle_packet env = do
  fresh ← session_of (λ s. s.data_read)
  if not fresh && not env.server_shutdown_notice then pure tt else (do
    m ← session_of (λ s. s.incoming_pkt)
    dispatch env m
    change λ s. record s { data_read = false })

-- One round of the outer loop.
unfoldable pub connector_round : Env → List Recv → Action (Unit {0})
connector_round env rs = do receive_loop env rs; flush_outgoing env; handle_packet env

-- Behind the loop, when the other threads have ended.
unfoldable pub tear_down : Action Bool
tear_down = do
  index ← session_of (λ s. s.client_index)
  on_server (on_connections (close_connection index))

-- ===== src/Session/State.antt =====
-- What the threads of one connection share (`handle_client_connector`, src/main_server.cpp), beside
-- the server's tables. `sent` is what has been written to the socket.
use sisop2_tf.Base.{
  ℕ, Bool, true, false, List, [], ◌∷◌, ◌++◌, Program, ok, blocked, fault, gets, modify,
}
use sisop2_tf.Data.{minus_one}
use sisop2_tf.Message.{Message}
use sisop2_tf.Database.State.{Server}

pub record Session : Type 0 where
  pub outgoing_messages : List Message
  pub incoming_messages : List Message
  pub outgoing_queue_empty : Bool
  pub incoming_queue_empty : Bool
  pub client_shutdown_notice : Bool
  pub data_read : Bool
  pub incoming_pkt : Message
  pub client_index : ℕ
  pub client_name : List ℕ
  pub sent : List Message

pub record World : Type 0 where
  pub server : Server
  pub session : Session

abbrev pub Action : Type 0 → Type 0
Action A = Program World A

-- A call of `db_temp` or of `cm_temp`.
abbrev pub on_server : {A : Type 0} → Program Server A → Action A
on_server m w = elim (m w.server) [
  | ok a s ↦ ok a (record w { server = s })
  | blocked s ↦ blocked (record w { server = s })
  | fault ↦ fault
]

abbrev pub session_of : {A : Type 0} → (Session → A) → Action A
session_of f = gets λ w. f w.session

abbrev pub change : (Session → Session) → Action (Unit {0})
change f = modify λ w. record w { session = f w.session }

-- The start of `handle_client_connector`; `pkt` is what the memory of `incomingPkt` holds.
abbrev pub opened : Message → Session
opened pkt = record {
  outgoing_messages = [];
  incoming_messages = [];
  outgoing_queue_empty = true;
  incoming_queue_empty = true;
  client_shutdown_notice = false;
  data_read = false;
  incoming_pkt = pkt;
  client_index = minus_one;
  client_name = [];
  sent = [];
}

-- `write` to the socket, which succeeds while the client is there; whether it did.
abbrev pub write_socket : Bool → Message → Action Bool
write_socket alive m w = elim alive [
  | true ↦ ok true (record w { session = record w.session { sent = w.session.sent ++ m ∷ [] } })
  | false ↦ ok false w
]

-- ===== src/Client/Controller.antt =====
-- `client_controller`, `client_receiver` and `print_message` (src/Client.cpp). What `poll` reports in a
-- round, and whether seven seconds have passed, are parameters.
use sisop2_tf.Base.{
  ℕ, Bool, true, false, List, [], ◌∷◌, ◌++◌, Option, if◌then◌else◌, ok, blocked, pure, modify,
  or_fault, when, gets, ◌>>=◌, ◌>>◌,
}
use sisop2_tf.Message.{update, nack, shutdown_req, Message, c_str}
use sisop2_tf.Client.Sockets.{receive_message}
use sisop2_tf.Client.Shell.{Line, tweet_line, error_line, Action, look_for_server}
use sisop2_tf.Client.Sender.{text_of, client_sender, check_server_liveness}

abbrev pub put_line : Line → Action (Unit {0})
put_line l = modify λ w. record w { printed = w.printed ++ l ∷ [] }

unfoldable pub print_message : Message → Action (Unit {0})
print_message m = elim m.type [
  | update ↦ do
    author ← or_fault (c_str m.author)
    payload ← or_fault (c_str m.payload)
    put_line (tweet_line author m.timestamp payload)
  | nack ↦ do payload ← or_fault (c_str m.payload); put_line (error_line payload)
  | _ ↦ pure tt
]

-- The next `read` of the socket, which waits where nothing comes.
abbrev pub read_of : List (Option Message) → Action (Option Message)
read_of [] w = blocked w
read_of (r ∷ rs) w = ok r (record w { reads = rs })

abbrev next_read : Action (Option Message)
next_read w = read_of w.reads w

abbrev pub is_shutdown : Message → Bool
is_shutdown m = elim m.type [ shutdown_req ↦ true | _ ↦ false ]

-- Whether the program goes on.
unfoldable pub client_receiver : Message → ℕ → Action Bool
client_receiver blank now = do
  r ← next_read
  m ← or_fault (receive_message blank now r)
  if is_shutdown m then pure false else (do print_message m; pure true)

-- A line of the input; its end closes the client.
abbrev pub typed_line : Message → ℕ → List (List ℕ) → Action Bool
typed_line blank now [] w = ok false w
typed_line blank now (line ∷ rest) w =
    client_sender blank now (text_of line) (record w { input = rest })

abbrev print_all : List Message → Action (Unit {0})
print_all [] = pure tt
print_all (m ∷ ms) = do print_message m; print_all ms

abbrev unmark : Action (Unit {0})
unmark = modify λ w. record w { client = record w.client { inbox_has_item = false } }

-- What `poll` reports: an error of its own, or whether there is input, a packet, and a broken socket.
pub data Poll : Type 0 where
  poll_failed : Poll
  polled : Bool → Bool → Bool → Poll

pub record Turn : Type 0 where
  pub poll : Poll
  pub is_late : Bool
  pub now : ℕ

-- One round of the controller's loop; whether the program goes on.
abbrev pub after_event : Message → ℕ → Bool → Bool → Action Bool
after_event blank now late go =
    if go then (if late then check_server_liveness blank now else pure true) else pure false

abbrev pub on_event : Message → ℕ → Bool → Bool → Bool → Action Bool
on_event blank now typed readable hung_up =
    if typed
    then (λ w. typed_line blank now w.input w)
    else (if readable
        then client_receiver blank now
        else (if hung_up then look_for_server else pure true))

unfoldable pub round : Message → Turn → Action Bool
round blank turn = elim turn.poll [
  | poll_failed ↦ do
    client ← gets (λ w. w.client)
    when client.inbox_has_item (do print_all client.inbox; unmark)
    pure true
  | polled typed readable hung_up ↦
      on_event blank turn.now typed readable hung_up >>= after_event blank turn.now turn.is_late
]

unfoldable pub rounds : Message → List Turn → Action Bool
rounds blank [] = pure true
rounds blank (turn ∷ turns) =
    let rest : Action Bool = rounds blank turns in
    round blank turn >>= λ go. if go then rest else pure false

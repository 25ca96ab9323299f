-- ===== src/Session/Unsigned.antt =====
-- A connection whose client has not signed in (src/main_server.cpp).
use sisop2_tf.Base.{
  ◌>>=◌, ℕ, ◌≡◌, ◌≢◌, true, false, some, List, [], ◌∷◌, ◌++◌, arith, ltb, length, ok, fault,
}
use sisop2_tf.Data.{TweetData, minus_one}
use sisop2_tf.Message.{Message, nack, sign_in, shutdown_req, strcpy}
use sisop2_tf.Connections.Limit.{at_rest as manager_at_rest}
use sisop2_tf.Connections.Refusal.{close_connection-nobody}
use sisop2_tf.Connections.{ConnectionManager, does_client_have_duplicate_tweets}
use sisop2_tf.Database.State.{Tables, at_rest}
use sisop2_tf.Database.Tables.{IsValid}
use sisop2_tf.Database.Retrieve.{does_client_have_pending_tweets}
use sisop2_tf.Session.State.{Session, opened}
use sisop2_tf.Session.Connector.{tear_down, say_goodbye, Env, dispatch, refuse, not_authenticated}
use sisop2_tf.Session.Listener.{listener_check}
use sisop2_tf.Session.SignIn.{world}

-- The NACK for a client that has not signed in.
abbrev pub refusal : Env → List ℕ → Message
refusal env bytes = record env.blank { type = nack; payload = bytes }

-- Before a sign-in, while the client can be written to and the server is not shutting down, every
-- packet but `SIGN_IN` and `SHUTDOWN_REQ`, `RECONNECT` included, is answered by a NACK and changes
-- nothing else, neither in the tables nor in the queues.
pub dispatch_unsigned :
    (env : Env) (t : Tables) (c : ConnectionManager) (s : Session) (m : Message) (bytes : List ℕ)
    → env.server_shutdown_notice ≡ false
    → env.alive ≡ true
    → s.client_index ≡ minus_one
    → m.type ≢ sign_in
    → m.type ≢ shutdown_req
    → strcpy env.blank.payload not_authenticated ≡ some bytes
    → dispatch env m (world t c s)
      ≡ ok tt (world t c (record s { sent = s.sent ++ refusal env bytes ∷ [] }))
unfolding dispatch refuse
dispatch_unsigned env t c s m bytes up alive unsigned n₁ n₂ fits = ground arith

-- The index -1 lies outside the list of pending tweets.
pending_unsigned :
    (t : Tables) (c : ConnectionManager)
    → IsValid t
    → does_client_have_pending_tweets minus_one (at_rest t c) ≡ fault
unfolding does_client_have_pending_tweets
pending_unsigned t c v =
    let outside : ltb minus_one (length t.list_of_pending_tweets) ≡ false =
      ground (arith, v.pending_paired, v.few_users) in
    ground (arith, outside)

-- The first check of a listener, on a connection that is just opened, reads the list of pending
-- tweets at index -1.
pub listener_check_unsigned :
    (t : Tables) (c : ConnectionManager) (pkt : Message)
    → IsValid t
    → listener_check (world t c (opened pkt)) ≡ fault
unfolding listener_check does_client_have_duplicate_tweets
listener_check_unsigned t c pkt v = ground (arith, pending_unsigned t c v)

-- While nobody is counted as connected, when a client asks for the shutdown of its connection, as one
-- does that has not signed in, the end of the connection reads past the end of the list of connected
-- users.
pub dispatch-tear_down :
    (env : Env) (t : Tables) (ds : List (List TweetData)) (s : Session) (m : Message)
    → m.type ≡ shutdown_req
    → (dispatch env m >>= λ _. tear_down) (world t (manager_at_rest [] ds) s) ≡ fault
unfolding dispatch say_goodbye tear_down
dispatch-tear_down env t ds s m asks =
    ground (arith, asks, close_connection-nobody s.client_index ds)

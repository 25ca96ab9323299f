-- ===== src/Client/Reconnect.antt =====
-- A client that signs in again (src/Client.cpp) against the server's connector (src/main_server.cpp).
use sisop2_tf.Base.{ℕ, ◌≡◌, refl, true, false, List, [], ◌∷◌, Option, some, arith, ok}
use sisop2_tf.Message.{Message, reconnect, strcpy, new_message}
use sisop2_tf.Connections.{ConnectionManager}
use sisop2_tf.Database.State.{Tables}
use sisop2_tf.Session.State.{opened}
use sisop2_tf.Session.Connector.{Env, dispatch, not_authenticated}
use sisop2_tf.Session.SignIn.{world}
use sisop2_tf.Session.Unsigned.{refusal, dispatch_unsigned}
use sisop2_tf.Client.{
  ClientState, exited, first_message, sign_in_to, wait_server_response, wait_loop,
}

first_message-type :
    (blank : Message) (now : ℕ) (username : List ℕ) (s : ClientState) (m : Message)
    → first_message blank false now username s ≡ some m
    → m.type ≡ reconnect
unfolding first_message new_message
first_message-type blank now username s m e = ground (arith, e)

refusal-exits :
    (env : Env) (bytes : List ℕ) (rest : List (Option Message)) (s : ClientState)
    → sign_in_to true true (some (refusal env bytes) ∷ rest) s
      ≡ exited (record s { inbox_has_item = false })
unfolding sign_in_to wait_server_response wait_loop
refusal-exits env bytes rest s = refl

-- A client that connects anew, as it does when its connection is lost, sends RECONNECT, and the
-- server's connector, if the client can be written to and the server is not shutting down, answers it
-- by a NACK and changes nothing else, whatever user id it names; when it gets that answer first, the
-- client's program ends.
pub first_message-exits :
    (env : Env) (t : Tables) (c : ConnectionManager) (blank pkt m : Message) (now : ℕ)
    (username bytes : List ℕ) (rest : List (Option Message)) (s : ClientState)
    → env.server_shutdown_notice ≡ false
    → env.alive ≡ true
    → strcpy env.blank.payload not_authenticated ≡ some bytes
    → first_message blank false now username s ≡ some m
    → (dispatch env m (world t c (opened pkt))
        ≡ ok tt (world t c (record (opened pkt) { sent = refusal env bytes ∷ [] })))
      × (sign_in_to true true (some (refusal env bytes) ∷ rest) s
          ≡ exited (record s { inbox_has_item = false }))
first_message-exits env t c blank pkt m now username bytes rest s up alive fits packet =
    let is_reconnect = first_message-type blank now username s m packet in
    (
      dispatch_unsigned env t c (opened pkt) m bytes up alive refl (ground (arith, is_reconnect))
          (ground (arith, is_reconnect)) fits,
      refusal-exits env bytes rest s,
    )

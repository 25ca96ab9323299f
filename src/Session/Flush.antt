-- ===== src/Session/Flush.antt =====
-- What the connector (src/main_server.cpp) writes to the socket in a round.
use sisop2_tf.Base.{
  ℕ, zero, suc, Bool, true, false, List, [], ◌∷◌, ◌++◌, ◌≡◌, refl, arith, if◌then◌else◌, ok,
  append-nil, append_assoc, inl, inr, Bool-cases, List-cases,
}
use sisop2_tf.Message.{Message}
use sisop2_tf.Session.State.{Session, World}
use sisop2_tf.Session.Connector.{
  Env, Recv, would_block, receive, receive_loop, send_all, flush_outgoing,
}

abbrev with_sent : World → List Message → World
with_sent w ms = record w { session = record w.session { sent = ms } }

send_all-sent :
    (env : Env) (ms : List Message) (w : World)
    → env.alive ≡ true
    → send_all env ms w ≡ ok tt (with_sent w (w.session.sent ++ ms))
unfolding send_all
send_all-sent env [] w alive = ground (arith, append-nil w.session.sent)
send_all-sent env (m ∷ ms) w alive = ground (
  arith,
  alive,
  send_all-sent env ms (with_sent w (w.session.sent ++ m ∷ [])) alive,
  append_assoc w.session.sent (m ∷ []) ms,
)

-- The session when its queue has been flushed: what waited is written, or lost with the connection.
abbrev pub flushed : Bool → Session → List Message → Session
flushed alive s [] = s
flushed alive s (m ∷ ms) = record s {
  outgoing_messages = [];
  outgoing_queue_empty = true;
  client_shutdown_notice = if alive then s.client_shutdown_notice else true;
  sent = if alive then s.sent ++ m ∷ ms else s.sent;
}

-- Flushing the queue of the connector, if the client can be written to, writes all messages that wait
-- in their order and empties the queue; if it cannot, nothing is written, the queue is emptied all the
-- same and the connection is to end. An empty queue changes nothing.
pub flush_outgoing-flushed :
    (env : Env) (w : World)
    → flush_outgoing env w
      ≡ ok tt (record w { session = flushed env.alive w.session w.session.outgoing_messages })
unfolding flush_outgoing send_all
flush_outgoing-flushed env w = elim (List-cases w.session.outgoing_messages) [
  | inl nothing ↦ ground (arith, nothing)
  | inr (m, ms, waiting) ↦ elim (Bool-cases env.alive) [
    | inl alive ↦ ground (
      arith,
      waiting,
      alive,
      send_all-sent env ms (with_sent w (w.session.sent ++ m ∷ [])) alive,
      append_assoc w.session.sent (m ∷ []) ms,
    )
    | inr gone ↦ ground (arith, waiting, gone)
  ]
]

-- So many times nothing to read.
abbrev pub waits : ℕ → List Recv → List Recv
waits zero rs = rs
waits (suc n) rs = would_block ∷ waits n rs

-- While no shutdown is ordered, nothing comes from the client and the queue is marked as empty, the
-- inner loop of the connector goes on, whatever messages wait in the queue, and changes nothing.
pub receive_loop-waits :
    (env : Env) (n : ℕ) (rs : List Recv) (w : World)
    → env.server_shutdown_notice ≡ false
    → w.session.outgoing_queue_empty ≡ true
    → receive_loop env (waits n rs) w ≡ receive_loop env rs w
unfolding receive_loop receive
receive_loop-waits env zero rs w up marked = refl
receive_loop-waits env (suc n) rs w up marked =
    ground (arith, up, marked, receive_loop-waits env n rs w up marked)

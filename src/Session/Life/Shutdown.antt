-- ===== src/Session/Life/Shutdown.antt =====
-- Connections when the server is shut down (src/main_server.cpp).
use sisop2_tf.Base.{
  ℕ, ◌+◌, ◌^◌, ◌<◌, All, ◌≡◌, refl, ◌∙◌, Bool, true, false, List, [], ◌∷◌, ◌++◌, length, arith, ok,
  >>=-ok, ◌>>◌, if◌then◌else◌, Bool-cases, inl, inr,
}
use sisop2_tf.Data.{TweetData}
use sisop2_tf.Message.{Message, shutdown_req}
use sisop2_tf.Connections.{ConnectionManager}
use sisop2_tf.Connections.Limit.{IsValid as IsValidManager, sessions}
use sisop2_tf.Database.State.{Tables}
use sisop2_tf.Database.Tables.{IsValid}
use sisop2_tf.Session.State.{Session}
use sisop2_tf.Session.SignIn.{world}
use sisop2_tf.Session.Requests.{IsUpdate}
use sisop2_tf.Session.Flush.{flushed, flush_outgoing-flushed}
use sisop2_tf.Session.Connector.{
  Env, Recv, would_block, refused, closed, partial, packet, receive, receive_loop, flush_outgoing,
  handle_packet, connector_round, dispatch, say_goodbye,
}
use sisop2_tf.Session.Life.{serving, ListenerPlace, connects}
use sisop2_tf.Session.Life.Joins.{life}
use sisop2_tf.Session.Life.Turns.{Log, in_world-ok, serving_turn}
use sisop2_tf.Session.Life.Requests.{posted, Follows}
use sisop2_tf.Session.Life.Ends.{carried}
use sisop2_tf.Session.Life.Closing.{ending, EndsWith, next-EndsWith, ordered-EndsWith}

-- The packet that says so.
abbrev pub goodbye : Env → Message
goodbye env = record env.blank { type = shutdown_req }

-- The client and its requests stay.
abbrev Stays : Session → Session → Type 0
Stays s u = (u.client_index ≡ s.client_index) × (u.incoming_messages ≡ s.incoming_messages)

flushed-Stays : (alive : Bool) (s : Session) (ms : List Message) → Stays s (flushed alive s ms)
flushed-Stays alive s [] = (refl, refl)
flushed-Stays alive s (m ∷ ms) = (refl, refl)

module _ (env : Env) (t : Tables) (c : ConnectionManager)
    (down : env.server_shutdown_notice ≡ true) where
  received :
      (r : Recv) (s : Session)
      → (u : Session) × (receive env r (world t c s) ≡ ok tt (world t c u)) × Stays s u
  unfolding receive
  received would_block s = (s, refl, (refl, refl))
  received refused s = elim (Bool-cases env.alive) [
    | inl alive ↦
        (record s { sent = s.sent ++ s.incoming_pkt ∷ [] }, ground (arith, alive), (refl, refl))
    | inr gone ↦ (record s { client_shutdown_notice = true }, ground (arith, gone), (refl, refl))
  ]
  received closed s = (record s { client_shutdown_notice = true }, refl, (refl, refl))
  received partial s = (s, refl, (refl, refl))
  received (packet m) s = (record s { incoming_pkt = m; data_read = true }, refl, (refl, refl))

  read_once :
      (rs : List Recv) (s : Session)
      → (u : Session) × (receive_loop env rs (world t c s) ≡ ok tt (world t c u)) × Stays s u
  unfolding receive_loop
  read_once [] s = (s, refl, (refl, refl))
  read_once (r ∷ rs) s = let (u, run, stays) = received r s in (u, ground (arith, run, down), stays)

  -- The session when the connector has said goodbye.
  abbrev dismissed : Session → Session
  dismissed s = record s {
    client_shutdown_notice = true;
    sent = if env.alive then s.sent ++ goodbye env ∷ [] else s.sent;
    data_read = false;
  }

  handle_packet-dismissed :
      (s : Session) → handle_packet env (world t c s) ≡ ok tt (world t c (dismissed s))
  unfolding handle_packet dispatch say_goodbye
  handle_packet-dismissed s = ground (arith, down)

  pub connector_round-dismissed :
      (rs : List Recv) (s : Session)
      → (u : Session) × (connector_round env rs (world t c s) ≡ ok tt (world t c (dismissed u)))
        × Stays s u
  unfolding connector_round
  connector_round-dismissed rs s =
      let (u, run, (index, incoming)) = read_once rs s in
      let (index', incoming') = flushed-Stays env.alive u u.outgoing_messages in
      let u' = flushed env.alive u u.outgoing_messages in
      (
        u',
        >>=-ok (receive_loop env rs) (λ _. flush_outgoing env >> handle_packet env) run
            ∙ >>=-ok (flush_outgoing env) (λ _. handle_packet env)
                (flush_outgoing-flushed env (world t c u))
            ∙ handle_packet-dismissed u',
        (index' ∙ index, incoming' ∙ incoming),
      )

-- When the server's shutdown is ordered, with valid tables and a valid manager, while tweet numbers last,
-- a connection that serves a known user with a session and whose requests that wait are well-formed
-- UPDATE requests, whatever its client sends in the next round and whether or not it is still there,
-- ends by two turns of its connector, two of its speaker, two of its listener and a last one of its
-- connector, and none of them waits for ever: it is closed, one session fewer is counted for the user
-- and none fewer for others, and the requests that wait are posted if the speaker stands in its inner
-- loop, and are lost else.
pub connects-EndsWith :
    (junk : TweetData) (blank : Message) (env : Env) (rs : List Recv) (t : Tables)
    (c : ConnectionManager) (user : ℕ) (sent : List Message) (g : Log) (l : ListenerPlace)
    (s : Session)
    → env.server_shutdown_notice ≡ true
    → IsValid t
    → IsValidManager c
    → user < length t.list_of_users
    → 0 < sessions c user
    → All (IsUpdate junk blank) g.todo
    → t.num_tweets + length g.done + length g.todo < 2 ^ 31
    → Follows junk blank t c user sent g.done g.todo s
    → EndsWith junk blank t c user sent
        (carried g.done g.todo g.place)
        (connects env rs ∷ connects env [] ∷ ending env)
        (life (world (posted junk blank t c user sent g.done) c s) serving g.place l)
connects-EndsWith junk blank env rs t c user sent g l s down v valid known online updates room f =
    let t' = posted junk blank t c user sent g.done in
    let (u, run, (index, incoming)) = connector_round-dismissed env t' c down rs s in
    next-EndsWith junk blank t c user sent (connects env rs) (connects env [] ∷ ending env) _
      (life (world t' c (dismissed env t' c down u)) serving g.place l)
      (carried g.done g.todo g.place)
      (serving_turn junk blank env rs (world t' c s) g.place l f.notice
        ∙ in_world-ok (connector_round env rs) (life (world t' c s) serving g.place l) run)
      (ordered-EndsWith junk blank t c user sent env g.done g.todo g.place l
        (dismissed env t' c down u) v valid known online (updates, omega (arith, room))
        (index ∙ f.index) (incoming ∙ f.incoming) refl)

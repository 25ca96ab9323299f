-- ===== src/Session/Life/Rounds.antt =====
-- Rounds of the connector (src/main_server.cpp) that read one packet.
use sisop2_tf.Base.{
  ◌≡◌, ◌<◌, refl, true, false, List, [], ◌∷◌, ◌++◌, length, arith, ok, ◌>>◌, >>=-ok, subst,
  append-nil, ap, ◌∙◌, sym,
}
use sisop2_tf.Message.{update, shutdown_req, ack, Message}
use sisop2_tf.Connections.{ConnectionManager}
use sisop2_tf.Database.State.{Tables}
use sisop2_tf.Database.Tables.{IsValid}
use sisop2_tf.Session.State.{Session, World, change}
use sisop2_tf.Session.Connector.{
  Env, packet, would_block, receive, receive_loop, connector_round, dispatch, flush_outgoing,
  handle_packet, say_goodbye,
}
use sisop2_tf.Session.SignIn.{world}
use sisop2_tf.Session.Flush.{flushed, flush_outgoing-flushed}
use sisop2_tf.Session.Interleaving.{dispatch-update}

-- The session when a packet has been read and what waits has been written.
abbrev pub read_in : Session → Message → Session
read_in s m = flushed true (record s { incoming_pkt = m; data_read = true }) s.outgoing_messages

-- What a flush leaves.
pub record IsFlushed (s : Session) (ms : List Message) (u : Session) : Type 0 where
  pub written : u.sent ≡ s.sent ++ ms
  pub emptied : u.outgoing_messages ≡ []
  pub incoming : u.incoming_messages ≡ s.incoming_messages
  pub marked : u.incoming_queue_empty ≡ s.incoming_queue_empty
  pub user : u.client_index ≡ s.client_index
  pub notice : u.client_shutdown_notice ≡ s.client_shutdown_notice
  pub fresh : u.data_read ≡ s.data_read
  pub pkt : u.incoming_pkt ≡ s.incoming_pkt

pub flushed-IsFlushed :
    (s : Session) (ms : List Message)
    → s.outgoing_messages ≡ ms
    → IsFlushed s ms (flushed true s ms)
flushed-IsFlushed s [] e = record {
  written = sym (append-nil s.sent);
  emptied = e;
  incoming = refl;
  marked = refl;
  user = refl;
  notice = refl;
  fresh = refl;
  pkt = refl;
}
flushed-IsFlushed s (x ∷ xs) e = record {
  written = refl;
  emptied = refl;
  incoming = refl;
  marked = refl;
  user = refl;
  notice = refl;
  fresh = refl;
  pkt = refl;
}

abbrev arrived : Session → Message → Session
arrived s m = record s { incoming_pkt = m; data_read = true }

pub read_in-IsFlushed :
    (s : Session) (m : Message) → IsFlushed (arrived s m) s.outgoing_messages (read_in s m)
read_in-IsFlushed s m = flushed-IsFlushed (arrived s m) s.outgoing_messages refl

abbrev pub put_down : Session → Session
put_down u = record u { data_read = false }

handle_packet-dispatch :
    (env : Env) (w : World) (m : Message)
    → w.session.data_read ≡ true
    → w.session.incoming_pkt ≡ m
    → handle_packet env w ≡ (dispatch env m >> change put_down) w
unfolding handle_packet
handle_packet-dispatch env w m fresh pkt = rw (fresh, pkt) refl

module _ (env : Env) (t : Tables) (c : ConnectionManager) (s : Session) (m : Message)
    (up : env.server_shutdown_notice ≡ false) (alive : env.alive ≡ true) where
  -- The packet is read, what waits is written, and then the packet is handled.
  pub connector_round-dispatch :
      connector_round env (packet m ∷ []) (world t c s)
      ≡ (dispatch env m >> change put_down) (world t c (read_in s m))
  unfolding connector_round receive_loop receive
  connector_round-dispatch =
      let facts = read_in-IsFlushed s m in
      let flush : flush_outgoing env (world t c (arrived s m)) ≡ ok tt (world t c (read_in s m)) =
        flush_outgoing-flushed env (world t c (arrived s m))
        ∙ ap (λ b. ok tt (world t c (flushed b (arrived s m) s.outgoing_messages))) alive in
      let reads : connector_round env (packet m ∷ []) (world t c s)
          ≡ (flush_outgoing env >> handle_packet env) (world t c (arrived s m)) =
        rw up refl in
      reads
      ∙ >>=-ok (flush_outgoing env) (λ _. handle_packet env) flush
      ∙ handle_packet-dispatch env (world t c (read_in s m)) m facts.fresh facts.pkt

  -- A request is queued.
  pub connector_round-update :
      IsValid t
      → s.client_index < length t.list_of_users
      → m.type ≡ update
      → connector_round env (packet m ∷ []) (world t c s)
        ≡ ok tt (
            world t c (record (read_in s m) {
              incoming_messages = (read_in s m).incoming_messages ++ m ∷ [];
              incoming_queue_empty = false;
              data_read = false;
            }))
  connector_round-update v known is_update =
      let user = (read_in-IsFlushed s m).user in
      connector_round-dispatch
      ∙ >>=-ok (dispatch env m) (λ _. change put_down)
          (dispatch-update env t c (read_in s m) m up v
            (subst (λ i. i < length t.list_of_users) (sym user) known) is_update)

  -- A client that asks for the end gets an ACK.
  pub connector_round-shutdown :
      m.type ≡ shutdown_req
      → connector_round env (packet m ∷ []) (world t c s)
        ≡ ok tt (
            world t c (record (read_in s m) {
              client_shutdown_notice = true;
              sent = (read_in s m).sent ++ record env.blank { type = ack } ∷ [];
              data_read = false;
            }))
  unfolding dispatch say_goodbye
  connector_round-shutdown asks =
      connector_round-dispatch
      ∙ >>=-ok (dispatch env m) (λ _. change put_down) (dispatch-shutdown (read_in s m))
    where
      dispatch-shutdown :
          (u : Session)
          → dispatch env m (world t c u)
            ≡ ok tt (
                world t c (record u {
                  client_shutdown_notice = true;
                  sent = u.sent ++ record env.blank { type = ack } ∷ [];
                }))
      dispatch-shutdown u = ground (arith, up, alive, asks)

quiet_packet :
    (env : Env) (w : World)
    → env.server_shutdown_notice ≡ false
    → w.session.data_read ≡ false
    → handle_packet env w ≡ ok tt w
unfolding handle_packet
quiet_packet env w up stale = ground (arith, up, stale)

-- A round that finds messages in the queue and nothing to read writes what waits.
pub connector_round-quiet :
    (env : Env) (w : World)
    → env.server_shutdown_notice ≡ false
    → env.alive ≡ true
    → w.session.outgoing_queue_empty ≡ false
    → w.session.data_read ≡ false
    → connector_round env (would_block ∷ []) w
      ≡ ok tt (record w { session = flushed true w.session w.session.outgoing_messages })
unfolding connector_round receive_loop receive
connector_round-quiet env w up alive marked stale =
    let u : World = record w { session = flushed true w.session w.session.outgoing_messages } in
    let flush : flush_outgoing env w ≡ ok tt u =
      flush_outgoing-flushed env w
      ∙ ap (λ b. ok tt (record w { session = flushed b w.session w.session.outgoing_messages }))
          alive in
    let reads : connector_round env (would_block ∷ []) w
        ≡ (flush_outgoing env >> handle_packet env) w =
      rw (up, marked) refl in
    reads
    ∙ >>=-ok (flush_outgoing env) (λ _. handle_packet env) flush
    ∙ quiet_packet env u up
        ((flushed-IsFlushed w.session w.session.outgoing_messages refl).fresh ∙ stale)

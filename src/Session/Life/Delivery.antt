-- ===== src/Session/Life/Delivery.antt =====
-- From the tables to the client (src/main_server.cpp): what the listener finds, and what the connector
-- writes to the socket.
use sisop2_tf.Base.{
  ℕ, ◌<◌, ◌≡◌, refl, ap, ◌∙◌, Bool, true, false, not, ◌||◌, ◌==◌, List, [], ◌∷◌, ◌++◌, length,
  arith, ok, pure, ◌>>◌, >>=-ok, if◌then◌else◌, Returns-ok, All,
}
use sisop2_tf.Data.{TweetData}
use sisop2_tf.Message.{Message}
use sisop2_tf.Connections.{ConnectionManager}
use sisop2_tf.Connections.Limit.{IsValid as IsValidManager, sessions}
use sisop2_tf.Connections.Duplicates.{kept, does_client_have_duplicate_tweets-kept}
use sisop2_tf.Database.State.{Tables, Server}
use sisop2_tf.Database.Tables.{IsValid}
use sisop2_tf.Database.Retrieve.{pending_of, does_client_have_pending_tweets}
use sisop2_tf.Database.RetrieveRun.{FetchOutcome}
use sisop2_tf.Session.State.{Session, World}
use sisop2_tf.Session.Listener.{listener_check, listener_deliver}
use sisop2_tf.Session.SignIn.{world}
use sisop2_tf.Session.Flush.{flushed}
use sisop2_tf.Session.Deliver.{
  IsSendable, packets_of, QueuesFetched, listener_deliver-QueuesFetched,
}
use sisop2_tf.Session.Connector.{Env, would_block, connector_round}
use sisop2_tf.Session.Life.{
  serving, SpeakerPlace, checking, cleared, deaf, in_world, listener_goes, listener_turn, Turn,
  connects, listens, take_turn, take_turns,
}
use sisop2_tf.Session.Life.Joins.{life}
use sisop2_tf.Session.Life.Turns.{in_world-ok, serving_turn}
use sisop2_tf.Session.Life.Serving.{take_turns-next}
use sisop2_tf.Session.Life.Rounds.{IsFlushed, flushed-IsFlushed, connector_round-quiet}

-- Whether there is a tweet for a user: one that is pending, or one that was kept.
abbrev pub has_tweets : Tables → ConnectionManager → ℕ → Bool
has_tweets t c user = not (length (pending_of t user) == 0) || not (length (kept c user) == 0)

-- A check of the listener for a signed-in client that there is a tweet for.
check_found :
    (t : Tables) (c : ConnectionManager) (s : Session)
    → IsValid t
    → IsValidManager c
    → s.client_index < length t.list_of_users
    → 0 < sessions c s.client_index
    → has_tweets t c s.client_index ≡ true
    → listener_check (world t c s) ≡ ok true (world t c s)
unfolding listener_check does_client_have_pending_tweets
check_found t c s v m known online found =
    let user = s.client_index in
    let kept' =
      does_client_have_duplicate_tweets-kept user c (omega (arith, known, v.few_users)) m online in
    ground (arith, kept', found, v.pending_paired, known)

-- The listener finds the tweets, and fetches them; then the connector finds them in its queue.
abbrev pub delivery : Env → List Turn
delivery env = listens ∷ listens ∷ connects env (would_block ∷ []) ∷ []

-- What a delivery owes: what is fetched is written behind what waited, and the threads are where
-- they were.
abbrev pub Delivers :
    TweetData → Message → Env → Tables → ConnectionManager → Session → SpeakerPlace → Type 0
Delivers junk blank env t c s sp =
    (ws : List TweetData) × (server : Server) × (u : Session) × (take_turns junk blank
        (delivery env) (life (world t c s) serving sp checking)
      ≡ ok tt (life (record { server = server; session = u }) serving sp checking))
    × FetchOutcome t c s.client_index (pending_of t s.client_index) ws server
    × IsFlushed s (s.outgoing_messages ++ packets_of t blank ws) u

abbrev queued : Session → List Message → Session
queued s ms = record s { outgoing_messages = ms; outgoing_queue_empty = false }

-- What a flush of a new queue leaves.
queued-IsFlushed :
    (s : Session) (ms : List Message) → IsFlushed s ms (flushed true (queued s ms) ms)
queued-IsFlushed s ms =
    let facts = flushed-IsFlushed (queued s ms) ms refl in
    record {
      written = facts.written;
      emptied = facts.emptied;
      incoming = facts.incoming;
      marked = facts.marked;
      user = facts.user;
      notice = facts.notice;
      fresh = facts.fresh;
      pkt = facts.pkt;
    }

module _ (junk : TweetData) (blank : Message) where
  found_turn :
      (w : World) (sp : SpeakerPlace)
      → listener_check w ≡ ok true w
      → take_turn junk blank listens (life w serving sp checking)
        ≡ ok tt (life w serving sp cleared)
  unfolding take_turn listener_turn
  found_turn w sp e =
      >>=-ok (in_world listener_check) (λ go. if go then listener_goes cleared else pure tt)
        (in_world-ok listener_check (life w serving sp checking) e)

  deliver_turn :
      (w : World) (sp : SpeakerPlace) {w' : World}
      → w.session.client_shutdown_notice ≡ false
      → listener_deliver blank w ≡ ok tt w'
      → take_turn junk blank listens (life w serving sp cleared)
        ≡ ok tt (life w' serving sp checking)
  unfolding take_turn listener_turn
  deliver_turn w sp quiet e =
      ap
        (λ b.
          (if b
              then listener_goes deaf
              else (in_world (listener_deliver blank) >> listener_goes checking))
            (life w serving sp cleared))
        quiet
      ∙ >>=-ok (in_world (listener_deliver blank)) (λ _. listener_goes checking)
          (in_world-ok (listener_deliver blank) (life w serving sp cleared) e)

-- On valid tables and a valid manager, while a connection serves a known user with a session for whom
-- there is a tweet, is not to end and has no packet to handle, while the client can be written to and
-- the server is not shutting down, and when packets can hold all tweets that are stored or kept: two
-- turns of the listener and a round of the connector that has nothing to read return. What
-- `retrieveTweetsFromFollowed` yields has then been written to the client, one UPDATE packet for each
-- tweet, in order and behind all that waited in the queue; the queue is empty, the requests that wait
-- are as they were, and the listener looks for tweets again.
pub take_turns-Delivers :
    (junk : TweetData) (blank : Message) (env : Env) (t : Tables) (c : ConnectionManager)
    (s : Session) (sp : SpeakerPlace)
    → IsValid t
    → IsValidManager c
    → s.client_index < length t.list_of_users
    → 0 < sessions c s.client_index
    → has_tweets t c s.client_index ≡ true
    → s.client_shutdown_notice ≡ false
    → s.data_read ≡ false
    → env.server_shutdown_notice ≡ false
    → env.alive ≡ true
    → All (All (IsSendable t blank)) t.list_of_received_tweets
    → All (All (IsSendable t blank)) c.list_of_duplicated_tweets
    → Delivers junk blank env t c s sp
unfolding take_turns
take_turns-Delivers junk blank env t c s sp v m known online found quiet stale up alive rows keeps =
    let (_, w, run, (ws, facts, same)) =
      Returns-ok (λ _ w. QueuesFetched t c s blank w) _
        (listener_deliver-QueuesFetched t c s blank v m known online rows keeps) in
    let sent = s.outgoing_messages ++ packets_of t blank ws in
    let q = queued s sent in
    let at : w ≡ record { server = w.server; session = q } =
      ap (λ u. record { server = w.server; session = u }) same in
    let w' : World = record { server = w.server; session = q } in
    (
      ws,
      w.server,
      _,
      take_turns-next junk blank listens (listens ∷ connects env (would_block ∷ []) ∷ []) _
            (found_turn junk blank (world t c s) sp (check_found t c s v m known online found))
          ∙ take_turns-next junk blank listens (connects env (would_block ∷ []) ∷ []) _
              (deliver_turn junk blank (world t c s) sp quiet (run ∙ ap (ok tt) at))
          ∙ take_turns-next junk blank (connects env (would_block ∷ [])) [] _ (
              serving_turn junk blank env (would_block ∷ []) w' sp checking quiet
              ∙ in_world-ok (connector_round env (would_block ∷ [])) (life w' serving sp checking)
                  (connector_round-quiet env w' up alive refl stale)),
      facts,
      queued-IsFlushed s sent,
    )

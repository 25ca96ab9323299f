-- ===== src/Session/Listener.antt =====
-- `handle_client_listener` (src/main_server.cpp): its check for new tweets, and one delivery of them
-- to the queue of the connector.
use sisop2_tf.Base.{Bool, true, false, List, [], ◌∷◌, ◌++◌, ◌>>=◌, ◌>>◌, pure, or_fault}
use sisop2_tf.Data.{TweetData}
use sisop2_tf.Message.{update, Message, c_str, set_type, set_timestamp, set_payload, set_author}
use sisop2_tf.Connections.{does_client_have_duplicate_tweets}
use sisop2_tf.Database.State.{on_connections}
use sisop2_tf.Database.Users.{get_user_name}
use sisop2_tf.Database.Retrieve.{does_client_have_pending_tweets, retrieve_tweets_from_followed}
use sisop2_tf.Session.State.{Action, on_server, session_of, change}

-- One round of the waiting loop: the predicates of the two waits, as they are first evaluated, and
-- the tests that follow them. The waits end by their time in any case.
unfoldable pub listener_check : Action Bool
listener_check = do
  index ← session_of (λ s. s.client_index)
  on_server (on_connections (does_client_have_duplicate_tweets index))
  on_server (does_client_have_pending_tweets index)
  found ← on_server (does_client_have_pending_tweets index)
  stop ← session_of (λ s. s.client_shutdown_notice)
  pure (elim found [ true ↦ true | false ↦ stop ])

-- The packet for one tweet.
unfoldable pub push_tweet : Message → TweetData → Action (Unit {0})
push_tweet blank w = do
  name ← on_server (get_user_name w.author_id)
  text ← or_fault (c_str w.payload)
  written ← or_fault (set_payload text (set_timestamp w.timestamp (set_type update blank)))
  pkt ← or_fault (set_author name written)
  change λ s. record s { outgoing_messages = s.outgoing_messages ++ pkt ∷ [] }

unfoldable pub push_tweets : Message → List TweetData → Action (Unit {0})
push_tweets blank [] = pure tt
push_tweets blank (w ∷ ws) = do push_tweet blank w; push_tweets blank ws

-- What the loop does when its check has found tweets.
unfoldable pub listener_deliver : Message → Action (Unit {0})
listener_deliver blank = do
  index ← session_of (λ s. s.client_index)
  tweets ← on_server (retrieve_tweets_from_followed index)
  push_tweets blank tweets
  change λ s. record s { outgoing_queue_empty = false }

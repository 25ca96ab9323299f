-- ===== src/Session/Speaker.antt =====
-- `handle_client_speaker` (src/main_server.cpp): one pass over the requests of the client.
use sisop2_tf.Base.{◌%◌, ◌^◌, true, List, [], ◌∷◌, ◌++◌, ◌>>=◌, ◌>>◌, pure, or_fault, if◌then◌else◌}
use sisop2_tf.Data.{TweetData}
use sisop2_tf.Message.{
  MessageType, ack, follow, update, Message, c_str, strcpy, set_type, set_timestamp, set_payload,
}
use sisop2_tf.Database.Follow.{post_follow}
use sisop2_tf.Database.Update.{post_update}
use sisop2_tf.Session.State.{Action, on_server, session_of, change}

-- `ackPkt`, and `nackPkt`, which is given the same type.
reply : Message → Message → MessageType → Action (Unit {0})
reply blank m type = do
  text ← or_fault (c_str m.payload)
  pkt ← or_fault (set_payload text (set_timestamp m.timestamp (set_type type blank)))
  change λ s. record s { outgoing_messages = s.outgoing_messages ++ pkt ∷ [] }

unfoldable pub handle_follow : Message → Message → Action (Unit {0})
unfolding reply
handle_follow blank m = do
  target ← or_fault (c_str m.payload)
  index ← session_of (λ s. s.client_index)
  success ← on_server (post_follow target index m.timestamp)
  if success then reply blank m ack else reply blank m ack

-- `junk` is what the memory of `newTweet` holds.
unfoldable pub handle_update : TweetData → Message → Message → Action (Unit {0})
unfolding reply
handle_update junk blank m = do
  index ← session_of (λ s. s.client_index)
  text ← or_fault (c_str m.payload)
  bytes ← or_fault (strcpy junk.payload text)
  success ← on_server (
      post_update index
        (record junk { author_id = index % 2 ^ 32; timestamp = m.timestamp; payload = bytes }))
  if success then reply blank m ack else reply blank m ack

unfoldable pub handle_request : TweetData → Message → Message → Action (Unit {0})
handle_request junk blank m = elim m.type [
  | follow ↦ handle_follow blank m
  | update ↦ handle_update junk blank m
  | _ ↦ pure tt
]

-- The `for` over the queue.
unfoldable pub handle_requests : TweetData → Message → List Message → Action (Unit {0})
handle_requests junk blank [] = pure tt
handle_requests junk blank (m ∷ ms) = do handle_request junk blank m; handle_requests junk blank ms

-- A round of the loop, when it has found the queue not empty.
unfoldable pub speaker_round : TweetData → Message → Action (Unit {0})
speaker_round junk blank = do
  ms ← session_of (λ s. s.incoming_messages)
  handle_requests junk blank ms
  change λ s. record s { incoming_messages = []; incoming_queue_empty = true }

-- ===== src/Session/Requests.antt =====
-- A pass of the speaker (src/main_server.cpp) over a queue of UPDATE requests.
use sisop2_tf.Base.{
  ℕ, ◌+◌, ◌-◌, ◌^◌, ◌<◌, ◌≡◌, List, [], ◌∷◌, ◌++◌, map, subst, sym, some, arith, length, All,
  append-nil, append_assoc, ok, true, subst, sym,
}
use sisop2_tf.Data.{TweetData}
use sisop2_tf.Message.{ack, update, Message, c_str, strcpy, or_empty}
use sisop2_tf.Connections.{ConnectionManager}
use sisop2_tf.Database.State.{Tables}
use sisop2_tf.Database.Tables.{IsValid}
use sisop2_tf.Database.UpdateRun.{post_outcome, post_outcome-users}
use sisop2_tf.Database.Keeps.{post_outcome-IsValid}
use sisop2_tf.Session.State.{Session}
use sisop2_tf.Session.Speaker.{handle_request, handle_requests, speaker_round}
use sisop2_tf.Session.SignIn.{world}
use sisop2_tf.Session.Replies.{replied, tweet_of, handle_update_ack}

-- The text of a packet, and an array that a text has been copied to.
abbrev pub text_of : Message → List ℕ
text_of m = or_empty (c_str m.payload)

abbrev pub copied : List ℕ → List ℕ → List ℕ
copied dst text = or_empty (strcpy dst text)

module _ (junk : TweetData) (blank : Message) where
  -- A well-formed `UPDATE` packet: its text ends within the payload and fits the copies.
  abbrev pub IsUpdate : Message → Type 0
  IsUpdate m =
      (m.type ≡ update)
      × (c_str m.payload ≡ some (text_of m))
      × (strcpy junk.payload (text_of m) ≡ some (copied junk.payload (text_of m)))
      × (strcpy blank.payload (text_of m) ≡ some (copied blank.payload (text_of m)))

  -- The tables when all the requests of a client have been posted in order.
  abbrev pub all_posted : ℕ → List Message → Tables → Tables
  all_posted user [] t = t
  all_posted user (m ∷ ms) t =
      all_posted user ms
        (post_outcome t user (tweet_of junk user m (copied junk.payload (text_of m))))

  abbrev pub reply_to : Message → Message
  reply_to m = record blank {
    type = ack;
    timestamp = m.timestamp;
    payload = copied blank.payload (text_of m);
  }

  -- The session with one reply for each request.
  abbrev pub all_replied : Session → List Message → Session
  all_replied s ms = record s { outgoing_messages = s.outgoing_messages ++ map reply_to ms }

handle_requests-all_posted :
    (junk : TweetData) (blank : Message) (t : Tables) (c : ConnectionManager) (s : Session)
    (ms : List Message)
    → IsValid t
    → s.client_index < length t.list_of_users
    → t.num_tweets + length ms < 2 ^ 31
    → All (IsUpdate junk blank) ms
    → handle_requests junk blank ms (world t c s)
      ≡ ok tt (world (all_posted junk blank s.client_index ms t) c (all_replied junk blank s ms))
unfolding handle_requests handle_request
handle_requests-all_posted junk blank t c s [] v known room h =
    ground (arith, append-nil s.outgoing_messages)
handle_requests-all_posted junk blank t c s (m ∷ ms) v known room h =
    let tweet = tweet_of junk s.client_index m (copied junk.payload (text_of m)) in
    let few : t.num_tweets < 2 ^ 31 - 1 = omega arith in
    let (users, numbers) = post_outcome-users t s.client_index tweet in
    let done =
      handle_update_ack t c s junk blank m (text_of m) (copied junk.payload (text_of m))
        (copied blank.payload (text_of m)) v known few h.0.1 h.0.2 h.0.3 in
    let rest =
      handle_requests-all_posted junk blank (post_outcome t s.client_index tweet) c
        (replied s blank m (copied blank.payload (text_of m))) ms
        (post_outcome-IsValid t s.client_index tweet v known few)
        (subst (λ us. s.client_index < length us) (sym users) known) (omega (arith, numbers, room))
        h.1 in
    ground (
      arith,
      h.0.0,
      done,
      rest,
      append_assoc s.outgoing_messages (reply_to junk blank m ∷ []) (map (reply_to junk blank) ms),
    )

-- From a state at rest with valid tables, when the queue of a known user holds only well-formed
-- UPDATE requests and tweet numbers last for all of them, a round of the speaker posts one tweet for
-- each request, in their order, appends one reply for each to the outgoing messages, in the same
-- order, and leaves the queue empty.
pub speaker_round-all_posted :
    (junk : TweetData) (blank : Message) (t : Tables) (c : ConnectionManager) (s : Session)
    → IsValid t
    → s.client_index < length t.list_of_users
    → t.num_tweets + length s.incoming_messages < 2 ^ 31
    → All (IsUpdate junk blank) s.incoming_messages
    → speaker_round junk blank (world t c s)
      ≡ ok tt (
          world
            (all_posted junk blank s.client_index s.incoming_messages t)
            c
            (record (all_replied junk blank s s.incoming_messages) {
              incoming_messages = [];
              incoming_queue_empty = true;
            }))
unfolding speaker_round
speaker_round-all_posted junk blank t c s v known room h =
    ground (arith, handle_requests-all_posted junk blank t c s s.incoming_messages v known room h)

-- ===== src/Session/Replies.antt =====
-- What the speaker (src/main_server.cpp) answers to a request.
use sisop2_tf.Base.{
  ℕ, ◌-◌, ◌^◌, ◌%◌, ◌<◌, ◌≡◌, none, some, List, [], ◌∷◌, ◌++◌, arith, length, if◌then◌else◌, ok,
}
use sisop2_tf.Data.{TweetData}
use sisop2_tf.Message.{Message, ack, c_str, strcpy}
use sisop2_tf.Connections.{ConnectionManager}
use sisop2_tf.Database.State.{Tables, Server, at_rest}
use sisop2_tf.Database.Users.{find_user}
use sisop2_tf.Database.Follow.{contains, followers_of}
use sisop2_tf.Database.Tables.{IsValid, followed}
use sisop2_tf.Database.FollowRun.{leaked, post_follow-outcome}
use sisop2_tf.Database.UpdateRun.{post_outcome, post_update-outcome}
use sisop2_tf.Session.State.{Session}
use sisop2_tf.Session.Speaker.{handle_follow, handle_update}
use sisop2_tf.Session.SignIn.{world}

-- The session with one reply more in the queue.
abbrev pub replied : Session → Message → Message → List ℕ → Session
replied s blank m bytes = record s {
  outgoing_messages =
      s.outgoing_messages
      ++ record blank { type = ack; timestamp = m.timestamp; payload = bytes } ∷ [];
}

-- Where the server stands after a follow request.
abbrev pub after_follow : Tables → ConnectionManager → List ℕ → ℕ → Server
after_follow t c name cur = elim (find_user name t.list_of_users) [
  | none ↦ leaked t c
  | some target ↦
      if contains cur (followers_of t target) then leaked t c else at_rest (followed t target cur) c
]

-- From a state at rest with valid tables, a `FOLLOW` request whose text is a C string that fits the
-- reply does what `postFollow` does and appends one reply of type ACK with that text to the outgoing
-- messages, whether the follow was registered or refused.
pub handle_follow_ack :
    (t : Tables) (c : ConnectionManager) (s : Session) (blank m : Message) (name bytes : List ℕ)
    → IsValid t
    → c_str m.payload ≡ some name
    → strcpy blank.payload name ≡ some bytes
    → handle_follow blank m (world t c s)
      ≡ ok tt (record {
        server = after_follow t c name s.client_index;
        session = replied s blank m bytes;
      })
unfolding handle_follow
handle_follow_ack t c s blank m name bytes v text fits =
    ground (arith, text, fits, post_follow-outcome t c name s.client_index m.timestamp v)

-- The tweet that an `UPDATE` request makes.
abbrev pub tweet_of : TweetData → ℕ → Message → List ℕ → TweetData
tweet_of junk user m bytes = record junk {
  author_id = user % 2 ^ 32;
  timestamp = m.timestamp;
  payload = bytes;
}

-- From a state at rest with valid tables, while tweet numbers last, an `UPDATE` request of a known user
-- whose text is a C string that fits the payloads posts one tweet, with the client as its author and
-- the time and text of the request, and appends one reply of type ACK to the outgoing messages.
pub handle_update_ack :
    (t : Tables) (c : ConnectionManager) (s : Session) (junk : TweetData) (blank m : Message)
    (text payload bytes : List ℕ)
    → IsValid t
    → s.client_index < length t.list_of_users
    → t.num_tweets < 2 ^ 31 - 1
    → c_str m.payload ≡ some text
    → strcpy junk.payload text ≡ some payload
    → strcpy blank.payload text ≡ some bytes
    → handle_update junk blank m (world t c s)
      ≡ ok tt (
          world
            (post_outcome t s.client_index (tweet_of junk s.client_index m payload))
            c
            (replied s blank m bytes))
unfolding handle_update
handle_update_ack t c s junk blank m text payload bytes v known room has_text fits fits' = ground (
  arith,
  has_text,
  fits,
  fits',
  post_update-outcome t c s.client_index (tweet_of junk s.client_index m payload) v known room,
)

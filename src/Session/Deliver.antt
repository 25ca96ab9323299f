-- ===== src/Session/Deliver.antt =====
-- What the listener (src/main_server.cpp) puts into the queue of its connector.
use sisop2_tf.Base.{
  ℕ, ◌<◌, ◌≡◌, refl, List, [], ◌∷◌, ◌++◌, some, arith, lt→ltb, ◌==◌, length, get_or, All,
  All-get_or, Option-cases, append-nil, append_assoc, ok, inl, inr, false, Bool-cases, subst, sym,
  Returns, Returns-ok,
}
use sisop2_tf.Data.{TweetData, PendingTweet}
use sisop2_tf.Message.{update, Message, c_str, strcpy, or_empty}
use sisop2_tf.Connections.{ConnectionManager}
use sisop2_tf.Connections.Limit.{IsValid as IsValidManager, sessions}
use sisop2_tf.Database.State.{server_eq, Tables, Server, at_rest}
use sisop2_tf.Database.Tables.{IsValid, fetched}
use sisop2_tf.Database.Users.{get_user_name}
use sisop2_tf.Connections.{find_index}
use sisop2_tf.Connections.Duplicates.{kept}
use sisop2_tf.Database.Delivery.{Delivers}
use sisop2_tf.Database.Keeps.{FetchOutcome-tables}
use sisop2_tf.Database.Retrieve.{find_tweet, received_from, pending_of}
use sisop2_tf.Database.RetrieveRun.{FetchOutcome, retrieve-FetchOutcome}
use sisop2_tf.Session.State.{Session, World}
use sisop2_tf.Session.Listener.{push_tweet, push_tweets, listener_deliver}
use sisop2_tf.Session.SignIn.{world}

-- The name of a tweet's author.
abbrev pub author_of : Tables → TweetData → List ℕ
author_of t w =
    (get_or t.list_of_users w.author_id (record { user_name = []; user_id = 0 })).user_name

abbrev pub tweet_text : TweetData → List ℕ
tweet_text w = or_empty (c_str w.payload)

-- The packet for a tweet: its author's name, its time and its text.
abbrev pub packet_of : Tables → Message → TweetData → Message
packet_of t blank w = record {
  type = update;
  timestamp = w.timestamp;
  author = or_empty (strcpy blank.author (author_of t w));
  payload = or_empty (strcpy blank.payload (tweet_text w));
}

-- A tweet that a packet can hold: a known author, and texts that end and fit.
abbrev pub IsSendable : Tables → Message → TweetData → Type 0
IsSendable t blank w =
    (w.author_id < length t.list_of_users)
    × (c_str w.payload ≡ some (tweet_text w))
    × (strcpy blank.payload (tweet_text w) ≡ some (packet_of t blank w).payload)
    × (strcpy blank.author (author_of t w) ≡ some (packet_of t blank w).author)

abbrev pub packets_of : Tables → Message → List TweetData → List Message
packets_of t blank [] = []
packets_of t blank (w ∷ ws) = packet_of t blank w ∷ packets_of t blank ws

abbrev queued : Session → List Message → Session
queued s ms = record s { outgoing_messages = s.outgoing_messages ++ ms }

-- For tweets that packets can hold, from a state at rest, the listener appends one UPDATE packet for
-- each tweet to the outgoing messages, in their order, and changes nothing else.
pub push_tweets-packets_of :
    (t : Tables) (c : ConnectionManager) (s : Session) (blank : Message) (ws : List TweetData)
    → All (IsSendable t blank) ws
    → push_tweets blank ws (world t c s) ≡ ok tt (world t c (queued s (packets_of t blank ws)))
unfolding push_tweets push_tweet get_user_name
push_tweets-packets_of t c s blank [] h = ground (arith, append-nil s.outgoing_messages)
push_tweets-packets_of t c s blank (w ∷ ws) h =
    let known = lt→ltb w.author_id (length t.list_of_users) h.0.0 in
    ground (
      arith,
      known,
      h.0.1,
      h.0.2,
      h.0.3,
      push_tweets-packets_of t c (queued s (packet_of t blank w ∷ [])) blank ws h.1,
      append_assoc s.outgoing_messages (packet_of t blank w ∷ []) (packets_of t blank ws),
    )

find_tweet-All {κ} :
    (P : TweetData → Type κ) (id : ℕ) (ws : List TweetData) (w : TweetData)
    → All P ws
    → find_tweet id ws ≡ some w
    → P w
unfolding find_tweet
find_tweet-All P id [] w h e = absurd (ground (arith, e))
find_tweet-All P id (x ∷ ws) w h e = elim (Bool-cases (x.tweet_id == id)) [
  | inl here ↦ subst P (ground (arith, e, here)) h.0
  | inr later ↦ find_tweet-All P id ws w h.1 (ground (arith, e, later))
]

module _ (P : TweetData → Type 0) (t : Tables) (rows : All (All P) t.list_of_received_tweets) where
  Delivers-All : (es : List PendingTweet) (ws : List TweetData) → Delivers t es ws → All P ws
  Delivers-All [] [] h = tt
  Delivers-All [] (w ∷ ws) h = absurd h
  Delivers-All (e ∷ es) [] h = absurd h
  Delivers-All (e ∷ es) (w ∷ ws) h = (
    find_tweet-All P e.tweet_id (received_from t e.user_author) w
        (All-get_or (All P) e.user_author t.list_of_received_tweets [] tt rows) h.0,
    Delivers-All es ws h.1,
  )

  module _ (c : ConnectionManager) (user : ℕ)
      (keeps : All (All P) c.list_of_duplicated_tweets) where
    kept-All : All P (kept c user)
    kept-All = elim (Option-cases (find_index user c.list_of_connected_users)) [
      | inl e ↦ rw e tt
      | inr (i, e) ↦ rw e (All-get_or (All P) i c.list_of_duplicated_tweets [] tt keeps)
    ]

    FetchOutcome-All :
        (es : List PendingTweet) (ws : List TweetData) (s : Server)
        → es ≡ pending_of t user
        → FetchOutcome t c user es ws s
        → All P ws
    FetchOutcome-All [] ws s e h = subst (All P) (sym h.2.2) kept-All
    FetchOutcome-All (x ∷ es) ws s e h = Delivers-All (pending_of t user) ws h.2

-- What a delivery owes: what the fetch returned is in the queue, and the connector is told so.
abbrev pub QueuesFetched : Tables → ConnectionManager → Session → Message → World → Type 0
QueuesFetched t c s blank w =
    (ws : List TweetData) × FetchOutcome t c s.client_index (pending_of t s.client_index) ws
      w.server
    × (w.session ≡ record s {
      outgoing_messages = s.outgoing_messages ++ packets_of t blank ws;
      outgoing_queue_empty = false;
    })

-- From a state at rest with valid tables and a valid manager, for a known user with a session, when
-- packets can hold all tweets that are stored or kept, the listener's delivery returns: it appends one
-- UPDATE packet for each tweet that `retrieveTweetsFromFollowed` returns to the outgoing messages, in
-- their order, marks the queue as not empty, and leaves the server as that query leaves it.
pub listener_deliver-QueuesFetched :
    (t : Tables) (c : ConnectionManager) (s : Session) (blank : Message)
    → IsValid t
    → IsValidManager c
    → s.client_index < length t.list_of_users
    → 0 < sessions c s.client_index
    → All (All (IsSendable t blank)) t.list_of_received_tweets
    → All (All (IsSendable t blank)) c.list_of_duplicated_tweets
    → Returns (listener_deliver blank (world t c s)) (λ _ w. QueuesFetched t c s blank w)
unfolding listener_deliver
listener_deliver-QueuesFetched t c s blank v m known online rows keeps =
    let user = s.client_index in
    let (ws, server, run, facts) =
      Returns-ok (FetchOutcome t c user (pending_of t user)) _
        (retrieve-FetchOutcome t c user v m known online) in
    let (same, free) = FetchOutcome-tables t c user (pending_of t user) ws server facts in
    let at : server ≡ at_rest (fetched t user) server.connections =
      server_eq server (fetched t user) same free in
    let sendable : All (IsSendable t blank) ws =
      FetchOutcome-All (IsSendable t blank) t rows c user keeps (pending_of t user) ws server refl
        facts in
    let pushed = push_tweets-packets_of (fetched t user) server.connections s blank ws sendable in
    let pushed' =
      subst
        (λ u.
          push_tweets blank ws (record { server = u; session = s })
          ≡ ok tt (record { server = u; session = queued s (packets_of t blank ws) }))
        (sym at) pushed in
    let runs : listener_deliver blank (world t c s)
        ≡ ok tt (record {
          server = server;
          session = record (queued s (packets_of t blank ws)) { outgoing_queue_empty = false };
        }) =
      ground (arith, run, pushed') in
    subst (λ o. Returns o (λ _ w. QueuesFetched t c s blank w)) (sym runs) (ws, facts, refl)

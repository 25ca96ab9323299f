-- ===== src/Session/Life/Arrival.antt =====
-- A tweet that is posted, on its way to the socket of a follower (src/main_server.cpp).
use sisop2_tf.Base.{
  ℕ, ◌-◌, ◌^◌, ◌<◌, ◌≡◌, refl, ap, ◌∙◌, true, false, List, [], ◌∷◌, ◌++◌, length, length-append,
  arith, ok, All, All-append, All-get_or, All-update_at,
}
use sisop2_tf.Data.{TweetData}
use sisop2_tf.Message.{Message}
use sisop2_tf.Connections.{ConnectionManager}
use sisop2_tf.Connections.Limit.{IsValid as IsValidManager, sessions}
use sisop2_tf.Database.State.{Tables, Server}
use sisop2_tf.Database.Follow.{contains, followers_of}
use sisop2_tf.Database.Tables.{IsValid, stored, posted, entry_for}
use sisop2_tf.Database.Valid.{posted-IsValid}
use sisop2_tf.Database.Retrieve.{pending_of}
use sisop2_tf.Database.Posting.{FetchOutcome-Reaches, pending-posted, contains-length}
use sisop2_tf.Session.State.{Session}
use sisop2_tf.Session.SignIn.{world}
use sisop2_tf.Session.Deliver.{IsSendable, packet_of, packets_of}
use sisop2_tf.Session.Connector.{Env}
use sisop2_tf.Session.Life.{serving, SpeakerPlace, checking, take_turns}
use sisop2_tf.Session.Life.Joins.{life}
use sisop2_tf.Session.Life.Delivery.{has_tweets, delivery, take_turns-Delivers}

packets_of-append :
    (t : Tables) (blank : Message) (vs : List TweetData) (w : TweetData)
    → packets_of t blank (vs ++ w ∷ []) ≡ packets_of t blank vs ++ packet_of t blank w ∷ []
packets_of-append t blank [] w = refl
packets_of-append t blank (v ∷ vs) w =
    ap (λ ps. packet_of t blank v ∷ ps) (packets_of-append t blank vs w)

rows-posted :
    (P : TweetData → Type 0) (t : Tables) (author : ℕ) (tweet : TweetData)
    → All (All P) t.list_of_received_tweets
    → P (stored t author tweet)
    → All (All P) (posted t author tweet).list_of_received_tweets
rows-posted P t author tweet rows last =
    All-update_at (All P) author (λ ws. ws ++ stored t author tweet ∷ []) t.list_of_received_tweets
      []
      (λ l.
        All-append P _ (stored t author tweet ∷ [])
          (All-get_or (All P) author t.list_of_received_tweets [] tt rows) (last, tt))
      rows

-- A follower has a tweet to fetch.
posted-has_tweets :
    (t : Tables) (c : ConnectionManager) (author reader : ℕ) (tweet : TweetData)
    → IsValid t
    → contains reader (followers_of t author) ≡ true
    → has_tweets (posted t author tweet) c reader ≡ true
posted-has_tweets t c author reader tweet v follows =
    let last = pending-posted t author reader tweet v follows in
    ground (arith, last, length-append (pending_of t reader) (entry_for t author ∷ []))

-- What a delivery behind a post owes: the packet for the tweet is written last.
abbrev pub Arrives :
    TweetData
    → Message
    → Env
    → Tables
    → ConnectionManager
    → ℕ
    → TweetData
    → Session
    → SpeakerPlace
    → Type 0
Arrives junk blank env t c author tweet s sp =
    (server : Server) × (u : Session) × (ms : List Message) × (take_turns junk blank (delivery env)
        (life (world (posted t author tweet) c s) serving sp checking)
      ≡ ok tt (life (record { server = server; session = u }) serving sp checking))
    × (u.sent
        ≡ s.sent ++ (s.outgoing_messages ++ (ms ++ packet_of t blank (stored t author tweet) ∷ [])))

-- Behind a post by a known user, the connection of a follower writes the packet for the tweet, as the
-- last, once its listener and its connector have had their turns.
pub posted-Arrives :
    (junk : TweetData) (blank : Message) (env : Env) (t : Tables) (c : ConnectionManager)
    (author : ℕ) (tweet : TweetData) (s : Session) (sp : SpeakerPlace)
    → IsValid t
    → IsValidManager c
    → author < length t.list_of_users
    → s.client_index < length t.list_of_users
    → contains s.client_index (followers_of t author) ≡ true
    → t.num_tweets < 2 ^ 31 - 1
    → 0 < sessions c s.client_index
    → s.client_shutdown_notice ≡ false
    → s.data_read ≡ false
    → env.server_shutdown_notice ≡ false
    → env.alive ≡ true
    → All (All (IsSendable t blank)) t.list_of_received_tweets
    → All (All (IsSendable t blank)) c.list_of_duplicated_tweets
    → IsSendable t blank (stored t author tweet)
    → Arrives junk blank env t c author tweet s sp
posted-Arrives junk blank env t c author tweet s sp v m known known' follows room online quiet stale
      up alive rows keeps last =
    let reader = s.client_index in
    let after = posted t author tweet in
    let some_fs = contains-length reader (followers_of t author) follows in
    let (ws, server, u, run, fetch, facts) =
      take_turns-Delivers junk blank env after c s sp
        (posted-IsValid t author v known tweet some_fs room) m known' online
        (posted-has_tweets t c author reader tweet v follows) quiet stale up alive
        (rows-posted (IsSendable t blank) t author tweet rows last) keeps in
    let (vs, all, _) =
      FetchOutcome-Reaches t c author reader tweet ws server v known follows fetch in
    (
      server,
      u,
      packets_of after blank vs,
      run,
      facts.written
          ∙ ap (λ ps. s.sent ++ (s.outgoing_messages ++ ps))
              (ap (packets_of after blank) all
                ∙ packets_of-append after blank vs (stored t author tweet)),
    )

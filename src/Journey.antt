-- ===== src/Journey.antt =====
-- A tweet on its way from the line that its author types (src/Client.cpp) through the author's connection
-- and the tables to the socket of a follower (src/main_server.cpp).
mod Tests
use sisop2_tf.Base.{
  ℕ, get_or, zero, suc, ◌+◌, ◌-◌, ◌%◌, ◌^◌, ◌≤◌, ◌<◌, ◌≡◌, ◌≢◌, refl, ap, sym, subst, ◌∙◌, Bool,
  true, false, List, [], ◌∷◌, ◌++◌, Option, none, some, All, length, arith, ok, blocked, fault,
  Outcome, Program, Returns, Returns->>=, Returns-weaken, >>=-ok, ◌>>=◌, ◌>>◌,
}
use sisop2_tf.Data.{TweetData, minus_one}
use sisop2_tf.Message.{update, Message, c_str, c_str-strcpy, strcpy, or_empty}
use sisop2_tf.Connections.{ConnectionManager}
use sisop2_tf.Connections.Limit.{IsValid as IsValidManager, sessions}
use sisop2_tf.Database.State.{Tables, Server, at_rest}
use sisop2_tf.Database.Follow.{contains, followers_of}
use sisop2_tf.Database.Update.{post_update}
use sisop2_tf.Database.Retrieve.{retrieve_tweets_from_followed}
use sisop2_tf.Database.Tables.{IsValid, stored, posted}
use sisop2_tf.Database.UpdateRun.{post_outcome}
use sisop2_tf.Database.Posting.{contains-length}
use sisop2_tf.Session.State.{Session, World, Action, on_server}
use sisop2_tf.Session.Connector.{Env, dispatch, enqueue}
use sisop2_tf.Session.Speaker.{speaker_round}
use sisop2_tf.Session.SignIn.{world}
use sisop2_tf.Session.Replies.{tweet_of}
use sisop2_tf.Session.Requests.{
  IsUpdate, copied, reply_to, all_posted, all_replied, text_of, speaker_round-all_posted,
}
use sisop2_tf.Session.Interleaving.{dispatch-update}
use sisop2_tf.Session.Deliver.{author_of, IsSendable, packet_of}
use sisop2_tf.Session.Life.{serving, SpeakerPlace, checking, take_turns}
use sisop2_tf.Session.Life.Joins.{life}
use sisop2_tf.Session.Life.Delivery.{delivery}
use sisop2_tf.Session.Life.Arrival.{posted-Arrives}
use sisop2_tf.Client.Shell.{Shell}
use sisop2_tf.Client.Sender.{client_sender, update_command}
use sisop2_tf.Client.Retries.{SendsAll}
use sisop2_tf.Client.Sends.{IsPacket, client_sender-SendsAll}

-- The author's connection takes a packet in, and its speaker makes its round.
abbrev pub carry : Env → TweetData → Message → Action (Unit {0})
carry env junk m = do dispatch env m; speaker_round junk env.blank

abbrev pub name_of : Tables → ℕ → List ℕ
name_of t user = (get_or t.list_of_users user (record { user_name = []; user_id = 0 })).user_name

-- A packet with this author, time and text.
pub record IsTweetFrom (name : List ℕ) (now : ℕ) (line : List ℕ) (p : Message) : Type 0 where
  pub has_type : p.type ≡ update
  pub by_author : c_str p.author ≡ some name
  pub at_time : p.timestamp ≡ now
  pub says : c_str p.payload ≡ some line

-- A text that has been copied.
some-or_empty : {o : Option (List ℕ)} {text : List ℕ} → o ≡ some text → o ≡ some (or_empty o)
some-or_empty e = e ∙ ap some (sym (ap or_empty e))

packet-text_of :
    {m : Message} {now : ℕ} {line : List ℕ} → IsPacket update now line m → text_of m ≡ line
packet-text_of packet = ap or_empty packet.has_text

copied-line :
    (dst : List ℕ) (m : Message) (now : ℕ) (line : List ℕ)
    → All (λ b. b ≢ 0) line
    → length line < length dst
    → IsPacket update now line m
    → (strcpy dst (text_of m) ≡ some (copied dst (text_of m)))
      × (c_str (copied dst (text_of m)) ≡ some line)
copied-line dst m now line text fits packet =
    let (bytes, made, read) = c_str-strcpy dst line text fits in
    let made' : strcpy dst (text_of m) ≡ some bytes =
      ap (strcpy dst) (packet-text_of packet) ∙ made in
    (some-or_empty made', ap c_str (ap or_empty made') ∙ read)

packet-IsUpdate :
    (junk : TweetData) (blank m : Message) (now : ℕ) (line : List ℕ)
    → All (λ b. b ≢ 0) line
    → length line < length junk.payload
    → length line < length blank.payload
    → IsPacket update now line m
    → IsUpdate junk blank m
packet-IsUpdate junk blank m now line text fits fits' packet = (
  packet.has_type,
  some-or_empty packet.has_text,
  (copied-line junk.payload m now line text fits packet).0,
  (copied-line blank.payload m now line text fits' packet).0,
)

post_outcome-posted :
    (t : Tables) (author reader : ℕ) (tweet : TweetData)
    → contains reader (followers_of t author) ≡ true
    → post_outcome t author tweet ≡ posted t author tweet
post_outcome-posted t author reader tweet follows =
    ground (arith, contains-length reader (followers_of t author) follows)

-- What the packet of a line becomes on the way to a reader whose connection is `r`.
abbrev pub Travels :
    Env
    → TweetData
    → Tables
    → ConnectionManager
    → Session
    → Session
    → SpeakerPlace
    → ℕ
    → List ℕ
    → Message
    → Type 0
Travels env junk t c s r sp now line m =
    (w : World) × (carry env junk m (world t c s) ≡ ok tt w)
    × (server : Server) × (u : Session) × (ms : List Message) × (p : Message) × (take_turns junk
          env.blank (delivery env)
          (life (record { server = w.server; session = r }) serving sp checking)
        ≡ ok tt (life (record { server = server; session = u }) serving sp checking))
    × (u.sent ≡ r.sent ++ (r.outgoing_messages ++ (ms ++ p ∷ [])))
    × IsTweetFrom (name_of t s.client_index) now line p

module _ (env : Env) (junk : TweetData) (t : Tables) (c : ConnectionManager) (s r : Session)
    (sp : SpeakerPlace) (running : env.server_shutdown_notice ≡ false) (alive : env.alive ≡ true)
    (valid : IsValid t) (tracked : IsValidManager c)
    (known : s.client_index < length t.list_of_users)
    (known' : r.client_index < length t.list_of_users)
    (follows : contains r.client_index (followers_of t s.client_index) ≡ true)
    (room : t.num_tweets < 2 ^ 31 - 1) (online : 0 < sessions c r.client_index)
    (served : s.incoming_messages ≡ []) (quiet : r.client_shutdown_notice ≡ false)
    (stale : r.data_read ≡ false)
    (rows : All (All (IsSendable t env.blank)) t.list_of_received_tweets)
    (keeps : All (All (IsSendable t env.blank)) c.list_of_duplicated_tweets)
    (named : All (λ b. b ≢ 0) (name_of t s.client_index))
    (name_fits : length (name_of t s.client_index) < length env.blank.author) where
  module _ (m : Message) (now : ℕ) (line : List ℕ) (text : All (λ b. b ≢ 0) line)
      (fits : length line < length junk.payload) (fits' : length line < length env.blank.payload)
      (packet : IsPacket update now line m) where
    abbrev tweet : TweetData
    tweet = tweet_of junk s.client_index m (copied junk.payload (text_of m))

    -- The author's connection posts the tweet.
    carry-posted :
        (u : Session) × (carry env junk m (world t c s)
          ≡ ok tt (world (posted t s.client_index tweet) c u))
    carry-posted =
        let user = s.client_index in
        let s₁ : Session = record s { incoming_messages = m ∷ []; incoming_queue_empty = false } in
        (
          _,
          >>=-ok (dispatch env m) (λ _. speaker_round junk env.blank)
                (dispatch-update env t c s m running valid known packet.has_type
                  ∙ ap
                      (λ ms. ok tt (
                        world t c (record s {
                          incoming_messages = ms ++ m ∷ [];
                          incoming_queue_empty = false;
                        })))
                      served)
              ∙ speaker_round-all_posted junk env.blank t c s₁ valid known (omega arith)
                  (packet-IsUpdate junk env.blank m now line text fits fits' packet, tt)
              ∙ ap
                  (λ t'. ok tt (
                    world t' c (record (all_replied junk env.blank s₁ (m ∷ [])) {
                      incoming_messages = [];
                      incoming_queue_empty = true;
                    })))
                  (post_outcome-posted t user r.client_index tweet follows),
        )

    -- A packet can hold the tweet.
    author_name : author_of t (stored t s.client_index tweet) ≡ name_of t s.client_index
    author_name = ap (name_of t) (ground (arith, known, valid.few_users))

    tweet-IsSendable :
        IsSendable t env.blank (stored t s.client_index tweet)
        × IsTweetFrom
            (name_of t s.client_index)
            now
            line
            (packet_of t env.blank (stored t s.client_index tweet))
    tweet-IsSendable =
        let (_, says) = copied-line junk.payload m now line text fits packet in
        let (bytes, made, read) =
          c_str-strcpy env.blank.author (name_of t s.client_index) named name_fits in
        let (bytes', made', read') = c_str-strcpy env.blank.payload line text fits' in
        let text' = ap or_empty says in
        let by = ap (strcpy env.blank.author) author_name ∙ made in
        let to = ap (strcpy env.blank.payload) text' ∙ made' in
        (
          (
            omega (arith, known, valid.few_users),
            some-or_empty says,
            some-or_empty to,
            some-or_empty by,
          ),
          record {
            has_type = refl;
            by_author = ap (λ o. c_str (or_empty o)) by ∙ read;
            at_time = packet.has_time;
            says = ap (λ o. c_str (or_empty o)) to ∙ read';
          },
        )

    carry-Travels : Travels env junk t c s r sp now line m
    carry-Travels =
        let user = s.client_index in
        let (sendable, is_tweet) = tweet-IsSendable in
        let (u, runs) = carry-posted in
        let (server, u', ms, run, written) =
          posted-Arrives junk env.blank env t c user tweet r sp valid tracked known known' follows
            room online quiet stale running alive rows keeps sendable in
        (
          _,
          runs,
          server,
          u',
          ms,
          packet_of t env.blank (stored t user tweet),
          run,
          written,
          is_tweet,
        )

  -- While the server runs on, with valid tables and a valid manager, while tweet numbers last, both clients
  -- can be written to, and packets can hold the author's name and all tweets that are stored or kept: when
  -- a client, signed in as a known user on a connection whose requests have all been served, types UPDATE
  -- and then a line of text that fits the packets, and its socket has no error, it sends one packet
  -- more. When its connection takes that packet in and the speaker makes its round, and then the
  -- connection of a known user who follows the author, which is not to end and has no packet to handle,
  -- has two turns of its listener and a round of its connector with nothing to read, all of them return,
  -- and the last packet that is written to the follower's socket is an UPDATE with the author's name,
  -- that text and the time of the author's packet; what waited for the follower is written before it.
  pub typed-Travels :
      (now : ℕ) (b : ℕ) (bs : List ℕ) (rest : List (List ℕ)) (blank : Message) (w : Shell)
      (later : List ℕ)
      → w.input ≡ (b ∷ bs) ∷ rest
      → w.errors ≡ 0 ∷ later
      → All (λ x. x ≢ 0) (b ∷ bs)
      → length (b ∷ bs) < length blank.payload
      → length (b ∷ bs) < length junk.payload
      → length (b ∷ bs) < length env.blank.payload
      → (m : Message) × Returns
          (client_sender blank now update_command w)
          (λ _ w'. w'.sent ≡ w.sent ++ m ∷ [])
        × Travels env junk t c s r sp now (b ∷ bs) m
  typed-Travels now b bs rest blank w later typed errors text fits₀ fits fits' =
      let (m, packet, sends) =
        client_sender-SendsAll blank now b bs [] rest text tt [] later w typed fits₀ errors tt tt in
      (
        m,
        Returns-weaken (SendsAll (record w { input = rest }) 1 m later) _ _ sends
            (λ go w' (_, one, _, _). one),
        carry-Travels m now (b ∷ bs) text fits fits' packet,
      )

-- ===== src/Database/RetrieveRun.antt =====
-- `retrieveTweetsFromFollowed` (src/main_server.cpp) from a state at rest.
use sisop2_tf.Base.{
  ℕ, ◌<◌, ◌≡◌, refl, inl, inr, List, [], ◌∷◌, arith, length, update_at, All-get_or, lt→ltb, ok,
  Returns, Returns-ok, List-cases, subst, sym,
}
use sisop2_tf.Data.{TweetData, PendingTweet}
use sisop2_tf.Connections.{ConnectionManager}
use sisop2_tf.Connections.Limit.{IsValid as IsValidManager, sessions}
use sisop2_tf.Connections.Duplicates.{
  HandsOver, retrieve_duplicate_tweet-HandsOver, does_client_have_duplicate_tweets-kept,
}
use sisop2_tf.Database.State.{Tables, Server, at_rest, free_locks}
use sisop2_tf.Database.Retrieve.{
  pending_of, collect, update_all, retrieve_pending_tweets, retrieve_tweets_from_followed,
}
use sisop2_tf.Database.Tables.{IsValid, AreEntries, fetched}
use sisop2_tf.Database.Delivery.{Delivers, pending-AllFound, collect-Delivers}
use sisop2_tf.Database.Sharing.{Shares, for_second, share-Shares, update_all-settled}

-- The user's own entries are gone, and only those, when the tweets are looked up.
abbrev emptied : Tables → ℕ → Tables
emptied t user = record t {
  list_of_pending_tweets = update_at user (λ _. []) t.list_of_pending_tweets;
}

-- Inside a query that reads the received tweets, and inside one that reads nothing.
abbrev reading : Tables → ConnectionManager → Server
reading t c = record {
  tables = t;
  locks = record free_locks { db_access_sem = 0; query_cnt = 1; lort_rw_sem = 0; lort_cnt = 1 };
  connections = c;
}

abbrev querying : Tables → ConnectionManager → Server
querying t c = record {
  tables = t;
  locks = record free_locks { db_access_sem = 0; query_cnt = 1 };
  connections = c;
}

-- What a user with pending tweets gets, and the state in which the call leaves the server.
abbrev pub Fetches : Tables → ConnectionManager → ℕ → List TweetData → Server → Type 0
Fetches t c user ws s =
    (s.tables ≡ fetched t user)
    × (s.locks ≡ free_locks)
    × Delivers t (pending_of t user) ws
    × Shares user (for_second c user ws) c s.connections

retrieve_known :
    (t : Tables) (c : ConnectionManager) (user : ℕ) (e : PendingTweet) (es : List PendingTweet)
    → IsValid t
    → IsValidManager c
    → user < length t.list_of_users
    → 0 < sessions c user
    → pending_of t user ≡ e ∷ es
    → Returns (retrieve_tweets_from_followed user (at_rest t c)) (Fetches t c user)
unfolding retrieve_tweets_from_followed retrieve_pending_tweets
retrieve_known t c user e es v m known online some_pending =
    let n = length t.list_of_users in
    let entries : AreEntries n (pending_of t user) =
      All-get_or (AreEntries n) user t.list_of_pending_tweets [] tt v.authors_known in
    let (ws, collected, delivered) =
      collect-Delivers t (reading (emptied t user) c) [] (pending_of t user) v refl entries
        (pending-AllFound t user v known) in
    let (d, shared, facts) = share-Shares user e es ws (querying (emptied t user) c) m online in
    let settles =
      update_all-settled t.num_tweets n (pending_of t user) (querying (emptied t user) d) refl
        v.received_paired entries v.rows_sound in
    let listed =
      lt→ltb user (length t.list_of_pending_tweets) (omega (arith, known, v.pending_paired)) in
    let run : retrieve_tweets_from_followed user (at_rest t c)
        ≡ ok ws (at_rest (fetched t user) d) =
      ground (arith, some_pending, listed, collected, shared, settles) in
    subst (λ o. Returns o (Fetches t c user)) (sym run) (refl, refl, delivered, facts)

-- What a user with nothing pending gets: the tweets kept by the user's other session.
abbrev pub TakesOver : Tables → ConnectionManager → ℕ → List TweetData → Server → Type 0
TakesOver t c user ws s =
    (s.tables ≡ fetched t user) × (s.locks ≡ free_locks) × HandsOver user c ws s.connections

retrieve_nothing :
    (t : Tables) (c : ConnectionManager) (user : ℕ)
    → IsValid t
    → IsValidManager c
    → user < length t.list_of_users
    → 0 < sessions c user
    → pending_of t user ≡ []
    → Returns (retrieve_tweets_from_followed user (at_rest t c)) (TakesOver t c user)
unfolding retrieve_tweets_from_followed retrieve_pending_tweets collect update_all
retrieve_nothing t c user v m known online nothing =
    let asked =
      does_client_have_duplicate_tweets-kept user c (omega (arith, known, v.few_users)) m online in
    let (ws, d, taken, facts) =
      Returns-ok (HandsOver user c) _ (retrieve_duplicate_tweet-HandsOver user c m online) in
    let listed =
      lt→ltb user (length t.list_of_pending_tweets) (omega (arith, known, v.pending_paired)) in
    let run : retrieve_tweets_from_followed user (at_rest t c)
        ≡ ok ws (at_rest (fetched t user) d) =
      ground (arith, nothing, listed, asked, taken) in
    subst (λ o. Returns o (TakesOver t c user)) (sym run) (refl, refl, facts)

abbrev pub FetchOutcome :
    Tables → ConnectionManager → ℕ → List PendingTweet → List TweetData → Server → Type 0
FetchOutcome t c user [] = TakesOver t c user
FetchOutcome t c user (e ∷ es) = Fetches t c user

-- From a state at rest, for a known user with a session, `retrieveTweetsFromFollowed` returns and
-- leaves all locks free. If something was pending, it returns the author's tweet for each entry, in
-- order, empties the entries, takes one recipient off each of those tweets, and keeps the tweets for
-- a second session if there is one. If not, it returns what was kept for the user, and empties that.
pub retrieve-FetchOutcome :
    (t : Tables) (c : ConnectionManager) (user : ℕ)
    → IsValid t
    → IsValidManager c
    → user < length t.list_of_users
    → 0 < sessions c user
    → Returns
        (retrieve_tweets_from_followed user (at_rest t c))
        (FetchOutcome t c user (pending_of t user))
retrieve-FetchOutcome t c user v m known online = elim (List-cases (pending_of t user)) [
  | inl nothing ↦
      subst
        (λ es.
          Returns (retrieve_tweets_from_followed user (at_rest t c)) (FetchOutcome t c user es))
        (sym nothing) (retrieve_nothing t c user v m known online nothing)
  | inr (e, es, some_pending) ↦
      subst
        (λ es.
          Returns (retrieve_tweets_from_followed user (at_rest t c)) (FetchOutcome t c user es))
        (sym some_pending) (retrieve_known t c user e es v m known online some_pending)
]

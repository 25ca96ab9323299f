-- ===== src/Database/Retrieve.antt =====
-- `doesClientHavePendingTweets`, `_retrievePendingTweets`, `_updateReceivedTweet` and
-- `retrieveTweetsFromFollowed` (src/main_server.cpp).
use sisop2_tf.Base.{
  ℕ, ◌+◌, ◌-◌, ◌%◌, ◌^◌, Bool, true, not, List, [], ◌∷◌, ◌++◌, Option, none, some, ltb, ◌==◌,
  if◌then◌else◌, length, get_or, update_at, ◌>>=◌, ◌>>◌, pure, gets, requires, when,
}
use sisop2_tf.Data.{TweetData, PendingTweet}
use sisop2_tf.Connections.{
  does_client_have_duplicate_tweets, does_client_have_two_connections, register_duplicate_tweet,
  retrieve_duplicate_tweet,
}
use sisop2_tf.Database.State.{
  Tables, Server, Action, p, v, lort_rw_sem, lort_read_enter, lort_read_leave, lopt_read_enter,
  lopt_read_leave, query_enter, query_leave, change, on_connections,
}

abbrev pub pending_of : Tables → ℕ → List PendingTweet
pending_of t id = get_or t.list_of_pending_tweets id []

abbrev pub received_from : Tables → ℕ → List TweetData
received_from t id = get_or t.list_of_received_tweets id []

abbrev pub has_pending_list : ℕ → Server → Bool
has_pending_list id s = ltb id (length s.tables.list_of_pending_tweets)

abbrev pub has_received_list : ℕ → Server → Bool
has_received_list id s = ltb id (length s.tables.list_of_received_tweets)

-- The right operand of `||` is evaluated only where the left one is false.
unfoldable pub does_client_have_pending_tweets : ℕ → Action Bool
does_client_have_pending_tweets user = do
  lopt_read_enter
  requires (has_pending_list user)
  n ← gets (λ s. length (pending_of s.tables user))
  answer ←
      if not (n == 0) then pure true else on_connections (does_client_have_duplicate_tweets user)
  lopt_read_leave
  pure answer

unfoldable pub retrieve_pending_tweets : ℕ → Action (List PendingTweet)
retrieve_pending_tweets user = do
  lopt_read_enter
  requires (has_pending_list user)
  list ← gets (λ s. pending_of s.tables user)
  change
      λ t. record t { list_of_pending_tweets = update_at user (λ _. []) t.list_of_pending_tweets }
  lopt_read_leave
  pure list

-- `numRecipientsRemaining--` on a `uint32_t`.
abbrev pub one_fewer : TweetData → TweetData
one_fewer w = record w {
  num_recipients_remaining = (w.num_recipients_remaining + 2 ^ 32 - 1) % 2 ^ 32;
}

-- The loop of `_updateReceivedTweet`: the first tweet of that id has one recipient fewer, and goes
-- when none remain.
unfoldable pub decrement : ℕ → List TweetData → List TweetData
decrement id [] = []
decrement id (w ∷ ws) =
    let rest = decrement id ws in
    if w.tweet_id == id
    then (if (one_fewer w).num_recipients_remaining == 0 then ws else one_fewer w ∷ ws)
    else w ∷ rest

unfoldable pub update_received_tweet : ℕ → ℕ → Action Bool
update_received_tweet target id = do
  p lort_rw_sem
  requires (has_received_list target)
  change λ t. record t {
    list_of_received_tweets = update_at target (decrement id) t.list_of_received_tweets;
  }
  v lort_rw_sem
  pure true

-- `int targetTweet` holds the low 32 bits of a `uint64_t`, and is widened again, with its sign, in
-- the comparison.
unfoldable pub through_int : ℕ → ℕ
through_int id = if ltb (id % 2 ^ 32) (2 ^ 31) then id % 2 ^ 32 else id % 2 ^ 32 + (2 ^ 64 - 2 ^ 32)

-- The inner loop: the first tweet of that id.
unfoldable pub find_tweet : ℕ → List TweetData → Option TweetData
find_tweet id [] = none
find_tweet id (w ∷ ws) = if w.tweet_id == id then some w else find_tweet id ws

abbrev pub append_found : List TweetData → Option TweetData → List TweetData
append_found ws none = ws
append_found ws (some w) = ws ++ w ∷ []

-- The outer loop, with `receivedTweets` so far.
unfoldable pub collect : List TweetData → List PendingTweet → Action (List TweetData)
collect acc [] = pure acc
collect acc (e ∷ es) = do
  requires (has_received_list e.user_author)
  found ← gets (λ s. find_tweet (through_int e.tweet_id) (received_from s.tables e.user_author))
  collect (append_found acc found) es

unfoldable pub duplicate_all : ℕ → List TweetData → Action (Unit {0})
duplicate_all user [] = pure tt
duplicate_all user (w ∷ ws) = do
  on_connections (register_duplicate_tweet user w)
  duplicate_all user ws

unfoldable pub update_all : List PendingTweet → Action (Unit {0})
update_all [] = pure tt
update_all (e ∷ es) = do update_received_tweet e.user_author e.tweet_id; update_all es

-- The start for `receivedTweets`: what the user's other session has left, if nothing is pending.
-- The wait of ten seconds ends whether or not its predicate holds.
unfoldable pub take_over : ℕ → List PendingTweet → Action (List TweetData)
take_over user [] = do
  on_connections (does_client_have_duplicate_tweets user)
  on_connections (retrieve_duplicate_tweet user)
take_over user (e ∷ es) = pure []

-- Tweets that were pending are kept for a second session.
unfoldable pub share : ℕ → List PendingTweet → List TweetData → Action (Unit {0})
share user [] ws = pure tt
share user (e ∷ es) ws = do
  two ← on_connections (does_client_have_two_connections user)
  when two (duplicate_all user ws)

unfoldable pub retrieve_tweets_from_followed : ℕ → Action (List TweetData)
unfolding take_over share
retrieve_tweets_from_followed user = do
  query_enter
  pending ← retrieve_pending_tweets user
  start ← take_over user pending
  lort_read_enter
  received ← collect start pending
  lort_read_leave
  share user pending received
  update_all pending
  query_leave
  pure received

-- ===== src/Database/Update.antt =====
-- `_registerUpdate`, `_forwardUpdateToFollowers`, `_clearUsersPendingTweets` and `postUpdate`
-- (src/main_server.cpp).
use sisop2_tf.Base.{
  ℕ, ◌+◌, ◌-◌, ◌%◌, ◌^◌, Bool, true, false, not, List, [], ◌∷◌, ◌++◌, ltb, ◌==◌, if◌then◌else◌,
  length, leb, take, update_at, ◌>>=◌, ◌>>◌, pure, gets, requires,
}
use sisop2_tf.Data.{TweetData, PendingTweet}
use sisop2_tf.Database.State.{
  Action, p, v, lort_rw_sem, tweetnum_sem, lopt_write_enter, lopt_write_leave, query_enter,
  query_leave, change,
}
use sisop2_tf.Database.Follow.{followers_of, get_num_followers}

unfoldable pub register_update : ℕ → TweetData → Action Bool
register_update cur tweet = do
  n ← get_num_followers cur
  p lort_rw_sem
  requires (λ s. ltb cur (length s.tables.list_of_received_tweets))
  change λ t. record t {
    list_of_received_tweets =
        update_at cur (λ ts. ts ++ record tweet { num_recipients_remaining = n % 2 ^ 32 } ∷ [])
          t.list_of_received_tweets;
  }
  v lort_rw_sem
  pure true

-- The loop of `_forwardUpdateToFollowers`.
unfoldable pub forward_to : PendingTweet → List ℕ → Action (Unit {0})
forward_to entry [] = pure tt
forward_to entry (target ∷ targets) = do
  requires (λ s. ltb target (length s.tables.list_of_pending_tweets))
  change λ t. record t {
    list_of_pending_tweets = update_at target (λ ps. ps ++ entry ∷ []) t.list_of_pending_tweets;
  }
  forward_to entry targets

unfoldable pub forward_update_to_followers : ℕ → ℕ → Action Bool
forward_update_to_followers cur tweet_id = do
  n ← get_num_followers cur
  lopt_write_enter
  requires (λ s. leb n (length (followers_of s.tables cur)))
  targets ← gets (λ s. take n (followers_of s.tables cur))
  forward_to (record { user_author = cur % 2 ^ 32; tweet_id = tweet_id }) targets
  lopt_write_leave
  pure true

unfoldable pub clear_users_pending_tweets : ℕ → Action Bool
clear_users_pending_tweets cur = do
  lopt_write_enter
  requires (λ s. ltb cur (length s.tables.list_of_pending_tweets))
  change λ t. record t { list_of_pending_tweets = update_at cur (λ _. []) t.list_of_pending_tweets }
  lopt_write_leave
  pure true

-- `numTweets++` on an `int`.
next_tweet_id : Action ℕ
next_tweet_id = do
  p tweetnum_sem
  id ← gets (λ s. s.tables.num_tweets)
  requires (λ s. ltb s.tables.num_tweets (2 ^ 31 - 1))
  change λ t. record t { num_tweets = t.num_tweets + 1 }
  v tweetnum_sem
  pure id

-- The body of the `if` of `postUpdate`: whether both steps succeeded.
publish : ℕ → TweetData → Action Bool
publish user tweet = do
  registered ← register_update user tweet
  if registered then forward_update_to_followers user tweet.tweet_id else pure false

unfoldable pub post_update : ℕ → TweetData → Action Bool
unfolding next_tweet_id publish
post_update user tweet = do
  query_enter
  id ← next_tweet_id
  n ← get_num_followers user
  done ← if not (n == 0) then publish user (record tweet { tweet_id = id }) else pure true
  if done then (do query_leave; pure true) else pure false

-- ===== src/Database/Tables.antt =====
-- The tables of `databaseManager` (src/main_server.cpp): what keeps them sound, and the change that
-- each operation makes to them, without the semaphores.
use sisop2_tf.Base.{ℕ, ◌+◌, ◌%◌, ◌^◌, ◌<◌, ◌≡◌, false, List, [], ◌∷◌, ◌++◌, length, update_at, All}
use sisop2_tf.Data.{TweetData, PendingTweet}
use sisop2_tf.Database.State.{Tables}
use sisop2_tf.Database.Follow.{contains, followers_of}
use sisop2_tf.Database.Retrieve.{pending_of, received_from}
use sisop2_tf.Database.Counting.{one_off, refs, remaining, IsRow}

abbrev pub IsDistinct : List ℕ → Type 0
IsDistinct [] = Unit {0}
IsDistinct (x ∷ xs) = (contains x xs ≡ false) × IsDistinct xs

-- The followers of one user are known users, each once.
abbrev pub AreFollowers : ℕ → List ℕ → Type 0
AreFollowers n fs = All (λ f. f < n) fs × IsDistinct fs

abbrev pub AreEntries : ℕ → List PendingTweet → Type 0
AreEntries n = All λ e. e.user_author < n

-- The four lists go by the same user indices, and each tweet still counts exactly the followers
-- that have it pending.
pub record IsValid (t : Tables) : Type 0 where
  pub few_users : length t.list_of_users < 2 ^ 31
  pub few_tweets : t.num_tweets < 2 ^ 31
  pub followers_paired : length t.list_of_followers ≡ length t.list_of_users
  pub received_paired : length t.list_of_received_tweets ≡ length t.list_of_users
  pub pending_paired : length t.list_of_pending_tweets ≡ length t.list_of_users
  pub followers_known : All (AreFollowers (length t.list_of_users)) t.list_of_followers
  pub rows_sound : All (IsRow t.num_tweets) t.list_of_received_tweets
  pub authors_known : All (AreEntries (length t.list_of_users)) t.list_of_pending_tweets
  pub counted : (a id : ℕ) → remaining id (received_from t a) ≡ refs a id t.list_of_pending_tweets

abbrev pub followed : Tables → ℕ → ℕ → Tables
followed t target cur = record t {
  list_of_followers = update_at target (λ fs. fs ++ cur ∷ []) t.list_of_followers;
}

abbrev pub numbered : Tables → Tables
numbered t = record t { num_tweets = t.num_tweets + 1 }

abbrev pub forwarded : PendingTweet → List ℕ → List (List PendingTweet) → List (List PendingTweet)
forwarded e [] rows = rows
forwarded e (x ∷ xs) rows = forwarded e xs (update_at x (λ es. es ++ e ∷ []) rows)

-- The tweet as `postUpdate` stores it.
abbrev pub stored : Tables → ℕ → TweetData → TweetData
stored t user tweet = record tweet {
  tweet_id = t.num_tweets;
  num_recipients_remaining = length (followers_of t user) % 2 ^ 32;
}

abbrev pub entry_for : Tables → ℕ → PendingTweet
entry_for t user = record { user_author = user % 2 ^ 32; tweet_id = t.num_tweets }

abbrev pub posted : Tables → ℕ → TweetData → Tables
posted t user tweet = record t {
  list_of_received_tweets =
      update_at user (λ ws. ws ++ stored t user tweet ∷ []) t.list_of_received_tweets;
  list_of_pending_tweets =
      forwarded (entry_for t user) (followers_of t user) t.list_of_pending_tweets;
  num_tweets = t.num_tweets + 1;
}

abbrev pub settled : List PendingTweet → List (List TweetData) → List (List TweetData)
settled [] rows = rows
settled (e ∷ es) rows = settled es (update_at e.user_author (one_off e.tweet_id) rows)

-- The tables after a user has fetched all that was pending.
abbrev pub fetched : Tables → ℕ → Tables
fetched t user = record t {
  list_of_received_tweets = settled (pending_of t user) t.list_of_received_tweets;
  list_of_pending_tweets = update_at user (λ _. []) t.list_of_pending_tweets;
}

-- ===== src/Files/Save.antt =====
-- `saveListOfUsers`, `saveListOfFollowers`, `saveListOfPendingTweets`, `saveListOfReceivedTweets` and
-- `saveDatabase` (src/main_server.cpp). What is written to a file is a value here.
use sisop2_tf.Base.{ℕ, List, [], ◌∷◌, ◌++◌, length, ◌>>=◌, ◌>>◌, pure, gets}
use sisop2_tf.Data.{UserType, TweetData, PendingTweet}
use sisop2_tf.Stream.{show_nat}
use sisop2_tf.Database.State.{Tables, Action, p, v, query_try, db_access_sem}
use sisop2_tf.Files.Records.{dot, show_user, show_tweet, show_pending}

-- The bytes that a loop over a list writes.
unfoldable pub write_each {ℓ} : {A : Type ℓ} → (A → List ℕ) → List A → List ℕ
write_each show [] = []
write_each show (x ∷ xs) = show x ++ write_each show xs

abbrev pub slash : List ℕ
slash = b'/' ∷ []

abbrev pub newline : List ℕ
newline = 10 ∷ []

unfoldable pub save_list_of_users : List UserType → List ℕ
save_list_of_users us = write_each show_user us

abbrev pub show_follower : ℕ → List ℕ
show_follower id = show_nat id ++ slash

abbrev pub show_followers : List ℕ → List ℕ
show_followers fs = show_nat (length fs) ++ (dot ++ write_each show_follower fs)

unfoldable pub save_list_of_followers : List (List ℕ) → List ℕ
save_list_of_followers rows = show_nat (length rows) ++ (dot ++ write_each show_followers rows)

abbrev pub show_pending_line : PendingTweet → List ℕ
show_pending_line e = show_pending e ++ newline

abbrev pub show_pending_row : List PendingTweet → List ℕ
show_pending_row es = show_nat (length es) ++ (slash ++ write_each show_pending_line es)

unfoldable pub save_list_of_pending_tweets : List (List PendingTweet) → List ℕ
save_list_of_pending_tweets rows =
    show_nat (length rows) ++ (dot ++ write_each show_pending_row rows)

abbrev pub show_tweet_line : TweetData → List ℕ
show_tweet_line w = show_tweet w ++ newline

abbrev pub show_tweet_row : List TweetData → List ℕ
show_tweet_row ws = show_nat (length ws) ++ (slash ++ write_each show_tweet_line ws)

unfoldable pub save_list_of_received_tweets : List (List TweetData) → List ℕ
save_list_of_received_tweets rows =
    show_nat (length rows) ++ (dot ++ write_each show_tweet_row rows)

pub record FileSet : Type 0 where
  pub list_of_users : List ℕ
  pub list_of_followers : List ℕ
  pub pending_tweets : List ℕ
  pub received_tweets : List ℕ

abbrev pub files_of : Tables → FileSet
files_of t = record {
  list_of_users = save_list_of_users t.list_of_users;
  list_of_followers = save_list_of_followers t.list_of_followers;
  pending_tweets = save_list_of_pending_tweets t.list_of_pending_tweets;
  received_tweets = save_list_of_received_tweets t.list_of_received_tweets;
}

unfoldable pub save_database : Action FileSet
save_database = do
  p query_try
  p db_access_sem
  files ← gets (λ s. files_of s.tables)
  v db_access_sem
  v query_try
  pure files

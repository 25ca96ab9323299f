-- ===== src/Database/Tests.antt =====
-- The queries at concrete inputs: three users, of whom the second follows the first.
use sisop2_tf.Base.{ℕ, ◌≡◌, refl, true, List, [], ◌∷◌, arith, All-get_or, Returns, ok, ◌>>=◌}
use sisop2_tf.Data.{TweetData}
use sisop2_tf.Connections.{ConnectionManager}
use sisop2_tf.Connections.Limit.{at_rest as manager_at_rest, IsValid as IsValidManager}
use sisop2_tf.Database.State.{Tables, at_rest}
use sisop2_tf.Database.Counting.{remaining}
use sisop2_tf.Database.Tables.{IsValid, posted}
use sisop2_tf.Database.Follow.{contains, post_follow}
use sisop2_tf.Database.Update.{post_update}
use sisop2_tf.Database.Retrieve.{pending_of, retrieve_tweets_from_followed}
use sisop2_tf.Database.Valid.{posted-IsValid}
use sisop2_tf.Database.FollowRun.{follow_outcome, post_follow-outcome}
use sisop2_tf.Database.UpdateRun.{post_outcome, post_update-outcome}
use sisop2_tf.Database.RetrieveRun.{FetchOutcome, retrieve-FetchOutcome}
use sisop2_tf.Database.Posting.{Reaches, post-retrieve}

abbrev pub ana : List ℕ
ana = 97 ∷ 110 ∷ 97 ∷ []

abbrev pub bob : List ℕ
bob = 98 ∷ 111 ∷ 98 ∷ []

abbrev pub tables : Tables
tables = record {
  list_of_users =
      record { user_name = ana; user_id = 0 }
      ∷ record { user_name = bob; user_id = 1 }
      ∷ record { user_name = 99 ∷ []; user_id = 2 }
      ∷ [];
  list_of_followers = (1 ∷ []) ∷ [] ∷ [] ∷ [];
  list_of_received_tweets = [] ∷ [] ∷ [] ∷ [];
  list_of_pending_tweets = [] ∷ [] ∷ [] ∷ [];
  num_tweets = 4;
}

pub tables-IsValid : IsValid tables
unfolding contains
tables-IsValid = record {
  few_users = omega arith;
  few_tweets = omega arith;
  followers_paired = refl;
  received_paired = refl;
  pending_paired = refl;
  followers_known = (((omega arith, tt), (refl, tt)), ((tt, tt), ((tt, tt), tt)));
  rows_sound = (tt, (tt, (tt, tt)));
  authors_known = (tt, (tt, (tt, tt)));
  counted = λ a id.
      All-get_or (λ ws. remaining id ws ≡ 0) a tables.list_of_received_tweets [] refl
        (refl, (refl, (refl, tt)));
}

abbrev tweet : TweetData
tweet = record {
  author_id = 0;
  tweet_id = 0;
  timestamp = 9;
  payload = 104 ∷ 105 ∷ 0 ∷ [];
  num_recipients_remaining = 0;
}

abbrev pub manager : ConnectionManager
manager =
    manager_at_rest
      (record { user_id = 1; num_connections = 2 }
        ∷ record { user_id = 0; num_connections = 1 }
        ∷ [])
      ([] ∷ [] ∷ [])

pub manager-IsValid : IsValidManager manager
manager-IsValid = record { free = refl; tracked = ground arith; paired = refl }

-- The state after the first user's tweet.
abbrev pub tables_posted : Tables
tables_posted = posted tables 0 tweet

pub tables_posted-IsValid : IsValid tables_posted
tables_posted-IsValid =
    posted-IsValid tables 0 tables-IsValid (omega arith) tweet (omega arith) (omega arith)

post_follow-outcome_example :
    post_follow bob 0 7 (at_rest tables manager) ≡ follow_outcome tables manager bob 0
post_follow-outcome_example = post_follow-outcome tables manager bob 0 7 tables-IsValid

post_update-outcome_example :
    post_update 0 tweet (at_rest tables manager)
    ≡ ok true (at_rest (post_outcome tables 0 tweet) manager)
post_update-outcome_example =
    post_update-outcome tables manager 0 tweet tables-IsValid (omega arith) (omega arith)

retrieve-FetchOutcome_example :
    Returns
      (retrieve_tweets_from_followed 1 (at_rest tables_posted manager))
      (FetchOutcome tables_posted manager 1 (pending_of tables_posted 1))
retrieve-FetchOutcome_example =
    retrieve-FetchOutcome tables_posted manager 1 tables_posted-IsValid manager-IsValid
      (omega arith) (omega arith)

one_follows : contains 1 (1 ∷ []) ≡ true
unfolding contains
one_follows = refl

post-retrieve_example :
    Returns
      ((post_update 0 tweet >>= λ _. retrieve_tweets_from_followed 1) (at_rest tables manager))
      (λ ws _. Reaches tables 0 1 tweet ws)
post-retrieve_example =
    post-retrieve tables manager 0 1 tweet tables-IsValid manager-IsValid (omega arith)
      (omega arith) one_follows (omega arith) (omega arith)

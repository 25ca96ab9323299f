-- ===== src/Files/Stuck.antt =====
-- What a refused `postFollow` and a `saveDatabase` (src/main_server.cpp) do to later queries.
use sisop2_tf.Base.{none, arith, ◌>>=◌, ℕ, List, ◌≡◌, refl, blocked}
use sisop2_tf.Data.{TweetData}
use sisop2_tf.Connections.{ConnectionManager}
use sisop2_tf.Database.State.{at_rest, Tables, Server}
use sisop2_tf.Database.Tables.{IsValid}
use sisop2_tf.Database.Users.{find_user}
use sisop2_tf.Database.Follow.{post_follow}
use sisop2_tf.Database.Update.{post_update}
use sisop2_tf.Database.Retrieve.{retrieve_tweets_from_followed}
use sisop2_tf.Database.FollowRun.{post_follow-outcome, leaked_locks}
use sisop2_tf.Files.Save.{save_database}

-- The save waits for the database and keeps new queries out.
abbrev pub stuck : Tables → ConnectionManager → Server
stuck t c = record { tables = t; locks = record leaked_locks { query_try = 0 }; connections = c }

-- From a state at rest with valid tables, a `postFollow` of an unknown name and then a `saveDatabase`
-- wait for ever; in the state in which the save waits, `postFollow`, `postUpdate` and
-- `retrieveTweetsFromFollowed` wait for ever too, whatever their arguments.
pub post_follow-save_database :
    (t : Tables) (c : ConnectionManager) (unknown name : List ℕ) (cur timestamp user : ℕ)
    (tweet : TweetData)
    → IsValid t
    → find_user unknown t.list_of_users ≡ none
    → ((post_follow unknown cur timestamp >>= λ _. save_database) (at_rest t c)
        ≡ blocked (stuck t c))
      × (post_follow name cur timestamp (stuck t c) ≡ blocked (stuck t c))
      × (post_update user tweet (stuck t c) ≡ blocked (stuck t c))
      × (retrieve_tweets_from_followed user (stuck t c) ≡ blocked (stuck t c))
unfolding save_database post_follow post_update retrieve_tweets_from_followed
post_follow-save_database t c unknown name cur timestamp user tweet v e =
    let refused = post_follow-outcome t c unknown cur timestamp v in
    (ground (arith, refused, e), refl, refl, refl)

-- ===== src/Database/Service.antt =====
-- What the queries of `databaseManager` (src/main_server.cpp) promise, without tables, tweet numbers,
-- counts of recipients or locks: who follows whom, what each user has still to read, and what is kept
-- for a user's second session.
pub mod Posts
pub mod Contents
pub mod Fetches
pub mod Runs
mod Tests
use sisop2_tf.Base.{
  ℕ, Bool, true, false, ◌&&◌, List, [], ◌∷◌, ◌++◌, Option, none, some, ◌==◌, if◌then◌else◌, map,
  get_or,
}
use sisop2_tf.Data.{UserType, TweetData, PendingTweet}
use sisop2_tf.Connections.{ConnectionManager}
use sisop2_tf.Connections.Limit as Limit
use sisop2_tf.Connections.Duplicates.{kept}
use sisop2_tf.Database.State.{Tables}
use sisop2_tf.Database.Users.{find_user}
use sisop2_tf.Database.Follow.{contains, followers_of}
use sisop2_tf.Database.Retrieve.{find_tweet, pending_of, received_from}

-- What a reader sees of a tweet.
pub record Post : Type 0 where
  pub author_id : ℕ
  pub timestamp : ℕ
  pub payload : List ℕ

pub record Service : Type 0 where
  pub users : List UserType
  pub followers : ℕ → List ℕ
  pub inbox : ℕ → List Post
  pub kept : ℕ → List Post
  pub sessions : ℕ → ℕ

-- The user becomes the last follower of the target.
abbrev pub with_follower : Service → ℕ → ℕ → Service
with_follower a target cur = record a {
  followers = λ u. if target == u then a.followers u ++ cur ∷ [] else a.followers u;
}

-- Every follower of the author has one post more to read.
abbrev pub with_post : Service → ℕ → Post → Service
with_post a author post = record a {
  inbox = λ u. if contains u (a.followers author) then a.inbox u ++ post ∷ [] else a.inbox u;
}

-- A user with nothing to read takes what was kept; another reads all, and it is kept for the user's
-- second session if there is one.
abbrev pub read_from : Service → ℕ → List Post → List Post × Service
read_from a user [] = (a.kept user, record a { kept = λ u. if user == u then [] else a.kept u })
read_from a user (post ∷ posts) = (
  post ∷ posts,
  record a {
    inbox = λ u. if user == u then [] else a.inbox u;
    kept = λ u.
        if user == u
        then a.kept u ++ (if a.sessions user == 2 then post ∷ posts else [])
        else a.kept u;
  },
)

abbrev pub read_all : Service → ℕ → List Post × Service
read_all a user = read_from a user (a.inbox user)

abbrev pub content : TweetData → Post
content w = record { author_id = w.author_id; timestamp = w.timestamp; payload = w.payload }

abbrev pub content_of : Option TweetData → Option Post
content_of none = none
content_of (some w) = some (content w)

abbrev pub or_nothing : Option Post → Post
or_nothing none = record { author_id = 0; timestamp = 0; payload = [] }
or_nothing (some post) = post

-- The post that an entry stands for.
abbrev pub post_of : List (List TweetData) → PendingTweet → Post
post_of rows e = or_nothing (content_of (find_tweet e.tweet_id (get_or rows e.user_author [])))

-- What the tables and the connection manager stand for.
abbrev pub view : Tables → ConnectionManager → Service
view t c = record {
  users = t.list_of_users;
  followers = followers_of t;
  inbox = λ u. map (post_of t.list_of_received_tweets) (pending_of t u);
  kept = λ u. map content (kept c u);
  sessions = Limit.sessions c;
}

-- ===== src/Database/UpdateRun.antt =====
-- `postUpdate` (src/main_server.cpp) from a state at rest.
use sisop2_tf.Base.{
  ℕ, ◌+◌, ◌-◌, ◌^◌, ◌<◌, ◌≡◌, refl, inl, inr, true, List, [], ◌∷◌, ◌++◌, arith, ◌==◌, if◌then◌else◌,
  length, update_at, length-update_at, All, All-get_or, Bool-cases, lt→ltb, leb_refl, take-length,
  ok,
}
use sisop2_tf.Data.{TweetData, PendingTweet}
use sisop2_tf.Connections.{ConnectionManager}
use sisop2_tf.Database.State.{Tables, Server, at_rest, free_locks}
use sisop2_tf.Database.Follow.{followers_of, get_num_followers}
use sisop2_tf.Database.Update.{
  register_update, forward_to, forward_update_to_followers, post_update,
}
use sisop2_tf.Database.Tables.{
  AreFollowers, IsValid, forwarded, numbered, posted, stored, entry_for,
}

abbrev with_pending : Server → List (List PendingTweet) → Server
with_pending s rows = record s { tables = record s.tables { list_of_pending_tweets = rows } }

forward_to-forwarded :
    (n : ℕ) (e : PendingTweet) (xs : List ℕ) (s : Server)
    → length s.tables.list_of_pending_tweets ≡ n
    → All (λ x. x < n) xs
    → forward_to e xs s ≡ ok tt (with_pending s (forwarded e xs s.tables.list_of_pending_tweets))
unfolding forward_to
forward_to-forwarded n e [] s l h = refl
forward_to-forwarded n e (x ∷ xs) s l h =
    let rows = update_at x (λ es. es ++ e ∷ []) s.tables.list_of_pending_tweets in
    let l' : length rows ≡ n = omega (
      arith,
      length-update_at x (λ (es : List PendingTweet). es ++ e ∷ []) s.tables.list_of_pending_tweets,
      l,
    ) in
    ground (
      arith,
      lt→ltb x (length s.tables.list_of_pending_tweets) (omega (arith, l, h.0)),
      forward_to-forwarded n e xs (with_pending s rows) l' h.1,
    )

-- The state in which the loop over the followers runs.
abbrev publishing : Tables → ConnectionManager → ℕ → TweetData → Server
publishing t c user tweet = record {
  tables = record t {
    list_of_received_tweets =
        update_at user (λ ws. ws ++ stored t user tweet ∷ []) t.list_of_received_tweets;
    num_tweets = t.num_tweets + 1;
  };
  locks = record free_locks {
    db_access_sem = 0;
    query_cnt = 1;
    lopt_read_try = 0;
    lopt_rw_sem = 0;
    lopt_w_cnt = 1;
  };
  connections = c;
}

-- A post by a user with followers stores the tweet and makes it pending for each follower; by a
-- user without, it only uses up a number.
abbrev pub post_outcome : Tables → ℕ → TweetData → Tables
post_outcome t user tweet =
    if length (followers_of t user) == 0 then numbered t else posted t user tweet

-- From a state at rest with valid tables, while tweet numbers last, a known user's `postUpdate` returns
-- true and leaves all locks free: a user with followers gets the tweet stored with its number and its
-- count of recipients and one entry for it pending for each follower; a user without followers only
-- uses up a number.
pub post_update-outcome :
    (t : Tables) (c : ConnectionManager) (user : ℕ) (tweet : TweetData)
    → IsValid t
    → user < length t.list_of_users
    → t.num_tweets < 2 ^ 31 - 1
    → post_update user tweet (at_rest t c) ≡ ok true (at_rest (post_outcome t user tweet) c)
unfolding post_update get_num_followers register_update forward_update_to_followers
post_update-outcome t c user tweet v known room =
    let room' = lt→ltb t.num_tweets (2 ^ 31 - 1) room in
    let listed =
      lt→ltb user (length t.list_of_followers) (omega (arith, known, v.followers_paired)) in
    let stored' =
      lt→ltb user (length t.list_of_received_tweets) (omega (arith, known, v.received_paired)) in
    let fs : AreFollowers (length t.list_of_users) (followers_of t user) =
      All-get_or (AreFollowers (length t.list_of_users)) user t.list_of_followers [] (tt, tt)
        v.followers_known in
    elim (Bool-cases (length (followers_of t user) == 0)) [
      | inl nobody ↦ ground (arith, room', listed, nobody)
      | inr somebody ↦ ground (
        arith,
        room',
        listed,
        stored',
        somebody,
        leb_refl (length (followers_of t user)),
        take-length (followers_of t user),
        forward_to-forwarded (length t.list_of_users) (entry_for t user) (followers_of t user)
            (publishing t c user tweet) v.pending_paired fs.0,
      )
    ]

-- The users stay, and one number is used up.
pub post_outcome-users :
    (t : Tables) (user : ℕ) (tweet : TweetData)
    → ((post_outcome t user tweet).list_of_users ≡ t.list_of_users)
      × ((post_outcome t user tweet).num_tweets ≡ t.num_tweets + 1)
post_outcome-users t user tweet = elim (Bool-cases (length (followers_of t user) == 0)) [
  | inl nobody ↦ ground (arith, nobody)
  | inr somebody ↦ ground (arith, somebody)
]

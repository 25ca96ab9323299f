-- ===== src/Database/Keeps.antt =====
-- A call of `postFollow`, `postUpdate` or `retrieveTweetsFromFollowed` (src/main_server.cpp) on valid
-- tables, from a state at rest.
use sisop2_tf.Base.{
  ℕ, ◌-◌, ◌^◌, ◌<◌, ◌≡◌, refl, inl, inr, true, List, [], ◌∷◌, arith, ◌==◌, length, Option-cases,
  Bool-cases, Returns, Returns-weaken, subst, sym,
}
use sisop2_tf.Data.{TweetData, PendingTweet}
use sisop2_tf.Connections.{ConnectionManager}
use sisop2_tf.Connections.Limit.{IsValid as IsValidManager, sessions}
use sisop2_tf.Database.State.{Tables, Server, at_rest, free_locks}
use sisop2_tf.Database.Users.{find_user}
use sisop2_tf.Database.Follow.{contains, followers_of, post_follow}
use sisop2_tf.Database.Update.{post_update}
use sisop2_tf.Database.Retrieve.{pending_of, retrieve_tweets_from_followed}
use sisop2_tf.Database.Tables.{IsValid, fetched}
use sisop2_tf.Database.Valid.{followed-IsValid, numbered-IsValid, posted-IsValid, fetched-IsValid}
use sisop2_tf.Database.FollowRun.{follow_outcome, post_follow-outcome}
use sisop2_tf.Database.UpdateRun.{post_outcome, post_update-outcome}
use sisop2_tf.Database.RetrieveRun.{FetchOutcome, retrieve-FetchOutcome}

-- A known user's `postFollow` returns and leaves the tables valid, also when it is refused.
pub post_follow-IsValid :
    (t : Tables) (c : ConnectionManager) (name : List ℕ) (cur timestamp : ℕ)
    → IsValid t
    → cur < length t.list_of_users
    → Returns (post_follow name cur timestamp (at_rest t c)) (λ _ s. IsValid s.tables)
post_follow-IsValid t c name cur timestamp v known =
    subst (λ o. Returns o (λ _ s. IsValid s.tables))
      (sym (post_follow-outcome t c name cur timestamp v))
      (elim (Option-cases (find_user name t.list_of_users)) [
        | inl e ↦ rw (e, follow_outcome, Returns) v
        | inr (target, e) ↦ elim (Bool-cases (contains cur (followers_of t target))) [
          | inl twice ↦ rw (e, twice, follow_outcome, Returns) v
          | inr new ↦
              rw (e, new, follow_outcome, Returns) (followed-IsValid t target cur v known new)
        ]
      ])

pub post_outcome-IsValid :
    (t : Tables) (user : ℕ) (tweet : TweetData)
    → IsValid t
    → user < length t.list_of_users
    → t.num_tweets < 2 ^ 31 - 1
    → IsValid (post_outcome t user tweet)
post_outcome-IsValid t user tweet v known room =
    elim (Bool-cases (length (followers_of t user) == 0)) [
      | inl nobody ↦ rw nobody (numbered-IsValid t v room)
      | inr somebody ↦
          rw somebody (posted-IsValid t user v known tweet (ground (arith, somebody)) room)
    ]

-- A known user's `postUpdate` returns true while tweet numbers last, and leaves the tables valid and
-- all locks free.
pub post_update-IsValid :
    (t : Tables) (c : ConnectionManager) (user : ℕ) (tweet : TweetData)
    → IsValid t
    → user < length t.list_of_users
    → t.num_tweets < 2 ^ 31 - 1
    → Returns
        (post_update user tweet (at_rest t c))
        (λ b s. (b ≡ true) × IsValid s.tables × (s.locks ≡ free_locks))
post_update-IsValid t c user tweet v known room =
    subst (λ o. Returns o (λ b s. (b ≡ true) × IsValid s.tables × (s.locks ≡ free_locks)))
      (sym (post_update-outcome t c user tweet v known room))
      (refl, post_outcome-IsValid t user tweet v known room, refl)

pub FetchOutcome-tables :
    (t : Tables) (c : ConnectionManager) (user : ℕ) (es : List PendingTweet) (ws : List TweetData)
    (s : Server)
    → FetchOutcome t c user es ws s
    → (s.tables ≡ fetched t user) × (s.locks ≡ free_locks)
FetchOutcome-tables t c user [] ws s h = (h.0, h.1)
FetchOutcome-tables t c user (e ∷ es) ws s h = (h.0, h.1)

-- A known user's `retrieveTweetsFromFollowed` returns if the user has a session, and leaves the tables
-- valid and all locks free.
pub retrieve-IsValid :
    (t : Tables) (c : ConnectionManager) (user : ℕ)
    → IsValid t
    → IsValidManager c
    → user < length t.list_of_users
    → 0 < sessions c user
    → Returns
        (retrieve_tweets_from_followed user (at_rest t c))
        (λ _ s. IsValid s.tables × (s.locks ≡ free_locks))
retrieve-IsValid t c user v m known online =
    Returns-weaken (FetchOutcome t c user (pending_of t user)) _ _
      (retrieve-FetchOutcome t c user v m known online)
      λ ws s h.
        let (same, free) = FetchOutcome-tables t c user (pending_of t user) ws s h in
        (subst IsValid (sym same) (fetched-IsValid t user v known), free)

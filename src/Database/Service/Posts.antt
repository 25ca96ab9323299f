-- ===== src/Database/Service/Posts.antt =====
-- The view of the tables (src/main_server.cpp) when a follower is added or a tweet is posted.
use sisop2_tf.Base.{
  ℕ, ◌≤◌, ◌<◌, ◌≡◌, refl, ◌∙◌, ap, sym, fun_ext, inl, inr, List, [], ◌∷◌, ◌++◌, some, arith, length,
  get_or-update_at, All-get_or, Bool-cases, List-cases, map, map-append,
}
use sisop2_tf.Data.{TweetData, PendingTweet}
use sisop2_tf.Connections.{ConnectionManager}
use sisop2_tf.Database.State.{Tables}
use sisop2_tf.Database.Follow.{contains, followers_of}
use sisop2_tf.Database.Retrieve.{find_tweet, pending_of, received_from}
use sisop2_tf.Database.Counting.{remaining, find_tweet-some}
use sisop2_tf.Database.Tables.{AreFollowers, IsValid, followed, stored, entry_for, numbered, posted}
use sisop2_tf.Database.Delivery.{AllFound, pending-AllFound_any}
use sisop2_tf.Database.Posting.{forwarded-get_or, find_tweet-posted}
use sisop2_tf.Database.UpdateRun.{post_outcome}
use sisop2_tf.Database.Service.{with_follower, with_post, content, post_of, view}

pub view-followed :
    (t : Tables) (c : ConnectionManager) (target cur : ℕ)
    → target < length t.list_of_followers
    → view (followed t target cur) c ≡ with_follower (view t c) target cur
view-followed t c target cur h =
    ap (λ f. record (view t c) { followers = f })
      (fun_ext λ u. get_or-update_at target u (λ fs. fs ++ cur ∷ []) t.list_of_followers [] h)

find_tweet-append :
    (id : ℕ) (ws : List TweetData) (x w : TweetData)
    → find_tweet id ws ≡ some w
    → find_tweet id (ws ++ x ∷ []) ≡ some w
unfolding find_tweet
find_tweet-append id [] x w e = absurd (ground (arith, e))
find_tweet-append id (y ∷ ws) x w e = ground (arith, find_tweet-append id ws x w)

module _ (t : Tables) (c : ConnectionManager) (user : ℕ) (tweet : TweetData) (v : IsValid t)
    (known : user < length t.list_of_users) where
  abbrev old : List (List TweetData)
  old = t.list_of_received_tweets

  abbrev new : List (List TweetData)
  new = (posted t user tweet).list_of_received_tweets

  -- The entry for the new tweet stands for it.
  post_of-entry_for : post_of new (entry_for t user) ≡ content tweet
  post_of-entry_for = ground (arith, find_tweet-posted t user tweet v known)

  -- An entry whose tweet is there stands for the same post as before.
  post_of-posted :
      (e : PendingTweet)
      → 1 ≤ remaining e.tweet_id (received_from t e.user_author)
      → post_of new e ≡ post_of old e
  post_of-posted e h =
      let (w, found) = find_tweet-some e.tweet_id (received_from t e.user_author) h in
      ground (
        arith,
        found,
        known,
        v.received_paired,
        get_or-update_at user e.user_author (λ ws. ws ++ stored t user tweet ∷ []) old [],
        find_tweet-append e.tweet_id (received_from t e.user_author) (stored t user tweet) w found,
      )

  posts-posted :
      (es : List PendingTweet) → AllFound t es → map (post_of new) es ≡ map (post_of old) es
  posts-posted [] h = refl
  posts-posted (e ∷ es) h = ground (arith, post_of-posted e h.0, posts-posted es h.1)

  -- What a user has to read when the tweet is posted.
  inbox-posted :
      (u : ℕ)
      → (view (posted t user tweet) c).inbox u ≡ (with_post (view t c) user (content tweet)).inbox u
  inbox-posted u =
      let n = length t.list_of_users in
      let fs = All-get_or (AreFollowers n) user t.list_of_followers [] (tt, tt) v.followers_known in
      let before = posts-posted (pending_of t u) (pending-AllFound_any t u v) in
      let row =
        forwarded-get_or n u (entry_for t user) (followers_of t user) t.list_of_pending_tweets
          v.pending_paired fs.0 fs.1 in
      elim (Bool-cases (contains u (followers_of t user))) [
        | inl follows ↦ ground (
          arith,
          follows,
          row,
          before,
          post_of-entry_for,
          map-append (post_of new) (pending_of t u) (entry_for t user ∷ []),
        )
        | inr others ↦ ground (arith, others, row, before)
      ]

  pub view-posted : view (posted t user tweet) c ≡ with_post (view t c) user (content tweet)
  view-posted = ap (λ f. record (view t c) { inbox = f }) (fun_ext inbox-posted)

  -- With no follower a post changes nothing that can be seen.
  publish_nobody : followers_of t user ≡ [] → with_post (view t c) user (content tweet) ≡ view t c
  unfolding contains
  publish_nobody e = ap (λ f. record (view t c) { inbox = f }) (fun_ext λ u. rw e refl)

  pub view-post_outcome :
      view (post_outcome t user tweet) c ≡ with_post (view t c) user (content tweet)
  view-post_outcome = elim (List-cases (followers_of t user)) [
    | inl nobody ↦
        let same : post_outcome t user tweet ≡ numbered t = ground (arith, nobody) in
        ap (λ t'. view t' c) same ∙ sym (publish_nobody nobody)
    | inr (f, fs, somebody) ↦
        let same : post_outcome t user tweet ≡ posted t user tweet = ground (arith, somebody) in
        ap (λ t'. view t' c) same ∙ view-posted
  ]

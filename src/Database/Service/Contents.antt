-- ===== src/Database/Service/Contents.antt =====
-- What the stored tweets say before and after `retrieveTweetsFromFollowed` (src/main_server.cpp) takes a
-- recipient off each.
use sisop2_tf.Base.{
  ℕ, ◌≤◌, ◌<◌, ◌≡◌, refl, inl, inr, List, [], ◌∷◌, some, arith, ◌==◌, if◌then◌else◌, length, get_or,
  update_at, length-update_at, get_or-update_at, All, All-get_or, Bool-cases, Option-cases, map,
}
use sisop2_tf.Data.{TweetData, PendingTweet}
use sisop2_tf.Connections.{ConnectionManager}
use sisop2_tf.Database.State.{Tables}
use sisop2_tf.Database.Retrieve.{find_tweet, pending_of, received_from}
use sisop2_tf.Database.Counting.{one_off, remaining, IsRow, find_tweet-some}
use sisop2_tf.Database.Tables.{AreEntries, IsValid, settled, fetched}
use sisop2_tf.Database.Delivery.{AllFound, Delivers, pending-AllFound_any}
use sisop2_tf.Database.Settling.{settled-IsRow}
use sisop2_tf.Database.Valid.{fetched-IsValid}
use sisop2_tf.Database.Service.{content, content_of, post_of, view}

find_tweet-remaining :
    (b id : ℕ) (ws : List TweetData) (w : TweetData)
    → IsRow b ws
    → find_tweet id ws ≡ some w
    → 1 ≤ remaining id ws
unfolding find_tweet
find_tweet-remaining b id [] w h e = absurd (ground (arith, e))
find_tweet-remaining b id (x ∷ ws) w h e = ground (arith, find_tweet-remaining b id ws w h.4)

-- A tweet that is still there has the content of before.
content_of-one_off :
    (b id id' : ℕ) (ws : List TweetData) (w : TweetData)
    → IsRow b ws
    → find_tweet id (one_off id' ws) ≡ some w
    → content_of (find_tweet id ws) ≡ some (content w)
unfolding find_tweet one_off
content_of-one_off b id id' [] w h e = absurd (ground (arith, e))
content_of-one_off b id id' (x ∷ ws) w h e =
    ground (arith, content_of-one_off b id id' ws w h.4, find_tweet-remaining b id ws w h.4)

content_of-settled :
    (a id b n : ℕ) (es : List PendingTweet) (rows : List (List TweetData)) (w : TweetData)
    → length rows ≡ n
    → AreEntries n es
    → All (IsRow b) rows
    → find_tweet id (get_or (settled es rows) a []) ≡ some w
    → content_of (find_tweet id (get_or rows a [])) ≡ some (content w)
content_of-settled a id b n [] rows w l k h e = ground (arith, e)
content_of-settled a id b n (x ∷ es) rows w l k h e =
    let rows' = update_at x.user_author (one_off x.tweet_id) rows in
    let l' : length rows' ≡ n =
      omega (arith, length-update_at x.user_author (one_off x.tweet_id) rows, l) in
    let row : IsRow b (get_or rows a []) = All-get_or (IsRow b) a rows [] tt h in
    let write =
      get_or-update_at x.user_author a (one_off x.tweet_id) rows [] (omega (arith, l, k.0)) in
    let rest = content_of-settled a id b n es rows' w l' k.1 (settled-IsRow b (x ∷ []) rows h) e in
    elim (Option-cases (find_tweet id (get_or rows' a []))) [
      | inl lost ↦ absurd (ground (arith, rest, lost))
      | inr (y, there) ↦
          ground
            (arith, rest, there, write, content_of-one_off b id x.tweet_id (get_or rows a []) y row)
    ]

-- What is returned for the entries is what they stand for.
pub content-Delivers :
    (t : Tables) (es : List PendingTweet) (ws : List TweetData)
    → Delivers t es ws
    → map content ws ≡ map (post_of t.list_of_received_tweets) es
content-Delivers t [] [] h = refl
content-Delivers t [] (w ∷ ws) h = absurd h
content-Delivers t (e ∷ es) [] h = absurd h
content-Delivers t (e ∷ es) (w ∷ ws) h = ground (arith, h.0, content-Delivers t es ws h.1)

module _ (t : Tables) (user : ℕ) (v : IsValid t) (known : user < length t.list_of_users) where
  abbrev old : List (List TweetData)
  old = t.list_of_received_tweets

  abbrev new : List (List TweetData)
  new = (fetched t user).list_of_received_tweets

  own_entries : AreEntries (length t.list_of_users) (pending_of t user)
  own_entries =
      All-get_or (AreEntries (length t.list_of_users)) user t.list_of_pending_tweets [] tt
        v.authors_known

  -- An entry whose tweet stays stands for the same post as before.
  post_of-fetched :
      (e : PendingTweet)
      → 1 ≤ remaining e.tweet_id (received_from (fetched t user) e.user_author)
      → post_of new e ≡ post_of old e
  post_of-fetched e h =
      let (w, found) =
        find_tweet-some e.tweet_id (received_from (fetched t user) e.user_author) h in
      ground (
        arith,
        found,
        content_of-settled e.user_author e.tweet_id t.num_tweets (length t.list_of_users)
            (pending_of t user) old w v.received_paired own_entries v.rows_sound found,
      )

  posts-fetched :
      (es : List PendingTweet)
      → AllFound (fetched t user) es
      → map (post_of new) es ≡ map (post_of old) es
  posts-fetched [] h = refl
  posts-fetched (e ∷ es) h = ground (arith, post_of-fetched e h.0, posts-fetched es h.1)

  -- What a user has to read when this user has fetched.
  pub inbox-fetched :
      (c : ConnectionManager) (u : ℕ)
      → (view (fetched t user) c).inbox u ≡ (if user == u then [] else (view t c).inbox u)
  inbox-fetched c u =
      let left =
        posts-fetched (pending_of (fetched t user) u)
          (pending-AllFound_any (fetched t user) u (fetched-IsValid t user v known)) in
      let write =
        get_or-update_at user u (λ (es : List PendingTweet). []) t.list_of_pending_tweets []
          (omega (arith, known, v.pending_paired)) in
      elim (Bool-cases (user == u)) [
        | inl own ↦ ground (arith, own, write)
        | inr others ↦ ground (arith, others, write, left)
      ]

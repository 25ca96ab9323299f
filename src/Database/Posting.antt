-- ===== src/Database/Posting.antt =====
-- From `postUpdate` to `retrieveTweetsFromFollowed` (src/main_server.cpp): a tweet reaches a follower.
use sisop2_tf.Base.{
  ℕ, ◌-◌, ◌%◌, ◌^◌, ◌<◌, ◌≤◌, ◌≡◌, refl, true, List, [], ◌∷◌, ◌++◌, some, arith, if◌then◌else◌,
  length, get_or, update_at, length-update_at, get_or-update_at, All, All-get_or, Returns,
  Returns-weaken, subst, sym, ◌>>=◌,
}
use sisop2_tf.Data.{TweetData, PendingTweet}
use sisop2_tf.Connections.{ConnectionManager}
use sisop2_tf.Connections.Limit.{IsValid as IsValidManager, sessions}
use sisop2_tf.Database.State.{Tables, Server, at_rest}
use sisop2_tf.Database.Follow.{contains, followers_of}
use sisop2_tf.Database.Update.{post_update}
use sisop2_tf.Database.Retrieve.{
  find_tweet, pending_of, received_from, retrieve_tweets_from_followed,
}
use sisop2_tf.Database.Counting.{IsRow}
use sisop2_tf.Database.Tables.{
  AreFollowers, IsDistinct, IsValid, forwarded, stored, entry_for, posted,
}
use sisop2_tf.Database.Delivery.{Delivers}
use sisop2_tf.Database.Valid.{posted-IsValid}
use sisop2_tf.Database.UpdateRun.{post_update-outcome}
use sisop2_tf.Database.RetrieveRun.{FetchOutcome, retrieve-FetchOutcome}

-- The loop over the followers appends one entry to each follower's list, and to no other list.
pub forwarded-get_or :
    (n j : ℕ) (e : PendingTweet) (xs : List ℕ) (rows : List (List PendingTweet))
    → length rows ≡ n
    → All (λ x. x < n) xs
    → IsDistinct xs
    → get_or (forwarded e xs rows) j []
      ≡ (if contains j xs then get_or rows j [] ++ e ∷ [] else get_or rows j [])
unfolding contains
forwarded-get_or n j e [] rows l h d = refl
forwarded-get_or n j e (x ∷ xs) rows l h d =
    let push : List PendingTweet → List PendingTweet = λ es. es ++ e ∷ [] in
    ground (
      arith,
      forwarded-get_or n j e xs (update_at x push rows)
          (omega (arith, l, length-update_at x push rows)) h.1 d.1,
      get_or-update_at x j push rows [] (omega (arith, l, h.0)),
      d.0,
    )

find_tweet_fresh :
    (b : ℕ) (ws : List TweetData) (w : TweetData)
    → IsRow b ws
    → w.tweet_id ≡ b
    → find_tweet b (ws ++ w ∷ []) ≡ some w
unfolding find_tweet
find_tweet_fresh b [] w h e = ground arith
find_tweet_fresh b (x ∷ ws) w h e = ground (arith, find_tweet_fresh b ws w h.4 e)

-- The last of the results belongs to the last of the entries.
Delivers-last :
    (t : Tables) (es : List PendingTweet) (e : PendingTweet) (ws : List TweetData) (w : TweetData)
    → find_tweet e.tweet_id (received_from t e.user_author) ≡ some w
    → Delivers t (es ++ e ∷ []) ws
    → (vs : List TweetData) × (ws ≡ vs ++ w ∷ []) × Delivers t es vs
Delivers-last t [] e [] w f h = absurd h
Delivers-last t [] e (x ∷ []) w f h = ([], ground (arith, f, h.0), tt)
Delivers-last t [] e (x ∷ y ∷ ws) w f h = absurd h.1
Delivers-last t (e' ∷ es) e [] w f h = absurd h
Delivers-last t (e' ∷ es) e (x ∷ ws) w f h =
    let (vs, split, rest) = Delivers-last t es e ws w f h.1 in (x ∷ vs, rw split refl, (h.0, rest))

-- After a post by a user whom the reader follows, the reader's last entry is the one for that post.
pub pending-posted :
    (t : Tables) (author reader : ℕ) (tweet : TweetData)
    → IsValid t
    → contains reader (followers_of t author) ≡ true
    → pending_of (posted t author tweet) reader ≡ pending_of t reader ++ entry_for t author ∷ []
pending-posted t author reader tweet v follows =
    let n = length t.list_of_users in
    let fs = All-get_or (AreFollowers n) author t.list_of_followers [] (tt, tt) v.followers_known in
    ground (
      arith,
      follows,
      forwarded-get_or n reader (entry_for t author) (followers_of t author)
          t.list_of_pending_tweets v.pending_paired fs.0 fs.1,
    )

-- And the author's row holds the tweet under that entry's number.
pub find_tweet-posted :
    (t : Tables) (author : ℕ) (tweet : TweetData)
    → IsValid t
    → author < length t.list_of_users
    → find_tweet t.num_tweets (received_from (posted t author tweet) (author % 2 ^ 32))
      ≡ some (stored t author tweet)
find_tweet-posted t author tweet v known =
    let row = received_from t author in
    let sound =
      All-get_or (IsRow t.num_tweets) author t.list_of_received_tweets [] tt v.rows_sound in
    ground (
      arith,
      known,
      v.few_users,
      v.received_paired,
      get_or-update_at author author (λ ws. ws ++ stored t author tweet ∷ [])
          t.list_of_received_tweets [],
      find_tweet_fresh t.num_tweets row (stored t author tweet) sound refl,
    )

pub contains-length : (j : ℕ) (xs : List ℕ) → contains j xs ≡ true → 1 ≤ length xs
unfolding contains
contains-length j [] h = ground (arith, h)
contains-length j (x ∷ xs) h = ground arith

-- What the reader gets: what was pending before, and the new tweet at the end.
abbrev pub Reaches : Tables → ℕ → ℕ → TweetData → List TweetData → Type 0
Reaches t author reader tweet ws =
    (vs : List TweetData) × (ws ≡ vs ++ stored t author tweet ∷ [])
    × Delivers (posted t author tweet) (pending_of t reader) vs

FetchOutcome-Delivers :
    (t : Tables) (c : ConnectionManager) (user : ℕ) (es : List PendingTweet) (e : PendingTweet)
    (ws : List TweetData) (s : Server)
    → FetchOutcome t c user (es ++ e ∷ []) ws s
    → Delivers t (pending_of t user) ws
FetchOutcome-Delivers t c user [] e ws s h = h.2
FetchOutcome-Delivers t c user (x ∷ es) e ws s h = h.2

-- A fetch behind a post by a user whom the reader follows.
pub FetchOutcome-Reaches :
    (t : Tables) (c : ConnectionManager) (author reader : ℕ) (tweet : TweetData)
    (ws : List TweetData) (s : Server)
    → IsValid t
    → author < length t.list_of_users
    → contains reader (followers_of t author) ≡ true
    → FetchOutcome (posted t author tweet) c reader (pending_of (posted t author tweet) reader) ws s
    → Reaches t author reader tweet ws
FetchOutcome-Reaches t c author reader tweet ws s v known follows h =
    let after = posted t author tweet in
    let e = entry_for t author in
    let last = pending-posted t author reader tweet v follows in
    let h' = subst (λ es. FetchOutcome after c reader es ws s) last h in
    let all = FetchOutcome-Delivers after c reader (pending_of t reader) e ws s h' in
    Delivers-last after (pending_of t reader) e ws (stored t author tweet)
      (find_tweet-posted t author tweet v known) (subst (λ es. Delivers after es ws) last all)

-- When a known user posts a tweet, tweet numbers last, and a known user who follows the author and has
-- a session then fetches, the fetch returns the tweets that were pending before, in order, and the new
-- tweet as the last, with its number and its count of recipients.
pub post-retrieve :
    (t : Tables) (c : ConnectionManager) (author reader : ℕ) (tweet : TweetData)
    → IsValid t
    → IsValidManager c
    → author < length t.list_of_users
    → reader < length t.list_of_users
    → contains reader (followers_of t author) ≡ true
    → t.num_tweets < 2 ^ 31 - 1
    → 0 < sessions c reader
    → Returns
        ((post_update author tweet >>= λ _. retrieve_tweets_from_followed reader) (at_rest t c))
        (λ ws _. Reaches t author reader tweet ws)
post-retrieve t c author reader tweet v m known known' follows room online =
    let some_fs = contains-length reader (followers_of t author) follows in
    let run : (post_update author tweet >>= λ _. retrieve_tweets_from_followed reader) (at_rest t c)
        ≡ retrieve_tweets_from_followed reader (at_rest (posted t author tweet) c) =
      ground (arith, post_update-outcome t c author tweet v known room, some_fs) in
    let got =
      retrieve-FetchOutcome (posted t author tweet) c reader
        (posted-IsValid t author v known tweet some_fs room) m known' online in
    subst (λ o. Returns o (λ ws _. Reaches t author reader tweet ws)) (sym run)
      (Returns-weaken
        (FetchOutcome (posted t author tweet) c reader (pending_of (posted t author tweet) reader))
        _ _ got λ ws s h. FetchOutcome-Reaches t c author reader tweet ws s v known follows h)

-- ===== src/Database/Valid.antt =====
-- The changes that `postFollow`, `postUpdate` and `retrieveTweetsFromFollowed` (src/main_server.cpp)
-- make keep the tables valid.
use sisop2_tf.Base.{
  ℕ, ◌+◌, ◌-◌, ◌^◌, ◌≤◌, ◌<◌, ◌≡◌, refl, false, List, [], ◌∷◌, ◌++◌, arith, length,
  length-update_at, get_or-update_at, All-append, All-update_at, All-get_or, All-map,
}
use sisop2_tf.Data.{TweetData, PendingTweet}
use sisop2_tf.Database.State.{Tables}
use sisop2_tf.Database.Follow.{contains, followers_of}
use sisop2_tf.Database.Retrieve.{pending_of, received_from}
use sisop2_tf.Database.Counting.{
  refs, remaining, IsRow, refs-update_at, remaining-append, IsRow-append, IsRow-mono,
  remaining_fresh,
}
use sisop2_tf.Database.Tables.{
  AreFollowers, AreEntries, IsValid, followed, numbered, stored, entry_for, posted, fetched,
}
use sisop2_tf.Database.Followers.{IsDistinct-append, length-le}
use sisop2_tf.Database.Settling.{
  refs-forwarded, length-forwarded, forwarded-AreEntries, length-settled, settled-IsRow,
  remaining-settled,
}

-- A known user is added to the followers of another.
pub followed-IsValid :
    (t : Tables) (target cur : ℕ)
    → IsValid t
    → cur < length t.list_of_users
    → contains cur (followers_of t target) ≡ false
    → IsValid (followed t target cur)
followed-IsValid t target cur v known new = record {
  few_users = v.few_users;
  few_tweets = v.few_tweets;
  followers_paired = omega (
    arith,
    length-update_at target (λ (fs : List ℕ). fs ++ cur ∷ []) t.list_of_followers,
    v.followers_paired,
  );
  received_paired = v.received_paired;
  pending_paired = v.pending_paired;
  followers_known =
      All-update_at (AreFollowers n) target _ t.list_of_followers []
        (λ _. (All-append _ row (cur ∷ []) old.0 (known, tt), IsDistinct-append cur row new old.1))
        v.followers_known;
  rows_sound = v.rows_sound;
  authors_known = v.authors_known;
  counted = v.counted;
}
  where
    n : ℕ
    n = length t.list_of_users

    row : List ℕ
    row = followers_of t target

    old : AreFollowers n row
    old = All-get_or (AreFollowers n) target t.list_of_followers [] (tt, tt) v.followers_known

-- A tweet number that is given out, and not used.
pub numbered-IsValid : (t : Tables) → IsValid t → t.num_tweets < 2 ^ 31 - 1 → IsValid (numbered t)
numbered-IsValid t v h = record {
  few_users = v.few_users;
  few_tweets = omega arith;
  followers_paired = v.followers_paired;
  received_paired = v.received_paired;
  pending_paired = v.pending_paired;
  followers_known = v.followers_known;
  rows_sound =
      All-map (IsRow t.num_tweets) _ t.list_of_received_tweets (IsRow-mono t.num_tweets)
        v.rows_sound;
  authors_known = v.authors_known;
  counted = v.counted;
}

module _ (t : Tables) (user : ℕ) (v : IsValid t) (known : user < length t.list_of_users) where
  abbrev n : ℕ
  n = length t.list_of_users

  abbrev fs : List ℕ
  fs = followers_of t user

  fs_known : AreFollowers n fs
  fs_known = All-get_or (AreFollowers n) user t.list_of_followers [] (tt, tt) v.followers_known

  few_fs : length fs ≤ n
  few_fs = length-le n fs fs_known.0 fs_known.1

  received_from-IsRow : (a : ℕ) → IsRow t.num_tweets (received_from t a)
  received_from-IsRow a =
      All-get_or (IsRow t.num_tweets) a t.list_of_received_tweets [] tt v.rows_sound

  posted-counted :
      (tweet : TweetData) (a id : ℕ)
      → remaining id (received_from (posted t user tweet) a)
        ≡ refs a id (posted t user tweet).list_of_pending_tweets
  posted-counted tweet a id = ground (
    arith,
    known,
    few_fs,
    v.few_users,
    v.received_paired,
    v.counted a id,
    get_or-update_at user a (λ ws. ws ++ stored t user tweet ∷ []) t.list_of_received_tweets [],
    remaining-append t.num_tweets id (received_from t a) (stored t user tweet)
        (received_from-IsRow a) refl,
    remaining_fresh t.num_tweets (received_from t a) (received_from-IsRow a),
    refs-forwarded a id n (entry_for t user) fs t.list_of_pending_tweets v.pending_paired
        fs_known.0,
  )

  -- A user with followers posts a tweet.
  pub posted-IsValid :
      (tweet : TweetData)
      → 1 ≤ length fs
      → t.num_tweets < 2 ^ 31 - 1
      → IsValid (posted t user tweet)
  posted-IsValid tweet some_fs room = record {
    few_users = v.few_users;
    few_tweets = omega arith;
    followers_paired = v.followers_paired;
    received_paired = omega (
      arith,
      length-update_at user (λ (ws : List TweetData). ws ++ stored t user tweet ∷ [])
          t.list_of_received_tweets,
      v.received_paired,
    );
    pending_paired =
        omega (
          arith,
          length-forwarded (entry_for t user) fs t.list_of_pending_tweets,
          v.pending_paired,
        );
    followers_known = v.followers_known;
    rows_sound =
        All-update_at (IsRow (t.num_tweets + 1)) user _ t.list_of_received_tweets []
          (λ _.
            IsRow-append t.num_tweets _ (stored t user tweet) (received_from-IsRow user) refl
              (ground (arith, few_fs, v.few_users)) (omega arith))
          (All-map (IsRow t.num_tweets) _ t.list_of_received_tweets (IsRow-mono t.num_tweets)
            v.rows_sound);
    authors_known =
        forwarded-AreEntries n (entry_for t user) fs t.list_of_pending_tweets
          (omega (arith, known, v.few_users)) v.authors_known;
    counted = posted-counted tweet;
  }

  own_entries : AreEntries n (pending_of t user)
  own_entries = All-get_or (AreEntries n) user t.list_of_pending_tweets [] tt v.authors_known

  -- A user fetches all that is pending.
  pub fetched-IsValid : IsValid (fetched t user)
  fetched-IsValid = record {
    few_users = v.few_users;
    few_tweets = v.few_tweets;
    followers_paired = v.followers_paired;
    received_paired =
        omega
          (arith, length-settled (pending_of t user) t.list_of_received_tweets, v.received_paired);
    pending_paired = omega (
      arith,
      length-update_at user (λ (es : List PendingTweet). []) t.list_of_pending_tweets,
      v.pending_paired,
    );
    followers_known = v.followers_known;
    rows_sound =
        settled-IsRow t.num_tweets (pending_of t user) t.list_of_received_tweets v.rows_sound;
    authors_known =
        All-update_at (AreEntries n) user _ t.list_of_pending_tweets [] (λ _. tt) v.authors_known;
    counted = λ a id. omega (
      arith,
      remaining-settled a id t.num_tweets n (pending_of t user) t.list_of_received_tweets
          v.received_paired own_entries v.rows_sound,
      refs-update_at a id user (λ es. []) t.list_of_pending_tweets
          (omega (arith, known, v.pending_paired)),
      v.counted a id,
    );
  }

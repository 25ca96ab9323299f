-- ===== src/Database/Settling.antt =====
-- The loops of `_forwardUpdateToFollowers` and `_updateReceivedTweet` (src/main_server.cpp) against
-- the counts of recipients.
use sisop2_tf.Base.{
  ℕ, ◌+◌, ◌-◌, ◌<◌, ◌≡◌, refl, ◌&&◌, List, [], ◌∷◌, ◌++◌, arith, ◌==◌, if◌then◌else◌, length,
  get_or, update_at, length-update_at, get_or-update_at, All, All-append, All-update_at, All-get_or,
}
use sisop2_tf.Data.{TweetData, PendingTweet}
use sisop2_tf.Database.Counting.{
  one_off, refs_in, refs, remaining, IsRow, refs_in-append, refs-update_at, remaining-one_off,
  one_off-IsRow,
}
use sisop2_tf.Database.Tables.{AreEntries, forwarded, settled}

abbrev push_entry : PendingTweet → List PendingTweet → List PendingTweet
push_entry e es = es ++ e ∷ []

-- Each write of the loop over the followers makes one more entry for the tweet.
pub refs-forwarded :
    (a id n : ℕ) (e : PendingTweet) (xs : List ℕ) (rows : List (List PendingTweet))
    → length rows ≡ n
    → All (λ x. x < n) xs
    → refs a id (forwarded e xs rows) ≡ (
        if e.user_author == a && e.tweet_id == id
        then refs a id rows + length xs
        else refs a id rows)
refs-forwarded a id n e [] rows l h = ground arith
refs-forwarded a id n e (x ∷ xs) rows l h =
    let rows' = update_at x (push_entry e) rows in
    let l' : length rows' ≡ n = omega (arith, length-update_at x (push_entry e) rows, l) in
    ground (
      arith,
      refs-forwarded a id n e xs rows' l' h.1,
      refs-update_at a id x (push_entry e) rows (omega (arith, l, h.0)),
      refs_in-append a id (get_or rows x []) (e ∷ []),
    )

pub length-forwarded :
    (e : PendingTweet) (xs : List ℕ) (rows : List (List PendingTweet))
    → length (forwarded e xs rows) ≡ length rows
length-forwarded e [] rows = refl
length-forwarded e (x ∷ xs) rows = omega (
  arith,
  length-forwarded e xs (update_at x (λ es. es ++ e ∷ []) rows),
  length-update_at x (λ (es : List PendingTweet). es ++ e ∷ []) rows,
)

pub forwarded-AreEntries :
    (n : ℕ) (e : PendingTweet) (xs : List ℕ) (rows : List (List PendingTweet))
    → e.user_author < n
    → All (AreEntries n) rows
    → All (AreEntries n) (forwarded e xs rows)
forwarded-AreEntries n e [] rows k h = h
forwarded-AreEntries n e (x ∷ xs) rows k h = forwarded-AreEntries n e xs _ k (
    All-update_at (AreEntries n) x _ rows []
      (λ _.
        All-append _ (get_or rows x []) (e ∷ []) (All-get_or (AreEntries n) x rows [] tt h) (k, tt))
      h)

pub length-settled :
    (es : List PendingTweet) (rows : List (List TweetData)) → length (settled es rows) ≡ length rows
length-settled [] rows = refl
length-settled (e ∷ es) rows = omega (
  arith,
  length-settled es (update_at e.user_author (one_off e.tweet_id) rows),
  length-update_at e.user_author (one_off e.tweet_id) rows,
)

pub settled-IsRow :
    (b : ℕ) (es : List PendingTweet) (rows : List (List TweetData))
    → All (IsRow b) rows
    → All (IsRow b) (settled es rows)
settled-IsRow b [] rows h = h
settled-IsRow b (e ∷ es) rows h = settled-IsRow b es _ (
    All-update_at (IsRow b) e.user_author _ rows []
      (λ _. one_off-IsRow b e.tweet_id _ (All-get_or (IsRow b) e.user_author rows [] tt h)) h)

-- Each entry that is settled takes one recipient off its tweet.
pub remaining-settled :
    (a id b n : ℕ) (es : List PendingTweet) (rows : List (List TweetData))
    → length rows ≡ n
    → AreEntries n es
    → All (IsRow b) rows
    → remaining id (get_or (settled es rows) a [])
      ≡ remaining id (get_or rows a []) - refs_in a id es
remaining-settled a id b n [] rows l k h = omega arith
remaining-settled a id b n (e ∷ es) rows l k h =
    let rows' = update_at e.user_author (one_off e.tweet_id) rows in
    let l' : length rows' ≡ n =
      omega (arith, length-update_at e.user_author (one_off e.tweet_id) rows, l) in
    ground (
      arith,
      remaining-settled a id b n es rows' l' k.1 (settled-IsRow b (e ∷ []) rows h),
      get_or-update_at e.user_author a (one_off e.tweet_id) rows [] (omega (arith, l, k.0)),
      remaining-one_off b e.tweet_id id (get_or rows a []) (All-get_or (IsRow b) a rows [] tt h),
    )

-- ===== src/Database/Counting.antt =====
-- Two ways to count the followers who have not read a tweet yet: `numRecipientsRemaining` of the
-- received tweet, and the entries for it in the lists of pending tweets (src/main_server.cpp).
use sisop2_tf.Base.{
  ℕ, zero, suc, ◌+◌, ◌-◌, ◌^◌, ◌≤◌, ◌<◌, ◌≡◌, refl, sym, ap, subst, ◌∙◌, ◌&&◌, List, [], ◌∷◌, ◌++◌,
  inl, inr, Option-cases, none, some, arith, ◌==◌, if◌then◌else◌, length, get_or, update_at,
}
use sisop2_tf.Data.{TweetData, PendingTweet}
use sisop2_tf.Database.Retrieve.{find_tweet, decrement}

-- The entries of one list for tweet `id` of author `a`.
abbrev pub refs_in : ℕ → ℕ → List PendingTweet → ℕ
refs_in a id [] = 0
refs_in a id (e ∷ es) =
    if e.user_author == a && e.tweet_id == id then suc (refs_in a id es) else refs_in a id es

-- The entries of all lists.
abbrev pub refs : ℕ → ℕ → List (List PendingTweet) → ℕ
refs a id [] = 0
refs a id (es ∷ rows) = refs_in a id es + refs a id rows

-- The recipients that remain by the tweet itself; none if the tweet is gone.
abbrev pub remaining : ℕ → List TweetData → ℕ
remaining id [] = 0
remaining id (w ∷ ws) = if w.tweet_id == id then w.num_recipients_remaining else remaining id ws

-- One recipient is taken off the first tweet of that id, which goes with its last one.
unfoldable pub one_off : ℕ → List TweetData → List TweetData
one_off id [] = []
one_off id (w ∷ ws) =
    let rest = one_off id ws in
    let n = w.num_recipients_remaining in
    if w.tweet_id == id
    then (if n == 1 then ws else record w { num_recipients_remaining = n - 1 } ∷ ws)
    else w ∷ rest

-- The received tweets of one author: ids below `b`, each once, and someone left to read each.
abbrev pub IsRow : ℕ → List TweetData → Type 0
IsRow b [] = Unit {0}
IsRow b (w ∷ ws) =
    (w.tweet_id < b)
    × (1 ≤ w.num_recipients_remaining)
    × (w.num_recipients_remaining < 2 ^ 32)
    × (remaining w.tweet_id ws ≡ 0)
    × IsRow b ws

pub refs_in-append :
    (a id : ℕ) (es fs : List PendingTweet)
    → refs_in a id (es ++ fs) ≡ refs_in a id es + refs_in a id fs
refs_in-append a id [] fs = omega arith
refs_in-append a id (e ∷ es) fs = ground (arith, refs_in-append a id es fs)

pub refs-update_at :
    (a id i : ℕ) (f : List PendingTweet → List PendingTweet) (rows : List (List PendingTweet))
    → i < length rows
    → refs a id (update_at i f rows) + refs_in a id (get_or rows i [])
      ≡ refs a id rows + refs_in a id (f (get_or rows i []))
refs-update_at a id i f [] h = absurd (omega arith)
refs-update_at a id zero f (es ∷ rows) h = omega arith
refs-update_at a id (suc i) f (es ∷ rows) h =
    omega (arith, refs-update_at a id i f rows (omega arith))

-- A tweet with a new id goes to the end of a row.
pub remaining-append :
    (b id : ℕ) (ws : List TweetData) (w : TweetData)
    → IsRow b ws
    → w.tweet_id ≡ b
    → remaining id (ws ++ w ∷ [])
      ≡ (if b == id then w.num_recipients_remaining else remaining id ws)
remaining-append b id [] w h e = ground arith
remaining-append b id (x ∷ ws) w h e = ground (arith, remaining-append b id ws w h.4 e)

pub IsRow-append :
    (b : ℕ) (ws : List TweetData) (w : TweetData)
    → IsRow b ws
    → w.tweet_id ≡ b
    → 1 ≤ w.num_recipients_remaining
    → w.num_recipients_remaining < 2 ^ 32
    → IsRow (b + 1) (ws ++ w ∷ [])
IsRow-append b [] w h e p q = ground arith
IsRow-append b (x ∷ ws) w h e p q =
    ground (arith, IsRow-append b ws w h.4 e, remaining-append b x.tweet_id ws w h.4 e)

pub remaining_fresh : (b : ℕ) (ws : List TweetData) → IsRow b ws → remaining b ws ≡ 0
remaining_fresh b [] h = refl
remaining_fresh b (w ∷ ws) h = ground (arith, remaining_fresh b ws h.4)

pub IsRow-mono : (b : ℕ) (ws : List TweetData) → IsRow b ws → IsRow (b + 1) ws
IsRow-mono b [] h = tt
IsRow-mono b (w ∷ ws) h = ground (arith, IsRow-mono b ws h.4)

remaining-decrement :
    (b id id' : ℕ) (ws : List TweetData)
    → IsRow b ws
    → remaining id' (decrement id ws)
      ≡ (if id == id' then remaining id' ws - 1 else remaining id' ws)
unfolding decrement
remaining-decrement b id id' [] h = ground arith
remaining-decrement b id id' (w ∷ ws) h = ground (arith, remaining-decrement b id id' ws h.4)

decrement-IsRow : (b id : ℕ) (ws : List TweetData) → IsRow b ws → IsRow b (decrement id ws)
unfolding decrement
decrement-IsRow b id [] h = tt
decrement-IsRow b id (w ∷ ws) h =
    ground (arith, decrement-IsRow b id ws h.4, remaining-decrement b id w.tweet_id ws h.4)

-- The loop of `_updateReceivedTweet` takes one recipient off.
pub decrement-one_off :
    (b id : ℕ) (ws : List TweetData) → IsRow b ws → decrement id ws ≡ one_off id ws
unfolding decrement one_off
decrement-one_off b id [] h = refl
decrement-one_off b id (w ∷ ws) h = ground (arith, decrement-one_off b id ws h.4, h.1, h.2)

pub remaining-one_off :
    (b id id' : ℕ) (ws : List TweetData)
    → IsRow b ws
    → remaining id' (one_off id ws) ≡ (if id == id' then remaining id' ws - 1 else remaining id' ws)
remaining-one_off b id id' ws h =
    sym (ap (remaining id') (decrement-one_off b id ws h)) ∙ remaining-decrement b id id' ws h

pub one_off-IsRow : (b id : ℕ) (ws : List TweetData) → IsRow b ws → IsRow b (one_off id ws)
one_off-IsRow b id ws h = subst (IsRow b) (decrement-one_off b id ws h) (decrement-IsRow b id ws h)

pub find_tweet-none : (id : ℕ) (ws : List TweetData) → find_tweet id ws ≡ none → remaining id ws ≡ 0
unfolding find_tweet
find_tweet-none id [] e = refl
find_tweet-none id (w ∷ ws) e = ground (arith, find_tweet-none id ws)

pub find_tweet-some :
    (id : ℕ) (ws : List TweetData)
    → 1 ≤ remaining id ws
    → (w : TweetData) × (find_tweet id ws ≡ some w)
find_tweet-some id ws p = elim (Option-cases (find_tweet id ws)) [
  | inl e ↦ absurd (omega (arith, find_tweet-none id ws e))
  | inr found ↦ found
]

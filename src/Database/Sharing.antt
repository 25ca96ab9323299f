-- ===== src/Database/Sharing.antt =====
-- The last steps of `retrieveTweetsFromFollowed` (src/main_server.cpp): what is kept for a user's
-- second session, and the recipients that are taken off the tweets.
use sisop2_tf.Base.{
  ℕ, zero, suc, All, ap, ◌<◌, ◌≡◌, refl, sym, subst, inl, inr, List, [], ◌∷◌, ◌++◌, arith, ◌==◌,
  if◌then◌else◌, length, update_at, length-update_at, append-nil, append_assoc, Bool-cases, lt→ltb,
  ok, Returns-ok,
}
use sisop2_tf.Data.{TweetData, PendingTweet}
use sisop2_tf.Connections.{ConnectionManager}
use sisop2_tf.Connections.Count.{count}
use sisop2_tf.Connections.Limit.{IsValid as IsValidManager, sessions}
use sisop2_tf.Connections.Duplicates.{
  kept, Keeps, register_duplicate_tweet-Keeps, does_client_have_two_connections-sessions,
}
use sisop2_tf.Database.State.{Server}
use sisop2_tf.Database.Retrieve.{decrement, update_received_tweet, update_all, duplicate_all, share}
use sisop2_tf.Database.Tables.{AreEntries, settled}
use sisop2_tf.Database.Counting.{IsRow, one_off, decrement-one_off}
use sisop2_tf.Database.Settling.{settled-IsRow}

abbrev with_connections : Server → ConnectionManager → Server
with_connections s c = record s { connections = c }

-- The tweets are kept for the second session of the user, after those kept before.
abbrev pub Shares : ℕ → List TweetData → ConnectionManager → ConnectionManager → Type 0
Shares user ws c d =
    IsValidManager d
    × (d.list_of_connected_users ≡ c.list_of_connected_users)
    × ((j : ℕ) → kept d j ≡ (if user == j then kept c j ++ ws else kept c j))

duplicate_all-Shares :
    (user : ℕ) (ws : List TweetData) (s : Server)
    → IsValidManager s.connections
    → 0 < sessions s.connections user
    → (d : ConnectionManager) × (duplicate_all user ws s ≡ ok tt (with_connections s d))
      × Shares user ws s.connections d
unfolding duplicate_all
duplicate_all-Shares user [] s v h =
    (s.connections, refl, (v, refl, λ j. ground (arith, append-nil (kept s.connections j))))
duplicate_all-Shares user (w ∷ ws) s v h =
    let (b, c, run, (valid, users, keeps)) =
      Returns-ok (λ _. Keeps user w s.connections) _
        (register_duplicate_tweet-Keeps user w s.connections v h) in
    let (d, runs, (valid', users', keeps')) =
      duplicate_all-Shares user ws (with_connections s c) valid
        (subst (λ us. 0 < count user us) (sym users) h) in
    (
      d,
      ground (arith, run, runs),
      (
        valid',
        ground (arith, users, users'),
        λ j. ground (arith, keeps j, keeps' j, append_assoc (kept s.connections j) (w ∷ []) ws),
      ),
    )

-- What is shared: everything, if the user has two sessions.
abbrev pub for_second : ConnectionManager → ℕ → List TweetData → List TweetData
for_second c user ws = if sessions c user == 2 then ws else []

pub share-Shares :
    (user : ℕ) (e : PendingTweet) (es : List PendingTweet) (ws : List TweetData) (s : Server)
    → IsValidManager s.connections
    → 0 < sessions s.connections user
    → (d : ConnectionManager) × (share user (e ∷ es) ws s ≡ ok tt (with_connections s d))
      × Shares user (for_second s.connections user ws) s.connections d
unfolding share
share-Shares user e es ws s v h =
    let asked = does_client_have_two_connections-sessions user s.connections v h in
    elim (Bool-cases (sessions s.connections user == 2)) [
      | inl two ↦
          let (d, run, facts) = duplicate_all-Shares user ws s v h in
          (d, ground (arith, asked, two, run), rw two facts)
      | inr one ↦ (
        s.connections,
        ground (arith, asked, one),
        rw one (v, refl, λ j. ground (arith, append-nil (kept s.connections j))),
      )
    ]

abbrev with_received : Server → List (List TweetData) → Server
with_received s rows = record s { tables = record s.tables { list_of_received_tweets = rows } }

update_at-decrement :
    (b a id : ℕ) (rows : List (List TweetData))
    → All (IsRow b) rows
    → update_at a (decrement id) rows ≡ update_at a (one_off id) rows
update_at-decrement b a id [] h = refl
update_at-decrement b zero id (ws ∷ rows) h = ap (λ xs. xs ∷ rows) (decrement-one_off b id ws h.0)
update_at-decrement b (suc a) id (ws ∷ rows) h =
    ap (λ xs. ws ∷ xs) (update_at-decrement b a id rows h.1)

pub update_all-settled :
    (b n : ℕ) (es : List PendingTweet) (s : Server)
    → s.locks.lort_rw_sem ≡ 1
    → length s.tables.list_of_received_tweets ≡ n
    → AreEntries n es
    → All (IsRow b) s.tables.list_of_received_tweets
    → update_all es s ≡ ok tt (with_received s (settled es s.tables.list_of_received_tweets))
unfolding update_all update_received_tweet
update_all-settled b n [] s free l h sound = refl
update_all-settled b n (e ∷ es) s free l h sound =
    let rows = s.tables.list_of_received_tweets in
    let after = update_at e.user_author (one_off e.tweet_id) rows in
    let off : update_at e.user_author (decrement e.tweet_id) rows ≡ after =
      update_at-decrement b e.user_author e.tweet_id rows sound in
    ground (
      arith,
      free,
      off,
      lt→ltb e.user_author (length rows) (omega (arith, l, h.0)),
      update_all-settled b n es (with_received s after) free
          (omega (arith, l, length-update_at e.user_author (one_off e.tweet_id) rows)) h.1
          (settled-IsRow b (e ∷ []) rows sound),
    )

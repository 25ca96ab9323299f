-- ===== src/Database/Delivery.antt =====
-- What `retrieveTweetsFromFollowed` (src/main_server.cpp) collects for the entries that were pending.
use sisop2_tf.Base.{
  Bool-cases, inl, inr, ltb, get_or_out, ℕ, ◌^◌, ◌≤◌, ◌<◌, ◌≡◌, refl, List, [], ◌∷◌, ◌++◌, some,
  arith, length, All, All-map, All-get_or, append_assoc, append-nil, lt→ltb, ok,
}
use sisop2_tf.Data.{TweetData, PendingTweet}
use sisop2_tf.Database.State.{Tables, Server}
use sisop2_tf.Database.Retrieve.{through_int, find_tweet, collect, pending_of, received_from}
use sisop2_tf.Database.Counting.{refs_in, refs-update_at, remaining, IsRow, find_tweet-some}
use sisop2_tf.Database.Tables.{IsValid, AreEntries}

-- One tweet for each entry, in their order: the author's tweet of that id.
abbrev pub Delivers : Tables → List PendingTweet → List TweetData → Type 0
Delivers t [] [] = Unit {0}
Delivers t [] (w ∷ ws) = ⊥
Delivers t (e ∷ es) [] = ⊥
Delivers t (e ∷ es) (w ∷ ws) =
    (find_tweet e.tweet_id (received_from t e.user_author) ≡ some w) × Delivers t es ws

-- Every entry's tweet is there.
abbrev pub AllFound : Tables → List PendingTweet → Type 0
AllFound t = All λ e. 1 ≤ remaining e.tweet_id (received_from t e.user_author)

own_refs : (es : List PendingTweet) → All (λ e. 1 ≤ refs_in e.user_author e.tweet_id es) es
own_refs [] = tt
own_refs (x ∷ es) = (ground arith, All-map _ _ es (λ e h. ground arith) (own_refs es))

pub pending-AllFound :
    (t : Tables) (user : ℕ)
    → IsValid t
    → user < length t.list_of_users
    → AllFound t (pending_of t user)
pending-AllFound t user v known =
    All-map _ _ (pending_of t user)
      (λ e h. omega (
        arith,
        v.counted e.user_author e.tweet_id,
        refs-update_at e.user_author e.tweet_id user (λ es. []) t.list_of_pending_tweets
            (omega (arith, known, v.pending_paired)),
      ))
      (own_refs (pending_of t user))

-- The same for an index that is no user's.
pub pending-AllFound_any : (t : Tables) (user : ℕ) → IsValid t → AllFound t (pending_of t user)
pending-AllFound_any t user v = elim (Bool-cases (ltb user (length t.list_of_users))) [
  | inl known ↦ pending-AllFound t user v (ground (arith, known))
  | inr unknown ↦
      rw (get_or_out user t.list_of_pending_tweets [] (ground (arith, unknown, v.pending_paired)))
        tt
]

id-lt : (b id : ℕ) (ws : List TweetData) → IsRow b ws → 1 ≤ remaining id ws → id < b
id-lt b id [] h p = absurd (omega arith)
id-lt b id (w ∷ ws) h p = ground (arith, id-lt b id ws h.4)

through_int_small : (id : ℕ) → id < 2 ^ 31 → through_int id ≡ id
unfolding through_int
through_int_small id h = ground arith

pub collect-Delivers :
    (t : Tables) (s : Server) (acc : List TweetData) (es : List PendingTweet)
    → IsValid t
    → s.tables.list_of_received_tweets ≡ t.list_of_received_tweets
    → AreEntries (length t.list_of_users) es
    → AllFound t es
    → (ws : List TweetData) × (collect acc es s ≡ ok (acc ++ ws) s) × Delivers t es ws
unfolding collect
collect-Delivers t s acc [] v same known found = ([], rw append-nil refl, tt)
collect-Delivers t s acc (e ∷ es) v same known found =
    let row = received_from t e.user_author in
    let (w, is_w) = find_tweet-some e.tweet_id row found.0 in
    let small = through_int_small e.tweet_id (
      omega (
        arith,
        v.few_tweets,
        id-lt t.num_tweets e.tweet_id row
            (All-get_or (IsRow t.num_tweets) e.user_author t.list_of_received_tweets [] tt
              v.rows_sound)
            found.0,
      )) in
    let (ws, run, all) = collect-Delivers t s (acc ++ w ∷ []) es v same known.1 found.1 in
    let in_range =
      lt→ltb e.user_author (length t.list_of_received_tweets)
        (omega (arith, known.0, v.received_paired)) in
    (
      w ∷ ws,
      ground (arith, same, small, is_w, run, in_range, append_assoc acc (w ∷ []) ws),
      (is_w, all),
    )

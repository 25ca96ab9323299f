-- ===== src/Connections/Duplicates.antt =====
-- The tweets that `connectionManager` (src/main_server.cpp) keeps for a user's second session.
use sisop2_tf.Base.{
  ℕ, suc, zero, ◌<◌, ◌≡◌, refl, subst, inl, inr, true, List, [], ◌∷◌, ◌++◌, Option, none, some,
  arith, ltb, ◌==◌, if◌then◌else◌, length, get_or, update_at, length-update_at, get_or-update_at,
  Option-cases, lt→ltb, not, requires, ◌>>=◌, Returns, ok,
}
use sisop2_tf.Data.{TweetData, minus_one}
use sisop2_tf.Connections.{
  ConnectionManager, find_index, register_duplicate_tweet, retrieve_duplicate_tweet,
  does_client_have_two_connections, does_client_have_duplicate_tweets,
}
use sisop2_tf.Connections.Count.{find_index-some, find_index-none}
use sisop2_tf.Connections.Limit.{at_rest, at_rest-eq, IsValid, sessions, Users, Kept}

abbrev kept_at : Option ℕ → List (List TweetData) → List TweetData
kept_at none ds = []
kept_at (some i) ds = get_or ds i []

-- The tweets kept for a user.
abbrev pub kept : ConnectionManager → ℕ → List TweetData
kept s id = kept_at (find_index id s.list_of_connected_users) s.list_of_duplicated_tweets

find_index_inj :
    (id j i : ℕ) (us : Users) → find_index id us ≡ some i → find_index j us ≡ some i → id ≡ j
unfolding find_index
find_index_inj id j i [] p q = ground arith
find_index_inj id j zero (u ∷ us) p q = ground arith
find_index_inj id j (suc i) (u ∷ us) p q = ground (arith, find_index_inj id j i us)

-- A write to the list of one user leaves the lists of the others.
kept-update_at :
    (id i j : ℕ) (us : Users) (ds : Kept) (f : List TweetData → List TweetData)
    → length ds ≡ length us
    → find_index id us ≡ some i
    → kept_at (find_index j us) (update_at i f ds)
      ≡ (if id == j then f (kept_at (find_index j us) ds) else kept_at (find_index j us) ds)
kept-update_at id i j us ds f paired e =
    let (inside, _) = find_index-some id i us e in
    elim (Option-cases (find_index j us)) [
      | inl none_j ↦ rw none_j (ground arith)
      | inr (k, some_k) ↦ rw some_k (
          ground (
            arith,
            get_or-update_at i k f ds [],
            inside,
            paired,
            some_k,
            find_index_inj id j i us e,
          ))
    ]

abbrev pub Keeps : ℕ → TweetData → ConnectionManager → ConnectionManager → Type 0
Keeps id tweet s t =
    IsValid t
    × (t.list_of_connected_users ≡ s.list_of_connected_users)
    × ((j : ℕ) → kept t j ≡ (if id == j then kept s j ++ tweet ∷ [] else kept s j))

abbrev pub HandsOver : ℕ → ConnectionManager → List TweetData → ConnectionManager → Type 0
HandsOver id s tweets t =
    IsValid t
    × (t.list_of_connected_users ≡ s.list_of_connected_users)
    × (tweets ≡ kept s id)
    × ((j : ℕ) → kept t j ≡ (if id == j then [] else kept s j))

module _ (id i : ℕ) (us : Users) (ds : Kept) (v : IsValid (at_rest us ds))
    (e : find_index id us ≡ some i) where
  in_range : ltb i (length ds) ≡ true
  in_range = lt→ltb i (length ds) (omega (arith, (find_index-some id i us e).0, v.paired))

  kept-write :
      (j : ℕ) (f : List TweetData → List TweetData)
      → kept (at_rest us (update_at i f ds)) j
        ≡ (if id == j then f (kept (at_rest us ds) j) else kept (at_rest us ds) j)
  kept-write j f = kept-update_at id i j us ds f v.paired e

  write-IsValid : (f : List TweetData → List TweetData) → IsValid (at_rest us (update_at i f ds))
  write-IsValid f = record {
    free = refl;
    tracked = v.tracked;
    paired = ground (arith, v.paired, length-update_at i f ds);
  }

  register_at_rest :
      (tweet : TweetData)
      → Returns
          (register_duplicate_tweet id tweet (at_rest us ds))
          λ _. Keeps id tweet (at_rest us ds)
  unfolding register_duplicate_tweet
  register_at_rest tweet =
      let f : List TweetData → List TweetData = λ ts. ts ++ tweet ∷ [] in
      rw (e, in_range, requires, ◌>>=◌) (write-IsValid f, refl, λ j. kept-write j f)

  retrieve_at_rest :
      Returns (retrieve_duplicate_tweet id (at_rest us ds)) (HandsOver id (at_rest us ds))
  unfolding retrieve_duplicate_tweet
  retrieve_at_rest =
      let f : List TweetData → List TweetData = λ _. [] in
      rw (e, in_range, requires, ◌>>=◌) (write-IsValid f, refl, rw e, λ j. kept-write j f)

-- For a user with a session, an argument about a manager at rest and the user's place in it.
with_place :
    (P : ConnectionManager → Type 0) (id : ℕ) (s : ConnectionManager)
    → IsValid s
    → 0 < sessions s id
    → ((i : ℕ) (us : Users) (ds : Kept)
        → IsValid (at_rest us ds)
        → find_index id us ≡ some i
        → P (at_rest us ds))
    → P s
with_place P id s v h k =
    subst P (at_rest-eq s v.free) (elim (Option-cases (find_index id s.list_of_connected_users)) [
      | inl e ↦ absurd (omega (arith, find_index-none id s.list_of_connected_users e))
      | inr (i, e) ↦ k i _ _ (record { free = refl; tracked = v.tracked; paired = v.paired }) e
    ])

-- For a user with a session, `registerDuplicateTweet` returns, and appends the tweet to those kept
-- for that user; the sessions and what is kept for others stay.
pub register_duplicate_tweet-Keeps :
    (id : ℕ) (tweet : TweetData) (s : ConnectionManager)
    → IsValid s
    → 0 < sessions s id
    → Returns (register_duplicate_tweet id tweet s) λ _. Keeps id tweet s
register_duplicate_tweet-Keeps id tweet s v h =
    with_place (λ t. Returns (register_duplicate_tweet id tweet t) λ _. Keeps id tweet t) id s v h
      λ i us ds valid e. register_at_rest id i us ds valid e tweet

-- For a user with a session, `retrieveDuplicateTweet` returns all that is kept for that user and
-- empties it; the sessions and what is kept for others stay.
pub retrieve_duplicate_tweet-HandsOver :
    (id : ℕ) (s : ConnectionManager)
    → IsValid s
    → 0 < sessions s id
    → Returns (retrieve_duplicate_tweet id s) (HandsOver id s)
retrieve_duplicate_tweet-HandsOver id s v h =
    with_place (λ t. Returns (retrieve_duplicate_tweet id t) (HandsOver id t)) id s v h
      λ i us ds valid e. retrieve_at_rest id i us ds valid e

-- `doesClientHaveTwoConnections` changes nothing.
pub does_client_have_two_connections-sessions :
    (id : ℕ) (s : ConnectionManager)
    → IsValid s
    → 0 < sessions s id
    → does_client_have_two_connections id s ≡ ok (sessions s id == 2) s
unfolding does_client_have_two_connections
does_client_have_two_connections-sessions id s v h =
    with_place (λ t. does_client_have_two_connections id t ≡ ok (sessions t id == 2) t) id s v h
      λ i us ds valid e. ground (arith, e, (find_index-some id i us e).1)

-- `doesClientHaveDuplicateTweets` changes nothing.
pub does_client_have_duplicate_tweets-kept :
    (id : ℕ) (s : ConnectionManager)
    → id < minus_one
    → IsValid s
    → 0 < sessions s id
    → does_client_have_duplicate_tweets id s ≡ ok (not (length (kept s id) == 0)) s
unfolding does_client_have_duplicate_tweets
does_client_have_duplicate_tweets-kept id s real v h =
    with_place (λ t. does_client_have_duplicate_tweets id t ≡ ok (not (length (kept t id) == 0)) t)
      id s v h λ i us ds valid e. ground (arith, e, real, in_range id i us ds valid e)

-- ===== src/Database/Adding.antt =====
-- `addUser` (src/main_server.cpp) from a state at rest.
use sisop2_tf.Base.{
  ℕ, zero, suc, ◌+◌, ◌%◌, ◌^◌, ◌<◌, ◌≡◌, refl, List, [], ◌∷◌, ◌++◌, Option, none, some, arith,
  str_eq, if◌then◌else◌, length, length-append, get_or, All-append, All-map, Option-cases, inl, inr,
  Returns,
}
use sisop2_tf.Data.{UserType, PendingTweet}
use sisop2_tf.Connections.{ConnectionManager}
use sisop2_tf.Database.State.{Tables, Server, at_rest, free_locks}
use sisop2_tf.Database.Users.{add_user, find_user}
use sisop2_tf.Database.Counting.{refs}
use sisop2_tf.Database.Tables.{AreFollowers, AreEntries, IsValid}

-- A new user at the end of each of the four lists.
abbrev pub added : Tables → List ℕ → Tables
added t name = record t {
  list_of_users =
      t.list_of_users
      ++ record { user_name = name; user_id = length t.list_of_users % 2 ^ 32 } ∷ [];
  list_of_followers = t.list_of_followers ++ [] ∷ [];
  list_of_received_tweets = t.list_of_received_tweets ++ [] ∷ [];
  list_of_pending_tweets = t.list_of_pending_tweets ++ [] ∷ [];
}

get_or-append_default {ℓ} :
    {A : Type ℓ} (xs : List A) (i : ℕ) (d : A) → get_or (xs ++ d ∷ []) i d ≡ get_or xs i d
get_or-append_default [] zero d = refl
get_or-append_default [] (suc i) d = refl
get_or-append_default (x ∷ xs) zero d = refl
get_or-append_default (x ∷ xs) (suc i) d = get_or-append_default xs i d

refs-append_empty :
    (a id : ℕ) (rows : List (List PendingTweet)) → refs a id (rows ++ [] ∷ []) ≡ refs a id rows
refs-append_empty a id [] = refl
refs-append_empty a id (es ∷ rows) = ground (arith, refs-append_empty a id rows)

AreFollowers-mono : (n : ℕ) (fs : List ℕ) → AreFollowers n fs → AreFollowers (n + 1) fs
AreFollowers-mono n fs h = (All-map _ _ fs (λ f k. omega arith) h.0, h.1)

AreEntries-mono : (n : ℕ) (es : List PendingTweet) → AreEntries n es → AreEntries (n + 1) es
AreEntries-mono n es h = All-map _ _ es (λ e k. omega arith) h

added-IsValid :
    (t : Tables) (name : List ℕ)
    → IsValid t
    → length t.list_of_users + 1 < 2 ^ 31
    → IsValid (added t name)
added-IsValid t name v room =
    let n = length t.list_of_users in
    let more : length (added t name).list_of_users ≡ n + 1 = length-append t.list_of_users _ in
    record {
      few_users = omega (arith, more, room);
      few_tweets = v.few_tweets;
      followers_paired =
          omega (arith, more, length-append t.list_of_followers ([] ∷ []), v.followers_paired);
      received_paired =
          omega (arith, more, length-append t.list_of_received_tweets ([] ∷ []), v.received_paired);
      pending_paired =
          omega (arith, more, length-append t.list_of_pending_tweets ([] ∷ []), v.pending_paired);
      followers_known = rw more (
          All-append _ t.list_of_followers ([] ∷ [])
            (All-map _ _ t.list_of_followers (AreFollowers-mono n) v.followers_known)
            ((tt, tt), tt));
      rows_sound = All-append _ t.list_of_received_tweets ([] ∷ []) v.rows_sound (tt, tt);
      authors_known = rw more (
          All-append _ t.list_of_pending_tweets ([] ∷ [])
            (All-map _ _ t.list_of_pending_tweets (AreEntries-mono n) v.authors_known) (tt, tt));
      counted = λ a id. ground (
        arith,
        v.counted a id,
        get_or-append_default t.list_of_received_tweets a [],
        refs-append_empty a id t.list_of_pending_tweets,
      );
    }

-- Where a name is found when one user more stands at the end.
abbrev pub or_new : List ℕ → List ℕ → ℕ → Option ℕ → Option ℕ
or_new name other n (some i) = some i
or_new name other n none = if str_eq name other then some n else none

find_user-append :
    (name other : List ℕ) (id : ℕ) (us : List UserType)
    → find_user other (us ++ record { user_name = name; user_id = id } ∷ [])
      ≡ or_new name other (length us) (find_user other us)
unfolding find_user
find_user-append name other id [] = ground arith
find_user-append name other id (u ∷ us) = elim (Option-cases (find_user other us)) [
  | inl e ↦ ground (arith, e, find_user-append name other id us)
  | inr (i, e) ↦ ground (arith, e, find_user-append name other id us)
]

abbrev pub Adds : Tables → List ℕ → Server → Type 0
Adds t name s =
    IsValid s.tables
    × (s.locks ≡ free_locks)
    × ((other : List ℕ)
        → find_user other s.tables.list_of_users
          ≡ or_new name other (length t.list_of_users) (find_user other t.list_of_users))

-- From a state at rest with valid tables and room for one more index, `addUser` returns, leaves the
-- tables valid and all locks free; names that were found keep their index, and the new name is found
-- at the new index unless it was known before.
pub add_user-Adds :
    (t : Tables) (c : ConnectionManager) (name : List ℕ)
    → IsValid t
    → length t.list_of_users + 1 < 2 ^ 31
    → Returns (add_user name (at_rest t c)) (λ _ s. Adds t name s)
unfolding add_user
add_user-Adds t c name v room =
    (added-IsValid t name v room, refl, λ other. find_user-append name other _ t.list_of_users)

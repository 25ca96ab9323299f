-- ===== src/Database/FollowRun.antt =====
-- `postFollow` (src/main_server.cpp) from a state at rest.
use sisop2_tf.Base.{
  ℕ, ◌<◌, ◌≡◌, inl, inr, true, false, List, [], ◌∷◌, none, some, arith, ltb, ◌==◌, if◌then◌else◌,
  length, Option-cases, Bool-cases, lt→ltb, Outcome, ok, Bool,
}
use sisop2_tf.Data.{UserType, minus_one}
use sisop2_tf.Connections.{ConnectionManager}
use sisop2_tf.Database.State.{Tables, Locks, Server, at_rest, free_locks}
use sisop2_tf.Database.Users.{find_user, get_user_index}
use sisop2_tf.Database.Follow.{contains, followers_of, already_followed, post_follow}
use sisop2_tf.Database.Tables.{IsValid, followed}

-- A query is under way that will never leave: it stays counted and holds the database.
abbrev pub leaked_locks : Locks
leaked_locks = record free_locks { db_access_sem = 0; query_cnt = 1 }

abbrev pub leaked : Tables → ConnectionManager → Server
leaked t c = record { tables = t; locks = leaked_locks; connections = c }

pub find_user-lt :
    (name : List ℕ) (us : List UserType) {i : ℕ} → find_user name us ≡ some i → i < length us
unfolding find_user
find_user-lt name [] e = ground arith
find_user-lt name (u ∷ us) {i = i} e = elim (Option-cases (find_user name us)) [
  | inl q ↦ ground (arith, q)
  | inr (j, q) ↦ ground (arith, q, find_user-lt name us q)
]

-- What `postFollow` does, by the user that the name belongs to and by who follows that user.
abbrev pub follow_outcome : Tables → ConnectionManager → List ℕ → ℕ → Outcome Server Bool
follow_outcome t c name cur = elim (find_user name t.list_of_users) [
  | none ↦ ok false (leaked t c)
  | some target ↦
      if contains cur (followers_of t target)
      then ok false (leaked t c)
      else ok true (at_rest (followed t target cur) c)
]

-- From a state at rest with valid tables, `postFollow` of an unknown name, or of a user whom the
-- client follows already, returns false, changes no table and leaves the query counted and the
-- database held; any other appends the client to the followers, returns true and leaves all locks
-- free.
pub post_follow-outcome :
    (t : Tables) (c : ConnectionManager) (name : List ℕ) (cur timestamp : ℕ)
    → IsValid t
    → post_follow name cur timestamp (at_rest t c) ≡ follow_outcome t c name cur
unfolding post_follow get_user_index already_followed
post_follow-outcome t c name cur timestamp v =
    elim (Option-cases (find_user name t.list_of_users)) [
      | inl e ↦ rw (e, follow_outcome)
      | inr (target, e) ↦
          let known : target < length t.list_of_users = find_user-lt name t.list_of_users e in
          let real : (target == minus_one) ≡ false = ground (arith, known, v.few_users) in
          let listed : ltb target (length t.list_of_followers) ≡ true =
            lt→ltb target _ (omega (arith, known, v.followers_paired)) in
          elim (Bool-cases (contains cur (followers_of t target))) [
            | inl twice ↦ ground (arith, e, real, listed, twice)
            | inr new ↦ ground (arith, e, real, listed, new)
          ]
    ]

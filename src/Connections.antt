-- ===== src/Connections.antt =====
-- `connectionManager` (src/main_server.cpp): how many sessions each user has, at most two, and
-- the tweets kept for a user's second session.
pub mod Count
pub mod Limit
pub mod Refusal
pub mod Duplicates
mod Tests
use sisop2_tf.Base.{
  ℕ, suc, ◌+◌, ◌-◌, ◌%◌, ◌^◌, Bool, true, false, not, List, [], ◌∷◌, ◌++◌, Option, none, some, ltb,
  ◌==◌, if◌then◌else◌, length, get_or, update_at, erase_at, Program, ◌>>=◌, ◌>>◌, pure, gets,
  modify, requires, acquire, release, or_fault,
}
use sisop2_tf.Data.{TweetData, ConnectionTrackerType, minus_one}

-- `access_db` is the count of the semaphore `accessDB`.
pub record ConnectionManager : Type 0 where
  pub access_db : ℕ
  pub list_of_connected_users : List ConnectionTrackerType
  pub list_of_duplicated_tweets : List (List TweetData)

abbrev pub Action : Type 0 → Type 0
Action A = Program ConnectionManager A

abbrev access_db_p : Action (Unit {0})
access_db_p = acquire (λ s. s.access_db) (λ n s. record s { access_db = n })

abbrev access_db_v : Action (Unit {0})
access_db_v = release (λ s. s.access_db) (λ n s. record s { access_db = n })

-- The loops over `listOfConnectedUsers`: the place of the first entry of a user.
pub find_index : ℕ → List ConnectionTrackerType → Option ℕ
find_index id [] = none
find_index id (t ∷ ts) =
    let rest = find_index id ts in
    if t.user_id == id then some 0 else elim rest [ none ↦ none | some i ↦ some (suc i) ]

abbrev pub connections_at : List ConnectionTrackerType → ℕ → ℕ
connections_at ts i = (get_or ts i (record { user_id = 0; num_connections = 0 })).num_connections

abbrev pub with_count : (ℕ → ℕ) → ConnectionTrackerType → ConnectionTrackerType
with_count k t = record t { num_connections = k t.num_connections }

-- `numConnections` is a `uint8_t`.
abbrev pub raise_count : ConnectionTrackerType → ConnectionTrackerType
raise_count = with_count (λ n. (n + 1) % 2 ^ 8)

abbrev pub lower_count : ConnectionTrackerType → ConnectionTrackerType
lower_count = with_count (λ n. (n + 2 ^ 8 - 1) % 2 ^ 8)

-- What `registerConnection` does with the entry that its loop found, or without one.
register_at : ℕ → Option ℕ → Action Bool
register_at id (some i) = do
  ts ← gets (λ s. s.list_of_connected_users)
  if ltb (connections_at ts i) 2
      then (do
        modify λ s. record s {
          list_of_connected_users = update_at i raise_count s.list_of_connected_users;
        }
        access_db_v
        pure true)
      else (do access_db_v; pure false)
register_at id none = do
  modify λ s. record s {
    list_of_connected_users =
        s.list_of_connected_users ++ record { user_id = id; num_connections = 1 } ∷ [];
    list_of_duplicated_tweets = s.list_of_duplicated_tweets ++ [] ∷ [];
  }
  access_db_v
  pure true

pub register_connection : ℕ → Action Bool
unfolding register_at
register_connection id = do
  access_db_p
  register_at id (← gets (λ s. find_index id s.list_of_connected_users))

-- What `closeConnection` does with the entry that its loop found, or without one.
close_at : Option ℕ → Action Bool
close_at (some i) = do
  ts ← gets (λ s. s.list_of_connected_users)
  requires (λ s. ltb i (length s.list_of_duplicated_tweets))
  if connections_at ts i == 2
      then (modify λ s. record s {
        list_of_connected_users = update_at i lower_count s.list_of_connected_users;
        list_of_duplicated_tweets = update_at i (λ _. []) s.list_of_duplicated_tweets;
      })
      else (modify λ s. record s {
        list_of_connected_users = erase_at i s.list_of_connected_users;
        list_of_duplicated_tweets = erase_at i s.list_of_duplicated_tweets;
      })
  access_db_v
  pure true
close_at none = do access_db_v; pure false

-- The loop reads `*itr` before it tests for the end, so an empty list is undefined behaviour.
pub close_connection : ℕ → Action Bool
unfolding close_at
close_connection id = do
  access_db_p
  requires (λ s. ltb 0 (length s.list_of_connected_users))
  close_at (← gets (λ s. find_index id s.list_of_connected_users))

-- `none` stands for the result -1, which its callers use as an index.
pub get_connection_index : ℕ → Action (Option ℕ)
get_connection_index id = do
  access_db_p
  i ← gets (λ s. find_index id s.list_of_connected_users)
  access_db_v
  pure i

pub does_client_have_two_connections : ℕ → Action Bool
unfolding get_connection_index
does_client_have_two_connections id = do
  found ← get_connection_index id
  access_db_p
  i ← or_fault found
  answer ← gets (λ s. connections_at s.list_of_connected_users i == 2)
  access_db_v
  pure answer

abbrev duplicates_at : ConnectionManager → ℕ → List TweetData
duplicates_at s i = get_or s.list_of_duplicated_tweets i []

pub register_duplicate_tweet : ℕ → TweetData → Action Bool
unfolding get_connection_index
register_duplicate_tweet id tweet = do
  found ← get_connection_index id
  access_db_p
  i ← or_fault found
  requires (λ s. ltb i (length s.list_of_duplicated_tweets))
  modify λ s. record s {
    list_of_duplicated_tweets = update_at i (λ ts. ts ++ tweet ∷ []) s.list_of_duplicated_tweets;
  }
  access_db_v
  pure true

pub retrieve_duplicate_tweet : ℕ → Action (List TweetData)
unfolding get_connection_index
retrieve_duplicate_tweet id = do
  found ← get_connection_index id
  access_db_p
  i ← or_fault found
  requires (λ s. ltb i (length s.list_of_duplicated_tweets))
  tweets ← gets (λ s. duplicates_at s i)
  modify λ s. record s {
    list_of_duplicated_tweets = update_at i (λ _. []) s.list_of_duplicated_tweets;
  }
  access_db_v
  pure tweets

-- `userID == -1` compares with the `uint32_t` of -1.
unfoldable pub does_client_have_duplicate_tweets : ℕ → Action Bool
unfolding get_connection_index
does_client_have_duplicate_tweets id = if id == minus_one then pure false else (do
  found ← get_connection_index id
  access_db_p
  i ← or_fault found
  requires (λ s. ltb i (length s.list_of_duplicated_tweets))
  answer ← gets (λ s. not (length (duplicates_at s i) == 0))
  access_db_v
  pure answer)

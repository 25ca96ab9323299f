-- ===== src/Database/Users.antt =====
-- `addUser`, `getUserIndex` and `getUserName` (src/main_server.cpp).
use sisop2_tf.Base.{
  ℕ, suc, ◌%◌, ◌^◌, List, [], ◌∷◌, ◌++◌, Option, none, some, ltb, str_eq, if◌then◌else◌, length,
  get_or, ◌>>=◌, ◌>>◌, pure, gets, requires,
}
use sisop2_tf.Data.{UserType, minus_one}
use sisop2_tf.Database.State.{Action, p, v, lou_rw_sem, lou_read_enter, lou_read_leave, change}

-- The C++ function is declared `bool` and has no return statement; only its effect is modelled.
unfoldable pub add_user : List ℕ → Action (Unit {0})
add_user name = do
  p lou_rw_sem
  change λ t. record t {
    list_of_users =
        t.list_of_users
        ++ record { user_name = name; user_id = length t.list_of_users % 2 ^ 32 } ∷ [];
    list_of_followers = t.list_of_followers ++ [] ∷ [];
    list_of_received_tweets = t.list_of_received_tweets ++ [] ∷ [];
    list_of_pending_tweets = t.list_of_pending_tweets ++ [] ∷ [];
  }
  v lou_rw_sem

-- The loop of `getUserIndex`.
unfoldable pub find_user : List ℕ → List UserType → Option ℕ
find_user name [] = none
find_user name (u ∷ us) =
    let rest = find_user name us in
    if str_eq u.user_name name then some 0 else elim rest [ none ↦ none | some i ↦ some (suc i) ]

abbrev pub index_result : Option ℕ → ℕ
index_result none = minus_one
index_result (some i) = i

unfoldable pub get_user_index : List ℕ → Action ℕ
get_user_index name = do
  lou_read_enter
  i ← gets (λ s. find_user name s.tables.list_of_users)
  lou_read_leave
  pure (index_result i)

abbrev no_user : UserType
no_user = record { user_name = []; user_id = 0 }

unfoldable pub get_user_name : ℕ → Action (List ℕ)
get_user_name id = do
  lou_read_enter
  requires (λ s. ltb id (length s.tables.list_of_users))
  name ← gets (λ s. (get_or s.tables.list_of_users id no_user).user_name)
  lou_read_leave
  pure name

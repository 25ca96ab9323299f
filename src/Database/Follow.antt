-- ===== src/Database/Follow.antt =====
-- `_alreadyFollowed`, `_getNumFollowers` and `postFollow` (src/main_server.cpp).
use sisop2_tf.Base.{
  ℕ, Bool, true, false, ◌||◌, List, [], ◌∷◌, ◌++◌, ltb, ◌==◌, if◌then◌else◌, length, get_or,
  update_at, ◌>>=◌, ◌>>◌, pure, gets, requires,
}
use sisop2_tf.Data.{minus_one}
use sisop2_tf.Database.State.{
  Tables, Server, Action, p, v, lof_rw_sem, lof_read_enter, lof_read_leave, query_enter,
  query_leave, change,
}
use sisop2_tf.Database.Users.{get_user_index}

abbrev pub followers_of : Tables → ℕ → List ℕ
followers_of t id = get_or t.list_of_followers id []

abbrev pub has_followers_list : ℕ → Server → Bool
has_followers_list id s = ltb id (length s.tables.list_of_followers)

unfoldable pub contains : ℕ → List ℕ → Bool
contains a [] = false
contains a (x ∷ xs) = x == a || contains a xs

unfoldable pub already_followed : ℕ → ℕ → Action Bool
already_followed target cur = do
  lof_read_enter
  requires (has_followers_list target)
  answer ← gets (λ s. contains cur (followers_of s.tables target))
  lof_read_leave
  pure answer

unfoldable pub get_num_followers : ℕ → Action ℕ
get_num_followers id = do
  lof_read_enter
  requires (has_followers_list id)
  n ← gets (λ s. length (followers_of s.tables id))
  lof_read_leave
  pure n

-- The write of `postFollow`, and its way out.
add_follower : ℕ → ℕ → Action Bool
add_follower target cur = do
  p lof_rw_sem
  requires (has_followers_list target)
  change λ t. record t {
    list_of_followers = update_at target (λ fs. fs ++ cur ∷ []) t.list_of_followers;
  }
  v lof_rw_sem
  query_leave
  pure true

-- Both early returns skip `query_leave`. The timestamp is not used.
unfoldable pub post_follow : List ℕ → ℕ → ℕ → Action Bool
unfolding add_follower
post_follow name cur timestamp = do
  query_enter
  target ← get_user_index name
  if target == minus_one then pure false else (do
    followed ← already_followed target cur
    if followed then pure false else add_follower target cur)

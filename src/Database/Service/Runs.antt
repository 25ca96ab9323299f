-- ===== src/Database/Service/Runs.antt =====
-- Runs of queries of `databaseManager` (src/main_server.cpp) against the service that they implement.
use sisop2_tf.Base.{
  ℕ, ◌+◌, ◌-◌, ◌^◌, ◌≤◌, ◌<◌, ◌≡◌, refl, ◌∙◌, sym, subst, false, inl, inr, List, [], ◌∷◌, Option,
  none, some, arith, if◌then◌else◌, length, Option-cases, map, ◌>>=◌, ◌>>◌, pure, ok, Returns,
  Returns->>=, Returns-weaken,
}
use sisop2_tf.Data.{TweetData}
use sisop2_tf.Connections.{ConnectionManager}
use sisop2_tf.Connections.Limit.{IsValid as IsValidManager}
use sisop2_tf.Database.State.{server_eq, Action, Tables, Server, at_rest, free_locks}
use sisop2_tf.Database.Users.{find_user}
use sisop2_tf.Database.Follow.{contains, followers_of, post_follow}
use sisop2_tf.Database.Update.{post_update}
use sisop2_tf.Database.Retrieve.{retrieve_tweets_from_followed}
use sisop2_tf.Database.Tables.{IsValid, followed}
use sisop2_tf.Database.Valid.{followed-IsValid}
use sisop2_tf.Database.FollowRun.{find_user-lt, post_follow-outcome}
use sisop2_tf.Database.UpdateRun.{post_outcome, post_outcome-users, post_update-outcome}
use sisop2_tf.Database.Keeps.{post_outcome-IsValid}
use sisop2_tf.Database.Service.{Post, Service, with_follower, with_post, read_all, content, view}
use sisop2_tf.Database.Service.Posts.{view-followed, view-post_outcome}
use sisop2_tf.Database.Service.Fetches.{ReadsAll, retrieve-ReadsAll}

pub data Request : Type 0 where
  follow : List ℕ → ℕ → ℕ → Request
  post : ℕ → TweetData → Request
  fetch : ℕ → Request

-- The query for a request, with the tweets that it returns.
abbrev pub perform : Request → Action (List TweetData)
perform (follow name cur timestamp) = do post_follow name cur timestamp; pure []
perform (post user tweet) = do post_update user tweet; pure []
perform (fetch user) = retrieve_tweets_from_followed user

abbrev pub perform_all : List Request → Action (List (List TweetData))
perform_all [] = pure []
perform_all (r ∷ rs) = do ws ← perform r; rest ← perform_all rs; pure (ws ∷ rest)

-- What the service does for a request, with the posts that it returns.
abbrev follow_found : Service → ℕ → Option ℕ → Service
follow_found a cur none = a
follow_found a cur (some target) =
    if contains cur (a.followers target) then a else with_follower a target cur

abbrev pub serve : Service → Request → List Post × Service
serve a (follow name cur timestamp) = ([], follow_found a cur (find_user name a.users))
serve a (post user tweet) = ([], with_post a user (content tweet))
serve a (fetch user) = read_all a user

abbrev pub serve_all : Service → List Request → List (List Post) × Service
serve_all a [] = ([], a)
serve_all a (r ∷ rs) =
    ((serve a r).0 ∷ (serve_all (serve a r).1 rs).0, (serve_all (serve a r).1 rs).1)

-- A follow that is new, a post by a known user, and a fetch of a known user with a session.
abbrev IsNew : Service → ℕ → Option ℕ → Type 0
IsNew a cur none = ⊥
IsNew a cur (some target) = contains cur (a.followers target) ≡ false

abbrev pub IsAllowed : Service → Request → Type 0
IsAllowed a (follow name cur timestamp) =
    (cur < length a.users) × IsNew a cur (find_user name a.users)
IsAllowed a (post user tweet) = user < length a.users
IsAllowed a (fetch user) = (user < length a.users) × (0 < a.sessions user)

abbrev pub AreAllowed : Service → List Request → Type 0
AreAllowed a [] = Unit {0}
AreAllowed a (r ∷ rs) = IsAllowed a r × AreAllowed (serve a r).1 rs

-- The state of a server between two queries.
pub record IsReady (s : Server) : Type 0 where
  pub tables_valid : IsValid s.tables
  pub manager_valid : IsValidManager s.connections
  pub free : s.locks ≡ free_locks

-- What one query owes to the service.
abbrev Serves : Server → Request → List TweetData → Server → Type 0
Serves s r ws s' =
    IsReady s'
    × (map content ws ≡ (serve (view s.tables s.connections) r).0)
    × (view s'.tables s'.connections ≡ (serve (view s.tables s.connections) r).1)
    × (s'.tables.num_tweets ≤ s.tables.num_tweets + 1)

perform-Serves :
    (t : Tables) (c : ConnectionManager) (r : Request)
    → IsValid t
    → IsValidManager c
    → IsAllowed (view t c) r
    → t.num_tweets < 2 ^ 31 - 1
    → Returns (perform r (at_rest t c)) (Serves (at_rest t c) r)
perform-Serves t c (follow name cur timestamp) v m (known, new) room =
    elim (Option-cases (find_user name t.list_of_users)) [
      | inl e ↦ absurd (subst (IsNew (view t c) cur) e new)
      | inr (target, e) ↦
          let new' : contains cur (followers_of t target) ≡ false =
            subst (IsNew (view t c) cur) e new in
          let known' = find_user-lt name t.list_of_users e in
          let run : perform (follow name cur timestamp) (at_rest t c)
              ≡ ok [] (at_rest (followed t target cur) c) =
            ground (arith, post_follow-outcome t c name cur timestamp v, e, new') in
          let served : follow_found (view t c) cur (find_user name t.list_of_users)
              ≡ with_follower (view t c) target cur =
            rw (e, follow_found) (rw new' refl) in
          subst (λ o. Returns o (Serves (at_rest t c) (follow name cur timestamp))) (sym run)
            (
              record {
                tables_valid = followed-IsValid t target cur v known new';
                manager_valid = m;
                free = refl;
              },
              refl,
              view-followed t c target cur (omega (arith, known', v.followers_paired)) ∙ sym served,
              omega arith,
            )
    ]
perform-Serves t c (post user tweet) v m known room =
    let run : perform (post user tweet) (at_rest t c)
        ≡ ok [] (at_rest (post_outcome t user tweet) c) =
      ground (arith, post_update-outcome t c user tweet v known room) in
    subst (λ o. Returns o (Serves (at_rest t c) (post user tweet))) (sym run)
      (
        record {
          tables_valid = post_outcome-IsValid t user tweet v known room;
          manager_valid = m;
          free = refl;
        },
        refl,
        view-post_outcome t c user tweet v known,
        omega (arith, (post_outcome-users t user tweet).1),
      )
perform-Serves t c (fetch user) v m (known, online) room =
    Returns-weaken (ReadsAll t c user) _ _ (retrieve-ReadsAll t c user v m known online)
      λ ws s (posts, after, valid, valid', free, same). (
        record { tables_valid = valid; manager_valid = valid'; free = free },
        posts,
        after,
        omega (arith, same),
      )

perform_ready-Serves :
    (s : Server) (r : Request)
    → IsReady s
    → IsAllowed (view s.tables s.connections) r
    → s.tables.num_tweets < 2 ^ 31 - 1
    → Returns (perform r s) (Serves s r)
perform_ready-Serves s r ready allowed room =
    subst (λ u. Returns (perform r u) (Serves u r)) (sym (server_eq s s.tables refl ready.free))
      (perform-Serves s.tables s.connections r ready.tables_valid ready.manager_valid allowed room)

-- What a run owes to the service, from `n` tweet numbers given out.
abbrev pub ServesAll : Service → ℕ → List Request → List (List TweetData) → Server → Type 0
ServesAll a n rs out s =
    (map (map content) out ≡ (serve_all a rs).0)
    × (view s.tables s.connections ≡ (serve_all a rs).1)
    × IsReady s
    × (s.tables.num_tweets ≤ n + length rs)

-- From a server between two queries, with valid tables and a valid manager, for requests that the
-- service allows one after another, and while tweet numbers last for all of them, the queries of
-- `databaseManager` return one after another; what they return, and what the tables and the manager
-- stand for at the end, is what the service returns and becomes. The server is between two queries
-- again, and no more tweet numbers are used than there are requests.
pub perform_all-ServesAll :
    (s : Server) (rs : List Request)
    → IsReady s
    → AreAllowed (view s.tables s.connections) rs
    → s.tables.num_tweets + length rs < 2 ^ 31
    → Returns (perform_all rs s) (ServesAll (view s.tables s.connections) s.tables.num_tweets rs)
perform_all-ServesAll s [] ready allowed room = (refl, refl, ready, omega arith)
perform_all-ServesAll s (r ∷ rs) ready allowed room =
    Returns->>= (Serves s r) (ServesAll (view s.tables s.connections) s.tables.num_tweets (r ∷ rs))
      (λ ws. perform_all rs >>= λ rest. pure (ws ∷ rest)) (perform r) s
      (perform_ready-Serves s r ready allowed.0 (omega arith))
      λ ws s' (ready', posts, after, few).
        let n = s'.tables.num_tweets in
        let ih =
          perform_all-ServesAll s' rs ready' (subst (λ b. AreAllowed b rs) (sym after) allowed.1)
            (omega (arith, few, room)) in
        Returns->>= (ServesAll (view s'.tables s'.connections) n rs)
          (ServesAll (view s.tables s.connections) s.tables.num_tweets (r ∷ rs))
          (λ rest. pure (ws ∷ rest)) (perform_all rs) s' ih
          λ out u served.
            let (outs, last, ready'', fewer) = subst (λ b. ServesAll b n rs out u) after served in
            (ground (arith, posts, outs), last, ready'', omega (arith, few, fewer))

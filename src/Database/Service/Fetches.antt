-- ===== src/Database/Service/Fetches.antt =====
-- The view of the tables (src/main_server.cpp) when a user fetches the tweets that are pending.
use sisop2_tf.Base.{
  Returns, Returns-weaken, ℕ, ◌<◌, ◌≡◌, refl, ◌∙◌, ap, sym, subst, fun_ext, inl, inr, List, [], ◌∷◌,
  ◌++◌, arith, ◌==◌, if◌then◌else◌, length, Bool-cases, List-cases, map, map-append,
}
use sisop2_tf.Data.{TweetData, PendingTweet}
use sisop2_tf.Connections.{ConnectionManager}
use sisop2_tf.Connections.Duplicates.{kept}
use sisop2_tf.Database.State.{Tables, Server, free_locks, at_rest}
use sisop2_tf.Database.Retrieve.{retrieve_tweets_from_followed, pending_of}
use sisop2_tf.Database.Tables.{IsValid, fetched}
use sisop2_tf.Database.Valid.{fetched-IsValid}
use sisop2_tf.Connections.Count.{count}
use sisop2_tf.Connections.Limit.{IsValid as IsValidManager, sessions}
use sisop2_tf.Database.Follow.{followers_of}
use sisop2_tf.Database.Sharing.{for_second}
use sisop2_tf.Database.RetrieveRun.{Fetches, TakesOver, FetchOutcome, retrieve-FetchOutcome}
use sisop2_tf.Database.Service.{read_from, Post, content, post_of, view, read_all}
use sisop2_tf.Database.Service.Contents.{content-Delivers, inbox-fetched}

-- What a fetch owes: the posts and the view of `read_all`.
abbrev pub ReadsAll : Tables → ConnectionManager → ℕ → List TweetData → Server → Type 0
ReadsAll t c user ws s =
    (map content ws ≡ (read_all (view t c) user).0)
    × (view s.tables s.connections ≡ (read_all (view t c) user).1)
    × IsValid s.tables
    × IsValidManager s.connections
    × (s.locks ≡ free_locks)
    × (s.tables.num_tweets ≡ t.num_tweets)

-- A view whose inbox and kept posts are known.
view_eq :
    (t : Tables) (user : ℕ) (c d : ConnectionManager) {f g : ℕ → List Post}
    → ((u : ℕ) → (view (fetched t user) d).inbox u ≡ f u)
    → ((u : ℕ) → map content (kept d u) ≡ g u)
    → d.list_of_connected_users ≡ c.list_of_connected_users
    → view (fetched t user) d ≡ record (view t c) { inbox = f; kept = g }
view_eq t user c d p q e = λ i. record {
  users = t.list_of_users;
  followers = followers_of t;
  inbox = fun_ext p i;
  kept = fun_ext q i;
  sessions = λ j. count j (e i);
}

module _ (t : Tables) (c : ConnectionManager) (user : ℕ) (v : IsValid t)
    (known : user < length t.list_of_users) (ws : List TweetData) (s : Server) where
  view_after :
      s.tables ≡ fetched t user → view s.tables s.connections ≡ view (fetched t user) s.connections
  view_after same = ap (λ t'. view t' s.connections) same

  IsValid-after : s.tables ≡ fetched t user → IsValid s.tables
  IsValid-after same = subst IsValid (sym same) (fetched-IsValid t user v known)

  ReadsAll-nothing : pending_of t user ≡ [] → TakesOver t c user ws s → ReadsAll t c user ws s
  ReadsAll-nothing nothing (same, free, (valid, users, all, keeps)) =
      let reads : read_all (view t c) user ≡ read_from (view t c) user [] = rw nothing refl in
      let inboxes : (u : ℕ) → (view (fetched t user) s.connections).inbox u ≡ (view t c).inbox u =
        λ u. ground (
          arith,
          inbox-fetched t user v known s.connections u,
          ap (map (post_of t.list_of_received_tweets)) nothing,
        ) in
      let keepings : (u : ℕ)
          → map content (kept s.connections u)
            ≡ (if user == u then [] else map content (kept c u)) =
        λ u. ground (arith, keeps u) in
      (
        ap (map content) all ∙ sym (ap (λ r. r.0) reads),
        view_after same
            ∙ view_eq t user c s.connections inboxes keepings users
            ∙ sym (ap (λ r. r.1) reads),
        IsValid-after same,
        valid,
        free,
        ap (λ t'. t'.num_tweets) same,
      )

  keepings :
      {posts : List Post}
      → map content ws ≡ posts
      → ((j : ℕ)
          → kept s.connections j
            ≡ (if user == j then kept c j ++ for_second c user ws else kept c j))
      → (u : ℕ)
      → map content (kept s.connections u) ≡ (
          if user == u
          then map content (kept c u) ++ (if sessions c user == 2 then posts else [])
          else map content (kept c u))
  keepings stands keeps u = elim (Bool-cases (sessions c user == 2)) [
    | inl two ↦ ground (arith, two, stands, keeps u, map-append content (kept c u) ws)
    | inr one ↦ ground (arith, one, keeps u, map-append content (kept c u) [])
  ]

  ReadsAll-pending :
      (e : PendingTweet) (es : List PendingTweet)
      → pending_of t user ≡ e ∷ es
      → Fetches t c user ws s
      → ReadsAll t c user ws s
  ReadsAll-pending e es some_pending (same, free, delivered, (valid, users, keeps)) =
      let posts = content-Delivers t (pending_of t user) ws delivered in
      let stands : map content ws ≡ map (post_of t.list_of_received_tweets) (e ∷ es) =
        posts ∙ ap (map (post_of t.list_of_received_tweets)) some_pending in
      let reads : read_all (view t c) user
          ≡ read_from (view t c) user (map (post_of t.list_of_received_tweets) (e ∷ es)) =
        rw some_pending refl in
      (
        stands ∙ sym (ap (λ r. r.0) reads),
        view_after same
            ∙ view_eq t user c s.connections (inbox-fetched t user v known s.connections)
                (keepings stands keeps) users
            ∙ sym (ap (λ r. r.1) reads),
        IsValid-after same,
        valid,
        free,
        ap (λ t'. t'.num_tweets) same,
      )

-- From a state at rest with valid tables and a valid manager, a known user's fetch with a session
-- returns the posts of `read_all`, in order, and leaves what the tables and the manager stand for as
-- `read_all` does; tables and manager stay valid, and the locks free.
pub retrieve-ReadsAll :
    (t : Tables) (c : ConnectionManager) (user : ℕ)
    → IsValid t
    → IsValidManager c
    → user < length t.list_of_users
    → 0 < sessions c user
    → Returns (retrieve_tweets_from_followed user (at_rest t c)) (ReadsAll t c user)
retrieve-ReadsAll t c user v m known online =
    Returns-weaken (FetchOutcome t c user (pending_of t user)) _ _
      (retrieve-FetchOutcome t c user v m known online)
      λ ws s h. elim (List-cases (pending_of t user)) [
        | inl nothing ↦
            ReadsAll-nothing t c user v known ws s nothing
              (subst (λ es. FetchOutcome t c user es ws s) nothing h)
        | inr (e, es, some_pending) ↦
            ReadsAll-pending t c user v known ws s e es some_pending
              (subst (λ es'. FetchOutcome t c user es' ws s) some_pending h)
      ]

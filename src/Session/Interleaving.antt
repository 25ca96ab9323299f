-- ===== src/Session/Interleaving.antt =====
-- Steps of the connector and the speaker of one connection (src/main_server.cpp) that the theorems on its
-- life compose.
use sisop2_tf.Base.{
  ℕ, ◌+◌, ◌-◌, ◌^◌, ◌≤◌, ◌<◌, ◌≡◌, refl, sym, subst, ◌∙◌, false, List, [], ◌∷◌, ◌++◌, arith, length,
  All, ok,
}
use sisop2_tf.Data.{TweetData}
use sisop2_tf.Message.{update, Message}
use sisop2_tf.Connections.{ConnectionManager}
use sisop2_tf.Database.State.{Tables}
use sisop2_tf.Database.Tables.{IsValid}
use sisop2_tf.Database.UpdateRun.{post_outcome, post_outcome-users}
use sisop2_tf.Database.Keeps.{post_outcome-IsValid}
use sisop2_tf.Session.State.{Session}
use sisop2_tf.Session.Connector.{Env, dispatch, enqueue}
use sisop2_tf.Session.SignIn.{world}
use sisop2_tf.Session.Replies.{tweet_of}
use sisop2_tf.Session.Requests.{copied, text_of, all_posted}

-- A request of a signed-in client is queued.
pub dispatch-update :
    (env : Env) (t : Tables) (c : ConnectionManager) (s : Session) (m : Message)
    → env.server_shutdown_notice ≡ false
    → IsValid t
    → s.client_index < length t.list_of_users
    → m.type ≡ update
    → dispatch env m (world t c s)
      ≡ ok tt (
          world t c (record s {
            incoming_messages = s.incoming_messages ++ m ∷ [];
            incoming_queue_empty = false;
          }))
unfolding dispatch enqueue
dispatch-update env t c s m running v known is_update =
    rw (running, is_update) (ground (arith, v.few_users, known))

module _ (junk : TweetData) (blank : Message) (user : ℕ) where
  -- Posting keeps the tables valid, the users, and takes at most one number for each request.
  pub all_posted-IsValid :
      (ms : List Message) (t : Tables)
      → IsValid t
      → user < length t.list_of_users
      → t.num_tweets + length ms < 2 ^ 31
      → IsValid (all_posted junk blank user ms t)
        × ((all_posted junk blank user ms t).list_of_users ≡ t.list_of_users)
        × ((all_posted junk blank user ms t).num_tweets ≤ t.num_tweets + length ms)
  all_posted-IsValid [] t v known room = (v, refl, omega arith)
  all_posted-IsValid (m ∷ ms) t v known room =
      let tweet = tweet_of junk user m (copied junk.payload (text_of m)) in
      let few : t.num_tweets < 2 ^ 31 - 1 = omega (arith, room) in
      let (users, numbers) = post_outcome-users t user tweet in
      let (v', users', numbers') =
        all_posted-IsValid ms (post_outcome t user tweet)
          (post_outcome-IsValid t user tweet v known few)
          (subst (λ us. user < length us) (sym users) known) (omega (arith, room, numbers)) in
      (v', users' ∙ users, omega (arith, numbers, numbers'))

  pub all_posted-append :
      (ms ns : List Message) (t : Tables)
      → all_posted junk blank user (ms ++ ns) t
        ≡ all_posted junk blank user ns (all_posted junk blank user ms t)
  all_posted-append [] ns t = refl
  all_posted-append (m ∷ ms) ns t =
      all_posted-append ms ns
        (post_outcome t user (tweet_of junk user m (copied junk.payload (text_of m))))

pub All-split :
    {A : Type 0} (P : A → Type 0) (xs ys : List A) → All P (xs ++ ys) → All P xs × All P ys
All-split P [] ys h = (tt, h)
All-split P (x ∷ xs) ys h = let (now, later) = All-split P xs ys h.1 in ((h.0, now), later)

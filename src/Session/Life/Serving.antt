-- ===== src/Session/Life/Serving.antt =====
-- Any number of turns of the connector and the speaker (src/main_server.cpp) while requests come in.
use sisop2_tf.Base.{
  ℕ, ◌+◌, ◌^◌, ◌<◌, ◌≡◌, refl, ap, subst, sym, ◌∙◌, List, [], ◌∷◌, ◌++◌, map, append_assoc,
  append-nil, length, length-append, All, arith, ok, >>=-ok, >>=-assoc, ◌>>◌, fun_ext,
}
use sisop2_tf.Data.{TweetData}
use sisop2_tf.Message.{Message}
use sisop2_tf.Connections.{ConnectionManager}
use sisop2_tf.Database.State.{Tables}
use sisop2_tf.Database.Tables.{IsValid}
use sisop2_tf.Session.State.{Session}
use sisop2_tf.Session.SignIn.{world}
use sisop2_tf.Session.Requests.{IsUpdate}
use sisop2_tf.Session.Interleaving.{All-split}
use sisop2_tf.Session.Life.{
  Life, Turn, serving, SpeakerPlace, at_head, waiting, silent, ListenerPlace, take_turn, take_turns,
}
use sisop2_tf.Session.Life.Joins.{life}
use sisop2_tf.Session.Life.Turns.{
  Activity, asks, works, turn_of, asked, IsUp, Log, work, log_one, log_all,
}
use sisop2_tf.Session.Life.Requests.{posted, Follows, AreReady, step-Follows}

-- A turn that has been taken.
pub take_turns-next :
    (junk : TweetData) (blank : Message) (turn : Turn) (turns : List Turn) (l : Life) {l' : Life}
    → take_turn junk blank turn l ≡ ok tt l'
    → take_turns junk blank (turn ∷ turns) l ≡ take_turns junk blank turns l'
unfolding take_turns
take_turns-next junk blank turn turns l e =
    >>=-ok (take_turn junk blank turn) (λ _. take_turns junk blank turns) e

take_turns->> :
    (junk : TweetData) (blank : Message) (turns more : List Turn) (l : Life)
    → take_turns junk blank (turns ++ more) l
      ≡ (take_turns junk blank turns >> take_turns junk blank more) l
unfolding take_turns
take_turns->> junk blank [] more l = refl
take_turns->> junk blank (turn ∷ turns) more l =
    ap (λ k. (take_turn junk blank turn >> k) l)
      (fun_ext λ u. take_turns->> junk blank turns more u)
    ∙ sym (
        >>=-assoc (λ _. take_turns junk blank turns) (λ _. take_turns junk blank more)
          (take_turn junk blank turn) l)

-- Turns that have been taken.
pub take_turns-append :
    (junk : TweetData) (blank : Message) (turns more : List Turn) (l : Life) {l' : Life}
    → take_turns junk blank turns l ≡ ok tt l'
    → take_turns junk blank (turns ++ more) l ≡ take_turns junk blank more l'
take_turns-append junk blank turns more l e =
    take_turns->> junk blank turns more l
    ∙ >>=-ok (take_turns junk blank turns) (λ _. take_turns junk blank more) e

module _ (junk : TweetData) (blank : Message) (t : Tables) (c : ConnectionManager) (user : ℕ)
    (sent : List Message) where
  abbrev IsFit : List Message → List Message → Type 0
  IsFit done todo = AreReady junk blank t c user sent done todo 0

  work-IsFit :
      (done todo more : List Message) (p : SpeakerPlace)
      → IsFit done (todo ++ more)
      → IsFit (work done todo p).done ((work done todo p).todo ++ more)
  work-IsFit done todo more at_head h = h
  work-IsFit done [] more waiting h = h
  work-IsFit done (m ∷ ms) more waiting (h, room) = (
    (All-split (IsUpdate junk blank) (m ∷ ms) more h).1,
    omega (arith, room, length-append (m ∷ ms) more, length-append done (m ∷ ms)),
  )
  work-IsFit done todo more silent h = h

  log_one-IsFit :
      (a : Activity) (xs : List Activity) (g : Log)
      → IsFit g.done (g.todo ++ asked (a ∷ xs))
      → IsFit (log_one a g).done ((log_one a g).todo ++ asked xs)
        × IsFit g.done (g.todo ++ asked (a ∷ []))
  log_one-IsFit (asks env m) xs g h =
      let moved = append_assoc g.todo (m ∷ []) (asked xs) in
      let (all, room) = subst (IsFit g.done) (sym moved) h in
      (
        (all, room),
        (
          (All-split (IsUpdate junk blank) (g.todo ++ m ∷ []) (asked xs) all).0,
          omega (arith, room, length-append (g.todo ++ m ∷ []) (asked xs)),
        ),
      )
  log_one-IsFit works xs g (all, room) = (
    work-IsFit g.done g.todo (asked xs) g.place (all, room),
    (
      subst (All (IsUpdate junk blank)) (sym (append-nil g.todo))
          (All-split (IsUpdate junk blank) g.todo (asked xs) all).0,
      omega (arith, room, length-append g.todo (asked xs), ap length (append-nil g.todo)),
    ),
  )

  pub log_all-IsFit :
      (xs : List Activity) (g : Log)
      → IsFit g.done (g.todo ++ asked xs)
      → IsFit (log_all xs g).done (log_all xs g).todo
  log_all-IsFit [] g h = subst (IsFit g.done) (append-nil g.todo) h
  log_all-IsFit (a ∷ xs) g h = log_all-IsFit xs (log_one a g) (log_one-IsFit a xs g h).0

  -- What a run of activities owes: the connection is where the log says.
  abbrev pub LogsAll : List Activity → Log → ListenerPlace → Session → Type 0
  LogsAll xs g l s =
      let g' = log_all xs g in
      (u : Session) × (take_turns junk blank (map turn_of xs)
          (life (world (posted junk blank t c user sent g.done) c s) serving g.place l)
        ≡ ok tt (life (world (posted junk blank t c user sent g'.done) c u) serving g'.place l))
      × Follows junk blank t c user sent g'.done g'.todo u

-- While a connection serves a known user on valid tables, for any order of the rounds in which the
-- connector reads a well-formed UPDATE request and of the turns of the speaker, while the client can
-- be written to, the server is not shutting down and tweet numbers last: no turn waits for ever, and
-- the connection follows a log in which each request first waits and is carried out by a turn of the
-- speaker that waits for requests; the tables are those when the requests that are carried out have
-- been posted in order, the rest is queued, and each of them has one reply, which is written or
-- waits to be written, in order.
pub take_turns-LogsAll :
    (junk : TweetData) (blank : Message) (t : Tables) (c : ConnectionManager) (user : ℕ)
    (sent : List Message) (xs : List Activity) (g : Log) (l : ListenerPlace) (s : Session)
    → IsValid t
    → user < length t.list_of_users
    → All IsUp xs
    → All (IsUpdate junk blank) (g.todo ++ asked xs)
    → t.num_tweets + length g.done + length (g.todo ++ asked xs) < 2 ^ 31
    → Follows junk blank t c user sent g.done g.todo s
    → LogsAll junk blank t c user sent xs g l s
unfolding take_turns
take_turns-LogsAll junk blank t c user sent [] g l s v known up h room f = (s, refl, f)
take_turns-LogsAll junk blank t c user sent (a ∷ xs) g l s v known up h room f =
    let (fit, first) = log_one-IsFit junk blank t c user sent a xs g (h, omega (arith, room)) in
    let (u, run, f₁) = step-Follows junk blank t c user sent v known a g l s up.0 first f in
    let (u₂, run₂, f₂) =
      take_turns-LogsAll junk blank t c user sent xs (log_one a g) l u v known up.1 fit.0
        (omega (arith, fit.1)) f₁ in
    (u₂, take_turns-next junk blank (turn_of a) (map turn_of xs) _ run ∙ run₂, f₂)

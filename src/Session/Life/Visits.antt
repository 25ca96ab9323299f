-- ===== src/Session/Life/Visits.antt =====
-- Whole connections (src/main_server.cpp): sign-in, requests, shutdown, and the end of the threads.
use sisop2_tf.Base.{
  ℕ, ◌+◌, ◌^◌, ◌<◌, ◌≡◌, refl, ap, subst, sym, ◌∙◌, true, false, not, some, List, [], ◌∷◌, ◌++◌,
  map, length, All, arith, ok, >>=-ok, ltb, Returns-ok, Option-cases, inl, inr,
}
use sisop2_tf.Data.{TweetData}
use sisop2_tf.Message.{Message, sign_in, shutdown_req, c_str, strcpy}
use sisop2_tf.Connections.{ConnectionManager}
use sisop2_tf.Connections.Limit.{IsValid as IsValidManager, sessions, Registers}
use sisop2_tf.Database.State.{Tables, at_rest}
use sisop2_tf.Database.Tables.{IsValid}
use sisop2_tf.Database.Users.{find_user, index_result}
use sisop2_tf.Database.FollowRun.{find_user-lt}
use sisop2_tf.Session.State.{Session, opened, change}
use sisop2_tf.Session.SignIn.{world, index_of, accepts, answer, SignsIn, sign_in-SignsIn}
use sisop2_tf.Session.Requests.{IsUpdate, all_posted}
use sisop2_tf.Session.Connector.{Env, packet, connector_round, dispatch}
use sisop2_tf.Session.Life.{
  serving, closed, at_head, silent, checking, deaf, Life, new_life, Turn, connects, take_turn,
  take_turns,
}
use sisop2_tf.Session.Life.Joins.{life}
use sisop2_tf.Session.Life.Rounds.{read_in, connector_round-dispatch, put_down}
use sisop2_tf.Session.Life.Turns.{
  Activity, asks, turn_of, asked, IsUp, Log, log_all, in_world-ok, serving_turn,
}
use sisop2_tf.Session.Life.Requests.{Follows}
use sisop2_tf.Session.Life.Serving.{
  take_turns-next, take_turns-append, take_turns-LogsAll, log_all-IsFit,
}
use sisop2_tf.Session.Life.Closing.{farewell, farewell-EndsWith}
use sisop2_tf.Session.Life.Ends.{carried}

-- The client asks for the end; then every thread has the turns that it needs.
-- The index of a name that is let in.
index_of-known :
    (t : Tables) (c : ConnectionManager) (name : List ℕ)
    → accepts t c name ≡ true
    → (index_of t name < length t.list_of_users) × (ltb (sessions c (index_of t name)) 2 ≡ true)
index_of-known t c name h = elim (Option-cases (find_user name t.list_of_users)) [
  | inl e ↦ absurd (ground (arith, h, e))
  | inr (i, e) ↦ (
    subst (λ o. index_result o < length t.list_of_users) (sym e)
        (find_user-lt name t.list_of_users e),
    ground (arith, h, e),
  )
]

-- What a whole visit owes: the connection is closed, its threads have ended, these requests are
-- carried out, and every user has the number of sessions of before.
abbrev pub IsVisited :
    TweetData → Message → Tables → ConnectionManager → ℕ → List Message → List Turn → Life → Type 0
IsVisited junk blank t c user ms turns l =
    (d : ConnectionManager) × (u : Session) × (take_turns junk blank turns l
      ≡ ok tt (life (world (all_posted junk blank user ms t) d u) closed silent deaf))
    × IsValidManager d
    × ((j : ℕ) → sessions d j ≡ sessions c j)

abbrev new_log : Log
new_log = record { done = []; todo = []; place = at_head }

module _ (junk : TweetData) (blank : Message) (env : Env) (t : Tables) (c : ConnectionManager)
    (name bytes : List ℕ) (m pkt : Message) where
  -- The first round of a connection whose client is let in.
  signs_in :
      env.server_shutdown_notice ≡ false
      → env.alive ≡ true
      → IsValidManager c
      → m.type ≡ sign_in
      → c_str m.payload ≡ some name
      → strcpy env.blank.payload name ≡ some bytes
      → accepts t c name ≡ true
      → (d : ConnectionManager) × (s : Session) × (take_turn junk blank
            (connects env (packet m ∷ []))
            (new_life pkt (at_rest t c))
          ≡ ok tt (life (world t d s) serving at_head checking))
        × Registers (index_of t name) c true d
        × Follows junk blank t d (index_of t name) (answer env true bytes ∷ []) [] [] s
  signs_in up alive valid is_sign_in text fits let_in =
      let s₀ = read_in (opened pkt) m in
      let (_, w, run, (d, e, registers)) =
        Returns-ok (λ _ w. SignsIn env t c s₀ name bytes w) _
          (sign_in-SignsIn env t c s₀ m name bytes up alive valid is_sign_in text fits) in
      let fewer = (index_of-known t c name let_in).1 in
      (
        d,
        record s₀ {
          client_index = index_of t name;
          client_name = name;
          client_shutdown_notice = not (accepts t c name);
          sent = answer env (accepts t c name) bytes ∷ [];
          data_read = false;
        },
        serving_turn junk blank env (packet m ∷ []) (world t c (opened pkt)) at_head checking refl
            ∙ in_world-ok (connector_round env (packet m ∷ [])) (new_life pkt (at_rest t c)) (
                connector_round-dispatch env t c (opened pkt) m up alive
                ∙ >>=-ok (dispatch env m) (λ _. change put_down) (run ∙ ap (ok tt) e)),
        subst (λ b. Registers (index_of t name) c b d) fewer registers,
        record {
          index = refl;
          incoming = refl;
          marked = refl;
          notice = ap not let_in;
          replies = ap (λ b. answer env b bytes ∷ []) let_in;
        },
      )

-- A client that can be written to, while the server is not shutting down, makes a whole visit: its
-- SIGN_IN is accepted, then it sends well-formed UPDATE requests, which the connector reads between
-- turns of the speaker in any order, then it asks for the shutdown, and the listener looks for tweets
-- behind that only. From a server at rest with valid tables and a valid manager, while tweet numbers
-- last, no turn waits for ever: in the end the connection is closed, its threads have ended, and each
-- user has as many sessions as before. Posted, in their order, are the requests that the speaker's
-- turns have taken up before the shutdown, and those that wait then if the speaker stands in its inner
-- loop; if it stands at its outer one, those that wait are lost.
pub take_turns-IsVisited :
    (junk : TweetData) (blank : Message) (env : Env) (t : Tables) (c : ConnectionManager)
    (name bytes : List ℕ) (first last pkt : Message) (xs : List Activity)
    → IsValid t
    → IsValidManager c
    → IsUp (asks env first)
    → first.type ≡ sign_in
    → c_str first.payload ≡ some name
    → strcpy env.blank.payload name ≡ some bytes
    → accepts t c name ≡ true
    → All IsUp xs
    → All (IsUpdate junk blank) (asked xs)
    → t.num_tweets + length (asked xs) < 2 ^ 31
    → last.type ≡ shutdown_req
    → let g = log_all xs new_log in
      IsVisited junk blank t c
        (index_of t name)
        (carried g.done g.todo g.place)
        (connects env (packet first ∷ []) ∷ map turn_of xs ++ farewell env last)
        (new_life pkt (at_rest t c))
take_turns-IsVisited junk blank env t c name bytes first last pkt xs v valid (up, alive) is_sign_in
      text fits let_in ups updates room is_shutdown =
    let user = index_of t name in
    let g = log_all xs new_log in
    let sent = answer env true bytes ∷ [] in
    let (known, few) = index_of-known t c name let_in in
    let (d, s, run₁, registers, f) =
      signs_in junk blank env t c name bytes first pkt up alive valid is_sign_in text fits let_in in
    let (s₂, run₂, f₂) =
      take_turns-LogsAll junk blank t d user sent xs new_log checking s v known ups updates
        (omega (arith, room)) f in
    let online : 0 < sessions d user = ground (arith, registers.2 user) in
    let (d', s₃, run₃, closes) =
      farewell-EndsWith junk blank t d user sent env last g checking s₂ v registers.0 known online
        (up, alive) is_shutdown
        (log_all-IsFit junk blank t d user sent xs new_log (updates, omega (arith, room))) f₂ in
    (
      d',
      s₃,
      take_turns-next junk blank (connects env (packet first ∷ []))
            (map turn_of xs ++ farewell env last) _ run₁
          ∙ take_turns-append junk blank (map turn_of xs) (farewell env last) _ run₂
          ∙ run₃,
      closes.0,
      λ j. ground (arith, registers.2 j, closes.2 j),
    )

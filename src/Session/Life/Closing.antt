-- ===== src/Session/Life/Closing.antt =====
-- The end of a connection that is ordered to end (src/main_server.cpp), by its client or by the server.
use sisop2_tf.Base.{
  ℕ, ◌+◌, ◌<◌, ◌≤◌, ◌≡◌, refl, subst, sym, ◌∙◌, true, false, List, [], ◌∷◌, ◌++◌, length,
  length-append, arith, ok,
}
use sisop2_tf.Data.{TweetData}
use sisop2_tf.Message.{Message, ack, shutdown_req}
use sisop2_tf.Connections.{ConnectionManager}
use sisop2_tf.Connections.Limit.{IsValid as IsValidManager, sessions, Closes}
use sisop2_tf.Database.State.{Tables}
use sisop2_tf.Database.Tables.{IsValid}
use sisop2_tf.Session.State.{Session}
use sisop2_tf.Session.SignIn.{world}
use sisop2_tf.Session.Requests.{all_posted}
use sisop2_tf.Session.Interleaving.{all_posted-IsValid}
use sisop2_tf.Session.Connector.{Env, packet, connector_round}
use sisop2_tf.Session.Life.{
  serving, joining, closed, SpeakerPlace, at_head, waiting, silent, ListenerPlace, deaf, Life, Turn,
  connects, speaks, listens, take_turn, take_turns,
}
use sisop2_tf.Session.Life.Joins.{life}
use sisop2_tf.Session.Life.Rounds.{read_in, read_in-IsFlushed, connector_round-shutdown}
use sisop2_tf.Session.Life.Turns.{asks, IsUp, Log, in_world-ok, serving_turn, ordered_turn}
use sisop2_tf.Session.Life.Requests.{posted, Follows, AreReady}
use sisop2_tf.Session.Life.Serving.{take_turns-next}
use sisop2_tf.Session.Life.Ends.{carried, silenced, speaker_ends, listener_ends, connector_ends}

-- The client asks for the end; then every thread has the turns that it needs.
abbrev pub ending : Env → List Turn
ending env = speaks ∷ speaks ∷ listens ∷ listens ∷ connects env [] ∷ []

abbrev pub farewell : Env → Message → List Turn
farewell env m = connects env (packet m ∷ []) ∷ connects env [] ∷ ending env

pub carried-short :
    (done todo : List Message) (sp : SpeakerPlace)
    → length (carried done todo sp) ≤ length done + length todo
carried-short done todo at_head = omega arith
carried-short done todo waiting = omega (arith, length-append done todo)
carried-short done todo silent = omega arith

module _ (junk : TweetData) (blank : Message) (t : Tables) (c : ConnectionManager) (user : ℕ)
    (sent : List Message) where
  silenced-same :
      (sp : SpeakerPlace) (s : Session)
      → ((silenced junk blank t c user sent sp s).client_index ≡ s.client_index)
        × ((silenced junk blank t c user sent sp s).client_shutdown_notice
            ≡ s.client_shutdown_notice)
  silenced-same at_head s = (refl, refl)
  silenced-same waiting s = (refl, refl)
  silenced-same silent s = (refl, refl)

  -- A connection that has ended, its session closed, with these requests carried out.
  abbrev pub EndsWith : List Message → List Turn → Life → Type 0
  EndsWith ms turns l =
      (d : ConnectionManager) × (u : Session) × (take_turns junk blank turns l
        ≡ ok tt (life (world (all_posted junk blank user ms t) d u) closed silent deaf))
      × Closes user c true d

  -- A connection that is ordered to end does so when every thread has had its turns.
  pub ordered-EndsWith :
      (env : Env) (done todo : List Message) (sp : SpeakerPlace) (l : ListenerPlace) (s : Session)
      → IsValid t
      → IsValidManager c
      → user < length t.list_of_users
      → 0 < sessions c user
      → AreReady junk blank t c user sent done todo 0
      → s.client_index ≡ user
      → s.incoming_messages ≡ todo
      → s.client_shutdown_notice ≡ true
      → EndsWith
          (carried done todo sp)
          (connects env [] ∷ ending env)
          (life (world (posted junk blank t c user sent done) c s) serving sp l)
  unfolding take_turns
  ordered-EndsWith env done todo sp l s₁ v valid known online ready index₁ incoming ordered =
      let tables : List Message → Tables = posted junk blank t c user sent in
      let ms = carried done todo sp in
      let s₂ = silenced junk blank t c user sent sp s₁ in
      let (index_same, notice_same) = silenced-same sp s₁ in
      let index₂ : s₂.client_index ≡ user = index_same ∙ index₁ in
      let (v₂, users, _) =
        all_posted-IsValid junk blank user ms t v known
          (omega (arith, ready.1, carried-short done todo sp)) in
      let known₂ : s₂.client_index < length (tables ms).list_of_users =
        subst (λ i. i < length (tables ms).list_of_users) (sym index₂)
          (subst (λ us. user < length us) (sym users) known) in
      let online₂ : 0 < sessions c s₂.client_index =
        subst (λ i. 0 < sessions c i) (sym index₂) online in
      let (d, run, facts₂) = connector_ends junk blank env (tables ms) c s₂ valid online₂ in
      (
        d,
        s₂,
        take_turns-next junk blank (connects env []) (ending env) _
              (ordered_turn junk blank env [] (world (tables done) c s₁) sp l ordered)
            ∙ speaker_ends junk blank t c user sent done todo s₁ joining sp l
                (listens ∷ listens ∷ connects env [] ∷ []) v known index₁ incoming ready ordered
            ∙ listener_ends junk blank (tables ms) c s₂ joining silent l (connects env [] ∷ []) v₂
                valid known₂ online₂ (notice_same ∙ ordered)
            ∙ take_turns-next junk blank (connects env []) [] _ run,
        subst (λ i. Closes i c true d) index₂ facts₂,
      )

  -- A first turn that orders the end.
  pub next-EndsWith :
      (turn : Turn) (turns : List Turn) (l l' : Life) (ms : List Message)
      → take_turn junk blank turn l ≡ ok tt l'
      → EndsWith ms turns l'
      → EndsWith ms (turn ∷ turns) l
  next-EndsWith turn turns l l' ms e (d, u, run, closes) =
      (d, u, take_turns-next junk blank turn turns l e ∙ run, closes)

  pub farewell-EndsWith :
      (env : Env) (m : Message) (g : Log) (l : ListenerPlace) (s : Session)
      → IsValid t
      → IsValidManager c
      → user < length t.list_of_users
      → 0 < sessions c user
      → IsUp (asks env m)
      → m.type ≡ shutdown_req
      → AreReady junk blank t c user sent g.done g.todo 0
      → Follows junk blank t c user sent g.done g.todo s
      → EndsWith
          (carried g.done g.todo g.place)
          (farewell env m)
          (life (world (posted junk blank t c user sent g.done) c s) serving g.place l)
  farewell-EndsWith env m g l s v valid known online (up, alive) asks_end ready f =
      let w = world (posted junk blank t c user sent g.done) c s in
      let facts = read_in-IsFlushed s m in
      let s₁ : Session = record (read_in s m) {
        client_shutdown_notice = true;
        sent = (read_in s m).sent ++ record env.blank { type = ack } ∷ [];
        data_read = false;
      } in
      next-EndsWith (connects env (packet m ∷ [])) (connects env [] ∷ ending env) _
        (life (world (posted junk blank t c user sent g.done) c s₁) serving g.place l)
        (carried g.done g.todo g.place)
        (serving_turn junk blank env (packet m ∷ []) w g.place l f.notice
          ∙ in_world-ok (connector_round env (packet m ∷ [])) (life w serving g.place l)
              (connector_round-shutdown env w.server.tables c s m up alive asks_end))
        (ordered-EndsWith env g.done g.todo g.place l s₁ v valid known online ready
          (facts.user ∙ f.index) (facts.incoming ∙ f.incoming) refl)

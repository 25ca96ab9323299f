-- ===== src/Session/Life/Ends.antt =====
-- The end of a connection (src/main_server.cpp): the client asks for it, the speaker and the listener
-- end, and the connector closes the session.
use sisop2_tf.Base.{
  ℕ, ◌<◌, ◌≡◌, refl, ap, sym, ◌∙◌, Bool, true, false, List, [], ◌∷◌, ◌++◌, length, arith, ok, pure,
  ◌>>◌, >>=-ok, if◌then◌else◌, Returns-ok, lt→ltb, Bool-cases, inl, inr,
}
use sisop2_tf.Data.{TweetData}
use sisop2_tf.Message.{Message}
use sisop2_tf.Connections.{ConnectionManager, close_connection}
use sisop2_tf.Connections.Limit.{
  IsValid as IsValidManager, sessions, Closes, close_connection-Closes,
}
use sisop2_tf.Connections.Refusal.{users_ne_nil}
use sisop2_tf.Connections.Duplicates.{does_client_have_duplicate_tweets-kept}
use sisop2_tf.Database.State.{Tables}
use sisop2_tf.Database.Tables.{IsValid}
use sisop2_tf.Database.Retrieve.{does_client_have_pending_tweets}
use sisop2_tf.Session.State.{Session, World}
use sisop2_tf.Session.Listener.{listener_check, listener_deliver}
use sisop2_tf.Session.SignIn.{world}
use sisop2_tf.Session.Speaker.{speaker_round}
use sisop2_tf.Session.Connector.{Env, tear_down}
use sisop2_tf.Session.Life.{
  ConnectorPlace, joining, closed, SpeakerPlace, at_head, waiting, silent, ListenerPlace, checking,
  cleared, deaf, in_world, connector_goes, speaker_goes, listener_goes, listener_turn, speaker_turn,
  connector_turn, Turn, connects, speaks, listens, take_turn, take_turns,
}
use sisop2_tf.Session.Life.Joins.{life}
use sisop2_tf.Session.Life.Turns.{in_world-ok, waiting_turn}
use sisop2_tf.Session.Life.Requests.{posted, after_pass, pass-posted, AreReady}
use sisop2_tf.Session.Life.Serving.{take_turns-next}

-- A check of the listener for a signed-in client whose connection is to end.
check_at_end :
    (t : Tables) (c : ConnectionManager) (s : Session)
    → IsValid t
    → IsValidManager c
    → s.client_index < length t.list_of_users
    → 0 < sessions c s.client_index
    → s.client_shutdown_notice ≡ true
    → listener_check (world t c s) ≡ ok true (world t c s)
unfolding listener_check does_client_have_pending_tweets
check_at_end t c s v m known online ordered =
    let user = s.client_index in
    let kept' =
      does_client_have_duplicate_tweets-kept user c (omega (arith, known, v.few_users)) m online in
    ground (arith, kept', ordered, v.pending_paired, known)

-- The requests that are carried out in the end: those that wait are lost, unless the speaker stands
-- in its inner loop when it is ordered to end.
abbrev pub carried : List Message → List Message → SpeakerPlace → List Message
carried done todo waiting = done ++ todo
carried done todo _ = done

module _ (junk : TweetData) (blank : Message) where
  cleared_ends :
      (w : World) (p : ConnectorPlace) (sp : SpeakerPlace)
      → w.session.client_shutdown_notice ≡ true
      → take_turn junk blank listens (life w p sp cleared) ≡ ok tt (life w p sp deaf)
  unfolding take_turn listener_turn
  cleared_ends w p sp ordered =
      ap
        (λ b.
          (if b
              then listener_goes deaf
              else (in_world (listener_deliver blank) >> listener_goes checking))
            (life w p sp cleared))
        ordered

  -- Two turns of the listener end it, where it is ordered to.
  pub listener_ends :
      (t : Tables) (c : ConnectionManager) (s : Session) (p : ConnectorPlace) (sp : SpeakerPlace)
      (l : ListenerPlace) (turns : List Turn)
      → IsValid t
      → IsValidManager c
      → s.client_index < length t.list_of_users
      → 0 < sessions c s.client_index
      → s.client_shutdown_notice ≡ true
      → take_turns junk blank (listens ∷ listens ∷ turns) (life (world t c s) p sp l)
        ≡ take_turns junk blank turns (life (world t c s) p sp deaf)
  unfolding take_turn listener_turn
  listener_ends t c s p sp checking turns v m known online ordered =
      take_turns-next junk blank listens (listens ∷ turns) _ (
        >>=-ok (in_world listener_check) (λ go. if go then listener_goes cleared else pure tt)
          (in_world-ok listener_check (life (world t c s) p sp checking)
            (check_at_end t c s v m known online ordered)))
      ∙ take_turns-next junk blank listens turns _ (cleared_ends (world t c s) p sp ordered)
  listener_ends t c s p sp cleared turns v m known online ordered =
      take_turns-next junk blank listens (listens ∷ turns) _
        (cleared_ends (world t c s) p sp ordered)
      ∙ take_turns-next junk blank listens turns _ refl
  listener_ends t c s p sp deaf turns v m known online ordered =
      take_turns-next junk blank listens (listens ∷ turns) _ refl
      ∙ take_turns-next junk blank listens turns _ refl

  at_head_ends :
      (w : World) (p : ConnectorPlace) (l : ListenerPlace)
      → w.session.client_shutdown_notice ≡ true
      → take_turn junk blank speaks (life w p at_head l) ≡ ok tt (life w p silent l)
  unfolding take_turn speaker_turn
  at_head_ends w p l ordered =
      ap (λ b. (if b then speaker_goes silent else speaker_goes waiting) (life w p at_head l))
        ordered

  last_pass :
      (w : World) (p : ConnectorPlace) (l : ListenerPlace)
      → w.session.client_shutdown_notice ≡ true
      → take_turn junk blank speaks (life w p waiting l)
        ≡ (in_world (speaker_round junk blank) >> speaker_goes at_head) (life w p waiting l)
  last_pass w p l ordered = elim (Bool-cases w.session.incoming_queue_empty) [
    | inl nothing ↦ waiting_turn junk blank w p l true true nothing ordered
    | inr something ↦ waiting_turn junk blank w p l false true something ordered
  ]

  module _ (t : Tables) (c : ConnectionManager) (user : ℕ) (sent : List Message) where
    abbrev pub tables_at : List Message → Tables
    tables_at ms = posted junk blank t c user sent ms

    -- The session when the speaker has ended.
    abbrev pub silenced : SpeakerPlace → Session → Session
    silenced waiting s = after_pass junk blank t c user sent s
    silenced _ s = s

    -- Two turns of the speaker end it, where it is ordered to. One that waits for requests makes
    -- its pass first.
    pub speaker_ends :
        (done todo : List Message) (s : Session) (p : ConnectorPlace) (sp : SpeakerPlace)
        (l : ListenerPlace) (turns : List Turn)
        → IsValid t
        → user < length t.list_of_users
        → s.client_index ≡ user
        → s.incoming_messages ≡ todo
        → AreReady junk blank t c user sent done todo 0
        → s.client_shutdown_notice ≡ true
        → take_turns junk blank (speaks ∷ speaks ∷ turns) (life (world (tables_at done) c s) p sp l)
          ≡ take_turns junk blank turns
              (life (world (tables_at (carried done todo sp)) c (silenced sp s)) p silent l)
    unfolding take_turn speaker_turn
    speaker_ends done todo s p at_head l turns v known index incoming ready ordered =
        take_turns-next junk blank speaks (speaks ∷ turns) _
          (at_head_ends (world (tables_at done) c s) p l ordered)
        ∙ take_turns-next junk blank speaks turns _ refl
    speaker_ends done todo s p waiting l turns v known index incoming ready ordered =
        take_turns-next junk blank speaks (speaks ∷ turns) _ (
          last_pass (world (tables_at done) c s) p l ordered
          ∙ >>=-ok (in_world (speaker_round junk blank)) (λ _. speaker_goes at_head)
              (pass-posted junk blank t c user sent v known done todo p l s index incoming ready))
        ∙ take_turns-next junk blank speaks turns _ (
            at_head_ends
              (world (tables_at (done ++ todo)) c (after_pass junk blank t c user sent s)) p l
              ordered)
    speaker_ends done todo s p silent l turns v known index incoming ready ordered =
        take_turns-next junk blank speaks (speaks ∷ turns) _ refl
        ∙ take_turns-next junk blank speaks turns _ refl

close_run :
    (t : Tables) (c d : ConnectionManager) (s : Session) (b : Bool)
    → close_connection s.client_index c ≡ ok b d
    → tear_down (world t c s) ≡ ok b (world t d s)
unfolding tear_down
close_run t c d s b run = ground (arith, run)

-- The connector closes the session, when the others have ended.
pub connector_ends :
    (junk : TweetData) (blank : Message) (env : Env) (t : Tables) (c : ConnectionManager)
    (s : Session)
    → IsValidManager c
    → 0 < sessions c s.client_index
    → (d : ConnectionManager) × (take_turn junk blank
          (connects env [])
          (life (world t c s) joining silent deaf)
        ≡ ok tt (life (world t d s) closed silent deaf))
      × Closes s.client_index c true d
unfolding take_turn connector_turn
connector_ends junk blank env t c s m online =
    let user = s.client_index in
    let (b, d, run, facts) =
      Returns-ok (Closes user c) _
        (close_connection-Closes user c m (users_ne_nil user c online)) in
    (
      d,
      >>=-ok (in_world tear_down) (λ _. connector_goes closed)
          (in_world-ok tear_down (life (world t c s) joining silent deaf)
            (close_run t c d s b run)),
      (facts.0, sym (lt→ltb 0 (sessions c user) online), facts.2),
    )

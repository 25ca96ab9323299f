-- ===== src/Session/Life/Joins.antt =====
-- The `join`s of the connector (src/main_server.cpp): when the connection is closed, the threads that
-- point to its queues and notices have ended.
use sisop2_tf.Base.{
  ◌≡◌, refl, Bool, true, false, not, ◌&&◌, List, [], ◌∷◌, Outcome, ok, blocked, fault, Leaves,
  Leaves->>=, subst, ◌∙◌, >>=-ok, pure, ◌>>=◌, ◌>>◌, if◌then◌else◌, arith,
}
use sisop2_tf.Data.{TweetData}
use sisop2_tf.Message.{Message}
use sisop2_tf.Database.State.{Server}
use sisop2_tf.Session.State.{World, Action}
use sisop2_tf.Session.Connector.{Env, Recv, connector_round, tear_down}
use sisop2_tf.Session.Speaker.{speaker_round}
use sisop2_tf.Session.Listener.{listener_check, listener_deliver}
use sisop2_tf.Session.Life.{
  ConnectorPlace, serving, joining, closed, SpeakerPlace, at_head, waiting, silent, ListenerPlace,
  checking, cleared, deaf, Living, in_world, connector_goes, speaker_goes, listener_goes, Life,
  new_life, have_left, connector_turn, speaker_turn, listener_turn, Turn, connects, speaks, listens,
  take_turn, take_turns,
}

abbrev pub life : World → ConnectorPlace → SpeakerPlace → ListenerPlace → Life
life w c s l = record { world = w; connector = c; speaker = s; listener = l }

-- The places that may occur together.
abbrev AreJoined : ConnectorPlace → SpeakerPlace → ListenerPlace → Type 0
AreJoined closed s l = have_left s l ≡ true
AreJoined _ s l = Unit

abbrev IsJoined : Life → Type 0
IsJoined l = AreJoined l.connector l.speaker l.listener

in_world-elim :
    {A : Type 0} (P : Life → Type 0) (o : Outcome World A) (l : Life)
    → ((w : World) → P (record l { world = w }))
    → Leaves P (in_world (λ _. o) l)
in_world-elim P (ok a w) l h = h w
in_world-elim P (blocked w) l h = h w
in_world-elim P fault l h = tt

-- A thread's code leaves the places as they are.
in_world-Leaves :
    {A : Type 0} (P : Life → Type 0) (m : Action A) (l : Life)
    → ((w : World) → P (record l { world = w }))
    → Leaves P (in_world m l)
in_world-Leaves P m l h = in_world-elim P (m l.world) l h

if-Leaves :
    {A : Type 0} (P : Life → Type 0) (test : Bool) (m n : Living A) (l : Life)
    → Leaves P (m l)
    → Leaves P (n l)
    → Leaves P ((if test then m else n) l)
if-Leaves P true m n l h k = h
if-Leaves P false m n l h k = k

module _ {A : Type 0} (P : Life → Type 0) (f : A → Living (Unit {0})) (l : Life) where
  in_world-then :
      (o : Outcome World A)
      → ((w : World) → P (record l { world = w }))
      → ((a : A) (w : World) → Leaves P (f a (record l { world = w })))
      → Leaves P ((in_world (λ _. o) >>= f) l)
  in_world-then (ok a w) h k = k a w
  in_world-then (blocked w) h k = h w
  in_world-then fault h k = tt

  -- A thread's code, and what it does then.
  in_world->>= :
      (m : Action A)
      → ((w : World) → P (record l { world = w }))
      → ((a : A) (w : World) → Leaves P (f a (record l { world = w })))
      → Leaves P ((in_world m >>= f) l)
  in_world->>= m h k = in_world-then (m l.world) h k

connector_turn-IsJoined :
    (env : Env) (rs : List Recv) (w : World) (c : ConnectorPlace) (s : SpeakerPlace)
    (l : ListenerPlace)
    → AreJoined c s l
    → Leaves IsJoined (connector_turn env rs c (life w c s l))
unfolding connector_turn
connector_turn-IsJoined env rs w serving s l h =
    if-Leaves IsJoined w.session.client_shutdown_notice (connector_goes joining)
      (in_world (connector_round env rs)) (life w serving s l) tt
      (in_world-Leaves IsJoined (connector_round env rs) (life w serving s l) (λ v. tt))
connector_turn-IsJoined env rs w joining silent deaf h =
    in_world->>= IsJoined (λ _. connector_goes closed) (life w joining silent deaf) tear_down
      (λ v. tt) (λ _ v. refl)
connector_turn-IsJoined env rs w joining silent checking h = tt
connector_turn-IsJoined env rs w joining silent cleared h = tt
connector_turn-IsJoined env rs w joining at_head l h = tt
connector_turn-IsJoined env rs w joining waiting l h = tt
connector_turn-IsJoined env rs w closed s l h = h

-- The places of a connection that is not closed are free.
AreJoined-open :
    (c : ConnectorPlace) (s s' : SpeakerPlace) (l l' : ListenerPlace)
    → have_left s l ≡ false
    → AreJoined c s l
    → AreJoined c s' l'
AreJoined-open serving s s' l l' e h = tt
AreJoined-open joining s s' l l' e h = tt
AreJoined-open closed s s' l l' e h = absurd (ground (arith, e, h))

still_checking : (s : SpeakerPlace) → have_left s checking ≡ false
still_checking at_head = refl
still_checking waiting = refl
still_checking silent = refl

still_cleared : (s : SpeakerPlace) → have_left s cleared ≡ false
still_cleared at_head = refl
still_cleared waiting = refl
still_cleared silent = refl

module _ (junk : TweetData) (blank : Message) where
  speaker_turn-IsJoined :
      (w : World) (c : ConnectorPlace) (s : SpeakerPlace) (l : ListenerPlace)
      → AreJoined c s l
      → Leaves IsJoined (speaker_turn junk blank s (life w c s l))
  unfolding speaker_turn
  speaker_turn-IsJoined w c at_head l h =
      if-Leaves IsJoined w.session.client_shutdown_notice (speaker_goes silent)
        (speaker_goes waiting) (life w c at_head l) (AreJoined-open c at_head silent l l refl h)
        (AreJoined-open c at_head waiting l l refl h)
  speaker_turn-IsJoined w c waiting l h =
      if-Leaves IsJoined (w.session.incoming_queue_empty && not w.session.client_shutdown_notice)
        (pure tt) (in_world (speaker_round junk blank) >> speaker_goes at_head) (life w c waiting l)
        h
        (in_world->>= IsJoined (λ _. speaker_goes at_head) (life w c waiting l)
          (speaker_round junk blank) (λ v. h) (λ _ v. AreJoined-open c waiting at_head l l refl h))
  speaker_turn-IsJoined w c silent l h = h

  listener_turn-IsJoined :
      (w : World) (c : ConnectorPlace) (s : SpeakerPlace) (l : ListenerPlace)
      → AreJoined c s l
      → Leaves IsJoined (listener_turn blank l (life w c s l))
  unfolding listener_turn
  listener_turn-IsJoined w c s checking h =
      in_world->>= IsJoined (λ go. if go then listener_goes cleared else pure tt)
        (life w c s checking) listener_check (λ v. h)
        (λ go v.
          if-Leaves IsJoined go (listener_goes cleared) (pure tt) (life v c s checking)
            (AreJoined-open c s s checking cleared (still_checking s) h) h)
  listener_turn-IsJoined w c s cleared h =
      if-Leaves IsJoined w.session.client_shutdown_notice (listener_goes deaf)
        (in_world (listener_deliver blank) >> listener_goes checking) (life w c s cleared)
        (AreJoined-open c s s cleared deaf (still_cleared s) h)
        (in_world->>= IsJoined (λ _. listener_goes checking) (life w c s cleared)
          (listener_deliver blank) (λ v. h)
          (λ _ v. AreJoined-open c s s cleared checking (still_cleared s) h))
  listener_turn-IsJoined w c s deaf h = h

  take_turn-IsJoined :
      (turn : Turn) (l : Life) → IsJoined l → Leaves IsJoined (take_turn junk blank turn l)
  unfolding take_turn
  take_turn-IsJoined (connects env rs) l h =
      connector_turn-IsJoined env rs l.world l.connector l.speaker l.listener h
  take_turn-IsJoined speaks l h = speaker_turn-IsJoined l.world l.connector l.speaker l.listener h
  take_turn-IsJoined listens l h = listener_turn-IsJoined l.world l.connector l.speaker l.listener h

  take_turns-IsJoined :
      (turns : List Turn) (l : Life) → IsJoined l → Leaves IsJoined (take_turns junk blank turns l)
  unfolding take_turns
  take_turns-IsJoined [] l h = h
  take_turns-IsJoined (turn ∷ turns) l h =
      Leaves->>= IsJoined IsJoined (λ _. take_turns junk blank turns) (take_turn junk blank turn) l
        (take_turn-IsJoined turn l h) (λ u k. k) (λ _ u k. take_turns-IsJoined turns u k)

  -- Threads that have ended do nothing.
  ended_turn :
      (turn : Turn) (w : World)
      → take_turn junk blank turn (life w closed silent deaf) ≡ ok tt (life w closed silent deaf)
  unfolding take_turn connector_turn speaker_turn listener_turn
  ended_turn (connects env rs) w = refl
  ended_turn speaks w = refl
  ended_turn listens w = refl

  ended_turns :
      (turns : List Turn) (w : World)
      → take_turns junk blank turns (life w closed silent deaf) ≡ ok tt (life w closed silent deaf)
  unfolding take_turns
  ended_turns [] w = refl
  ended_turns (turn ∷ turns) w =
      >>=-ok (take_turn junk blank turn) (λ _. take_turns junk blank turns) (ended_turn turn w)
      ∙ ended_turns turns w

  -- What a closed connection owes: its threads have ended, and whatever is scheduled changes nothing.
  abbrev pub IsOver : Life → Type 0
  IsOver l =
      (l.speaker ≡ silent)
      × (l.listener ≡ deaf)
      × ((more : List Turn) → take_turns junk blank more l ≡ ok tt l)

  closed-IsOver :
      (w : World) (c : ConnectorPlace) (s : SpeakerPlace) (l : ListenerPlace)
      → AreJoined c s l
      → c ≡ closed
      → IsOver (life w c s l)
  closed-IsOver w closed silent deaf h e = (refl, refl, λ more. ended_turns more w)
  closed-IsOver w closed silent checking h e = absurd (ground (arith, h))
  closed-IsOver w closed silent cleared h e = absurd (ground (arith, h))
  closed-IsOver w closed at_head l h e = absurd (ground (arith, h))
  closed-IsOver w closed waiting l h e = absurd (ground (arith, h))
  closed-IsOver w serving s l h e = absurd (ground (arith, e))
  closed-IsOver w joining s l h e = absurd (ground (arith, e))

-- For every order of the turns of the three threads of a new connection: once the connector has closed
-- the connection, the speaker and the listener have ended, and no turn that is taken then does anything,
-- so the connection is closed at most once and its queues are not used behind its end.
pub take_turns-IsOver :
    (junk : TweetData) (blank pkt : Message) (server : Server) (turns : List Turn) (l : Life)
    → take_turns junk blank turns (new_life pkt server) ≡ ok tt l
    → l.connector ≡ closed
    → IsOver junk blank l
take_turns-IsOver junk blank pkt server turns l runs e =
    closed-IsOver junk blank l.world l.connector l.speaker l.listener
      (subst (Leaves IsJoined) runs (take_turns-IsJoined junk blank turns (new_life pkt server) tt))
      e

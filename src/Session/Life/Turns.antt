-- ===== src/Session/Life/Turns.antt =====
-- Single turns of the connector and the speaker (src/main_server.cpp), and what they mean for the requests.
use sisop2_tf.Base.{
  ℕ, suc, ◌≡◌, ap, ◌∙◌, Bool, true, false, not, ◌&&◌, List, [], ◌∷◌, ◌++◌, arith, ok, Outcome, pure,
  ◌>>◌, ◌==◌, if◌then◌else◌,
}
use sisop2_tf.Data.{TweetData}
use sisop2_tf.Message.{Message}
use sisop2_tf.Session.State.{World, Action}
use sisop2_tf.Session.Connector.{Env, Recv, packet, connector_round}
use sisop2_tf.Session.Speaker.{speaker_round}
use sisop2_tf.Session.Life.{
  ConnectorPlace, serving, joining, SpeakerPlace, at_head, waiting, silent, ListenerPlace, in_world,
  connector_goes, speaker_goes, connector_turn, speaker_turn, Life, Turn, connects, speaks,
  take_turn,
}
use sisop2_tf.Session.Life.Joins.{life}

-- A packet that the connector reads, or a turn of the speaker.
pub data Activity : Type 0 where
  asks : Env → Message → Activity
  works : Activity

abbrev pub turn_of : Activity → Turn
turn_of (asks env m) = connects env (packet m ∷ [])
turn_of works = speaks

abbrev pub asked : List Activity → List Message
asked [] = []
asked (asks env m ∷ xs) = m ∷ asked xs
asked (works ∷ xs) = asked xs

-- The client can be written to, and the server is not shutting down.
abbrev pub IsUp : Activity → Type 0
IsUp (asks env m) = (env.server_shutdown_notice ≡ false) × (env.alive ≡ true)
IsUp works = Unit

-- The requests that are carried out and that wait, and where the speaker is.
pub record Log : Type 0 where
  pub done : List Message
  pub todo : List Message
  pub place : SpeakerPlace

-- A turn of the speaker.
abbrev pub work : List Message → List Message → SpeakerPlace → Log
work done todo at_head = record { done = done; todo = todo; place = waiting }
work done [] waiting = record { done = done; todo = []; place = waiting }
work done (m ∷ ms) waiting = record { done = done ++ m ∷ ms; todo = []; place = at_head }
work done todo silent = record { done = done; todo = todo; place = silent }

-- What a run should do, without threads, queues or tables.
abbrev pub log_one : Activity → Log → Log
log_one (asks env m) g = record g { todo = g.todo ++ m ∷ [] }
log_one works g = work g.done g.todo g.place

abbrev pub log_all : List Activity → Log → Log
log_all [] g = g
log_all (a ∷ xs) g = log_all xs (log_one a g)

pub not_zero : (n : ℕ) → (suc n == 0) ≡ false
not_zero n = ground arith

-- A thread's code has returned.
pub in_world-ok :
    {A : Type 0} (m : Action A) (l : Life) {a : A} {w : World}
    → m l.world ≡ ok a w
    → in_world m l ≡ ok a (record l { world = w })
in_world-ok m l e = ap (λ o. in_world (λ _. o) l) e

module _ (junk : TweetData) (blank : Message) (env : Env) (rs : List Recv) (w : World)
    (sp : SpeakerPlace) (l : ListenerPlace) where
  -- The turn of a connector in its loop, by the notice.
  in_loop : Bool → Outcome Life (Unit {0})
  in_loop ordered =
      (if ordered then connector_goes joining else in_world (connector_round env rs))
        (life w serving sp l)

  pub serving_turn :
      w.session.client_shutdown_notice ≡ false
      → take_turn junk blank (connects env rs) (life w serving sp l)
        ≡ in_world (connector_round env rs) (life w serving sp l)
  unfolding take_turn connector_turn in_loop
  serving_turn e = ap in_loop e

  pub ordered_turn :
      w.session.client_shutdown_notice ≡ true
      → take_turn junk blank (connects env rs) (life w serving sp l) ≡ ok tt (life w joining sp l)
  unfolding take_turn connector_turn in_loop
  ordered_turn e = ap in_loop e

-- The turn of a speaker that waits, by what it finds.
pub waiting_turn :
    (junk : TweetData) (blank : Message) (w : World) (p : ConnectorPlace) (l : ListenerPlace)
    (nothing ordered : Bool)
    → w.session.incoming_queue_empty ≡ nothing
    → w.session.client_shutdown_notice ≡ ordered
    → take_turn junk blank speaks (life w p waiting l)
      ≡ (if nothing && not ordered
            then pure tt
            else in_world (speaker_round junk blank) >> speaker_goes at_head)
          (life w p waiting l)
unfolding take_turn speaker_turn
waiting_turn junk blank w p l nothing ordered e e' =
    let after : Bool → Outcome Life (Unit {0}) = λ b.
      (if b then pure tt else in_world (speaker_round junk blank) >> speaker_goes at_head)
        (life w p waiting l) in
    ap (λ b. after (b && not w.session.client_shutdown_notice)) e
    ∙ ap (λ b. after (nothing && not b)) e'

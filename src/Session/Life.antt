-- ===== src/Session/Life.antt =====
-- The lives of the three threads of a connection (src/main_server.cpp): the loops of
-- `handle_client_connector`, `handle_client_speaker` and `handle_client_listener`, in any order of
-- their turns.
pub mod Joins
pub mod Rounds
pub mod Turns
pub mod Requests
pub mod Serving
pub mod Delivery
pub mod Arrival
pub mod Ends
pub mod Closing
pub mod Visits
pub mod Shutdown
mod Tests
use sisop2_tf.Base.{
  Bool, true, false, not, ◌&&◌, List, [], ◌∷◌, Program, ok, blocked, fault, pure, gets, modify,
  ◌>>=◌, ◌>>◌, if◌then◌else◌,
}
use sisop2_tf.Data.{TweetData}
use sisop2_tf.Message.{Message}
use sisop2_tf.Session.State.{World, Action, opened}
use sisop2_tf.Database.State.{Server}
use sisop2_tf.Session.Connector.{Env, Recv, connector_round, tear_down}
use sisop2_tf.Session.Speaker.{speaker_round}
use sisop2_tf.Session.Listener.{listener_check, listener_deliver}

-- In its loop, at the `join`s of the other two, or at its end.
pub data ConnectorPlace : Type 0 where
  serving joining closed : ConnectorPlace

-- At the head of its outer loop, in the inner loop that waits for requests, or at its end.
pub data SpeakerPlace : Type 0 where
  at_head waiting silent : SpeakerPlace

-- In the inner loop that waits for tweets, behind that loop, or at its end.
pub data ListenerPlace : Type 0 where
  checking cleared deaf : ListenerPlace

pub record Life : Type 0 where
  pub world : World
  pub connector : ConnectorPlace
  pub speaker : SpeakerPlace
  pub listener : ListenerPlace

-- The connection when its threads are started.
abbrev pub new_life : Message → Server → Life
new_life pkt server = record {
  world = record { server = server; session = opened pkt };
  connector = serving;
  speaker = at_head;
  listener = checking;
}

abbrev pub Living : Type 0 → Type 0
Living A = Program Life A

-- What one thread does to the state that they share.
abbrev pub in_world : {A : Type 0} → Action A → Living A
in_world m l = elim (m l.world) [
  | ok a w ↦ ok a (record l { world = w })
  | blocked w ↦ blocked (record l { world = w })
  | fault ↦ fault
]

abbrev pub is_ordered : Living Bool
is_ordered = gets λ l. l.world.session.client_shutdown_notice

abbrev pub connector_goes : ConnectorPlace → Living (Unit {0})
connector_goes p = modify λ l. record l { connector = p }

abbrev pub speaker_goes : SpeakerPlace → Living (Unit {0})
speaker_goes p = modify λ l. record l { speaker = p }

abbrev pub listener_goes : ListenerPlace → Living (Unit {0})
listener_goes p = modify λ l. record l { listener = p }

abbrev pub have_left : SpeakerPlace → ListenerPlace → Bool
have_left silent deaf = true
have_left _ _ = false

-- A round of its loop, or the end behind it, which waits for the other two.
unfoldable pub connector_turn : Env → List Recv → ConnectorPlace → Living (Unit {0})
connector_turn env rs serving = do
  ordered ← is_ordered
  if ordered then connector_goes joining else in_world (connector_round env rs)
connector_turn env rs joining = do
  left ← gets (λ l. have_left l.speaker l.listener)
  if left then (do in_world tear_down; connector_goes closed) else pure tt
connector_turn env rs closed = pure tt

-- The test of one of its loops, and the pass over the queue behind the inner one.
unfoldable pub speaker_turn : TweetData → Message → SpeakerPlace → Living (Unit {0})
speaker_turn junk blank at_head = do
  ordered ← is_ordered
  if ordered then speaker_goes silent else speaker_goes waiting
speaker_turn junk blank waiting = do
  ordered ← is_ordered
  nothing ← gets (λ l. l.world.session.incoming_queue_empty)
  if nothing && not ordered
      then pure tt
      else (do in_world (speaker_round junk blank); speaker_goes at_head)
speaker_turn junk blank silent = pure tt

-- A round of the loop that waits, or what follows that loop.
unfoldable pub listener_turn : Message → ListenerPlace → Living (Unit {0})
listener_turn blank checking = do
  proceeds ← in_world listener_check
  if proceeds then listener_goes cleared else pure tt
listener_turn blank cleared = do
  ordered ← is_ordered
  if ordered
      then listener_goes deaf
      else (do in_world (listener_deliver blank); listener_goes checking)
listener_turn blank deaf = pure tt

-- Whose turn it is.
pub data Turn : Type 0 where
  connects : Env → List Recv → Turn
  speaks listens : Turn

module _ (junk : TweetData) (blank : Message) where
  unfoldable pub take_turn : Turn → Living (Unit {0})
  take_turn (connects env rs) l = connector_turn env rs l.connector l
  take_turn speaks l = speaker_turn junk blank l.speaker l
  take_turn listens l = listener_turn blank l.listener l

  unfoldable pub take_turns : List Turn → Living (Unit {0})
  take_turns [] = pure tt
  take_turns (turn ∷ turns) = do take_turn turn; take_turns turns

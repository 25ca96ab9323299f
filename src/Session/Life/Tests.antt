-- ===== src/Session/Life/Tests.antt =====
-- Connections at concrete inputs (src/main_server.cpp), for the theorems' hypotheses.
use sisop2_tf.Base.{◌≡◌, refl, true, false, [], ◌∷◌, ◌++◌, List, map, arith, str_eq}
use sisop2_tf.Message.{update, sign_in, shutdown_req}
use sisop2_tf.Database.State.{at_rest}
use sisop2_tf.Database.Users.{find_user}
use sisop2_tf.Database.Tests.{
  tables, tables-IsValid, tables_posted, tables_posted-IsValid, manager, manager-IsValid, ana, bob,
}
use sisop2_tf.Session.State.{Session, opened}
use sisop2_tf.Session.Connector.{Env, Recv}
use sisop2_tf.Session.SignIn.{world, index_of, accepts}
use sisop2_tf.Session.Requests.{all_posted}
use sisop2_tf.Session.Tests.{
  blank, env, junk, array_of, packet, ana_text, ana_fits, ana-IsUpdate, bob-IsUpdate, session,
  rows-IsSendable,
}
use sisop2_tf.Session.Life.{
  serving, waiting, silent, deaf, closed, checking, Turn, connects, new_life, at_head,
}
use sisop2_tf.Session.Life.Joins.{life, IsOver, take_turns-IsOver}
use sisop2_tf.Session.Life.Turns.{Activity, asks, works, turn_of, Log, log_all}
use sisop2_tf.Session.Life.Requests.{Follows}
use sisop2_tf.Session.Life.Serving.{LogsAll, take_turns-LogsAll}
use sisop2_tf.Session.Life.Delivery.{Delivers, take_turns-Delivers}
use sisop2_tf.Session.Life.Ends.{carried}
use sisop2_tf.Session.Life.Closing.{farewell, ending, EndsWith}
use sisop2_tf.Session.Life.Shutdown.{connects-EndsWith}
use sisop2_tf.Session.Life.Visits.{IsVisited, take_turns-IsVisited}

-- Two requests with a turn of the speaker before each, and one behind them.
abbrev activities : List Activity
activities =
    works ∷ asks env (packet update ana) ∷ works ∷ works ∷ asks env (packet update bob) ∷ []

-- A signed-in client.
abbrev signed_in : Session
signed_in = record (opened blank) { client_index = 0 }

signed_in-Follows : Follows junk blank tables manager 0 [] [] [] signed_in
signed_in-Follows = record {
  index = refl;
  incoming = refl;
  marked = refl;
  notice = refl;
  replies = refl;
}

abbrev nothing_yet : Log
nothing_yet = record { done = []; todo = []; place = at_head }

take_turns-LogsAll_example :
    LogsAll junk blank tables manager 0 [] activities nothing_yet checking signed_in
take_turns-LogsAll_example =
    take_turns-LogsAll junk blank tables manager 0 [] activities nothing_yet checking signed_in
      tables-IsValid (omega arith) (tt, ((refl, refl), (tt, (tt, ((refl, refl), tt)))))
      (ana-IsUpdate, (bob-IsUpdate, tt)) (omega arith) signed_in-Follows

ana_accepted : accepts tables manager ana ≡ true
unfolding find_user str_eq
ana_accepted = refl

abbrev visit_turns : List Turn
visit_turns =
    connects env (Recv.packet (packet sign_in ana) ∷ []) ∷ map turn_of activities
    ++ farewell env (packet shutdown_req ana)

abbrev last_log : Log
last_log = log_all activities nothing_yet

take_turns-IsVisited_example :
    IsVisited junk blank tables manager
      (index_of tables ana)
      (carried last_log.done last_log.todo last_log.place)
      visit_turns
      (new_life blank (at_rest tables manager))
take_turns-IsVisited_example =
    take_turns-IsVisited junk blank env tables manager ana (array_of ana) (packet sign_in ana)
      (packet shutdown_req ana) blank activities tables-IsValid manager-IsValid (refl, refl) refl
      ana_text ana_fits ana_accepted (tt, ((refl, refl), (tt, (tt, ((refl, refl), tt)))))
      (ana-IsUpdate, (bob-IsUpdate, tt)) (omega arith) refl

visited :
    IsVisited junk blank tables manager
      (index_of tables ana)
      (carried last_log.done last_log.todo last_log.place)
      visit_turns
      (new_life blank (at_rest tables manager))
visited =
    take_turns-IsVisited junk blank env tables manager ana (array_of ana) (packet sign_in ana)
      (packet shutdown_req ana) blank activities tables-IsValid manager-IsValid (refl, refl) refl
      ana_text ana_fits ana_accepted (tt, ((refl, refl), (tt, (tt, ((refl, refl), tt)))))
      (ana-IsUpdate, (bob-IsUpdate, tt)) (omega arith) refl

take_turns-IsOver_example : IsOver junk blank (
    life
      (world
        (all_posted junk blank
          (index_of tables ana)
          (carried last_log.done last_log.todo last_log.place)
          tables)
        visited.0
        visited.1)
      closed
      silent
      deaf)
take_turns-IsOver_example =
    take_turns-IsOver junk blank blank (at_rest tables manager) visit_turns _ visited.2 refl

take_turns-Delivers_example : Delivers junk blank env tables_posted manager (session 1) at_head
take_turns-Delivers_example =
    take_turns-Delivers junk blank env tables_posted manager (session 1) at_head
      tables_posted-IsValid manager-IsValid (omega arith) (omega arith) refl refl refl refl refl
      rows-IsSendable (tt, (tt, tt))

abbrev env_down : Env
env_down = record env { server_shutdown_notice = true }

-- A request waits, and the client is gone.
abbrev busy : Session
busy = record (opened blank) {
  client_index = 0;
  incoming_messages = packet update ana ∷ [];
  incoming_queue_empty = false;
}

busy-Follows : Follows junk blank tables manager 0 [] [] (packet update ana ∷ []) busy
busy-Follows = record {
  index = refl;
  incoming = refl;
  marked = refl;
  notice = refl;
  replies = refl;
}

connects-EndsWith_example :
    EndsWith junk blank tables manager 0 []
      (packet update ana ∷ [])
      (connects env_down (Recv.closed ∷ []) ∷ connects env_down [] ∷ ending env_down)
      (life (world tables manager busy) serving waiting checking)
connects-EndsWith_example =
    connects-EndsWith junk blank env_down (Recv.closed ∷ []) tables manager 0 []
      (record { done = []; todo = packet update ana ∷ []; place = waiting }) checking busy refl
      tables-IsValid manager-IsValid (omega arith) (omega arith) (ana-IsUpdate, tt) (omega arith)
      busy-Follows

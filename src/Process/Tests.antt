-- ===== src/Process/Tests.antt =====
-- Runs of the server's process at concrete inputs.
use sisop2_tf.Base.{◌≡◌, some, none, refl, true, false, List, [], ◌∷◌, str_eq, arith, Returns}
use sisop2_tf.Data.{TweetData, minus_one}
use sisop2_tf.Database.State.{at_rest}
use sisop2_tf.Database.Users.{find_user}
use sisop2_tf.Database.Follow.{contains}
use sisop2_tf.Database.Tests.{bob, tables, tables-IsValid, manager, manager-IsValid}
use sisop2_tf.Database.Service.{view}
use sisop2_tf.Database.Service.Runs.{follow, post, fetch, AreAllowed, IsReady}
use sisop2_tf.Files.Load.{Junk}
use sisop2_tf.Message.{Message, ack, update}
use sisop2_tf.Process.Restart.{Restores, restart, restart-Restores}
use sisop2_tf.Process.Accepting.{Round, Accepting, accept_rounds, accept_rounds-reported}
use sisop2_tf.Process.{Turn, main_loop, requests_of, Saves, main_loop-Saves}

abbrev written : TweetData
written = record {
  author_id = 0;
  tweet_id = 0;
  timestamp = 9;
  payload = 104 ∷ 105 ∷ 0 ∷ [];
  num_recipients_remaining = 0;
}

-- Two turns, and one that is not made since something is typed in the second.
abbrev turns : List Turn
turns =
    record { requests = post 0 written ∷ follow bob 0 12 ∷ []; is_typed = false }
    ∷ record { requests = fetch 1 ∷ []; is_typed = true }
    ∷ record { requests = fetch 2 ∷ []; is_typed = false }
    ∷ []

requests-AreAllowed : AreAllowed (view tables manager) (requests_of turns)
unfolding contains find_user str_eq
requests-AreAllowed = (omega arith, ((omega arith, refl), ((omega arith, omega arith), tt)))

ready : IsReady (at_rest tables manager)
ready = record { tables_valid = tables-IsValid; manager_valid = manager-IsValid; free = refl }

main_loop-Saves_example :
    Returns
      (main_loop turns (at_rest tables manager))
      (Saves (at_rest tables manager) (requests_of turns))
main_loop-Saves_example =
    main_loop-Saves (at_rest tables manager) turns ready requests-AreAllowed (omega arith)

abbrev junk : Junk
junk = record {
  user_id = 8;
  number = 8;
  tweet = written;
  pending = record { user_author = 8; tweet_id = 8 };
}

restart-Restores_example :
    Returns (restart 5 junk manager (at_rest tables manager)) (λ _ s. Restores junk tables s)
restart-Restores_example =
    restart-Restores 5 junk tables manager manager tables-IsValid (omega arith)
      (
        ((refl, omega arith), omega arith),
        (((refl, omega arith), omega arith), (((refl, omega arith), omega arith), tt)),
      )
      (omega arith) ((omega arith, (omega arith, tt)), ((omega arith, tt), ((omega arith, tt), tt)))

-- Three rounds, of which the second reports nothing and the third finds the notice.
abbrev first_round : Round
first_round = record { is_reported = true; accept = some 4; server_shutdown_notice = false }

abbrev later_rounds : List Round
later_rounds =
    record { is_reported = false; accept = some 5; server_shutdown_notice = false }
    ∷ record { is_reported = true; accept = none; server_shutdown_notice = true }
    ∷ record { is_reported = true; accept = some 6; server_shutdown_notice = false }
    ∷ []

abbrev no_threads : Accepting
no_threads = record { newsockfd = 0; client_connections = [] }

accept_rounds-reported_example :
    (accept_rounds first_round later_rounds no_threads).client_connections ≡ 4 ∷ minus_one ∷ []
accept_rounds-reported_example = accept_rounds-reported first_round later_rounds no_threads

abbrev blank : Message
blank = record { type = ack; timestamp = 0; author = 0 ∷ 0 ∷ []; payload = 0 ∷ 0 ∷ [] }

abbrev request : Message
request = record blank { type = update; payload = b'h' ∷ 0 ∷ [] }

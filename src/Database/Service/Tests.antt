-- ===== src/Database/Service/Tests.antt =====
-- A run of queries at concrete inputs, against the service.
use sisop2_tf.Base.{refl, List, [], ◌∷◌, str_eq, arith, Returns}
use sisop2_tf.Data.{TweetData}
use sisop2_tf.Database.State.{at_rest}
use sisop2_tf.Database.Users.{find_user}
use sisop2_tf.Database.Follow.{contains}
use sisop2_tf.Database.Tests.{bob, tables, tables-IsValid, manager, manager-IsValid}
use sisop2_tf.Database.Service.{view}
use sisop2_tf.Database.Service.Runs.{
  Request, follow, post, fetch, perform_all, AreAllowed, IsReady, ServesAll, perform_all-ServesAll,
}

abbrev written : TweetData
written = record {
  author_id = 0;
  tweet_id = 0;
  timestamp = 9;
  payload = 104 ∷ 105 ∷ 0 ∷ [];
  num_recipients_remaining = 0;
}

-- The first user's tweet reaches both sessions of the second; then the first user follows back.
abbrev requests : List Request
requests = post 0 written ∷ fetch 1 ∷ fetch 1 ∷ follow bob 0 12 ∷ post 1 written ∷ fetch 0 ∷ []

requests-AreAllowed : AreAllowed (view tables manager) requests
unfolding contains find_user str_eq
requests-AreAllowed = (
  omega arith,
  (
    (omega arith, omega arith),
    (
      (omega arith, omega arith),
      ((omega arith, refl), (omega arith, ((omega arith, omega arith), tt))),
    ),
  ),
)

ready : IsReady (at_rest tables manager)
ready = record { tables_valid = tables-IsValid; manager_valid = manager-IsValid; free = refl }

perform_all-ServesAll_example :
    Returns
      (perform_all requests (at_rest tables manager))
      (ServesAll (view tables manager) 4 requests)
perform_all-ServesAll_example =
    perform_all-ServesAll (at_rest tables manager) requests ready requests-AreAllowed (omega arith)

-- ===== src/Connections/Tests.antt =====
-- The connection manager at concrete inputs: user 3 has two sessions and user 5 has one.
use sisop2_tf.Base.{◌≡◌, refl, true, false, [], ◌∷◌, arith, ◌>>=◌, Returns, ok}
use sisop2_tf.Data.{TweetData}
use sisop2_tf.Connections.{
  ConnectionManager, register_connection, register_duplicate_tweet, find_index,
  does_client_have_two_connections, does_client_have_duplicate_tweets,
}
use sisop2_tf.Connections.Limit.{at_rest, IsValid, Registers, register_connection-Registers}

abbrev tweet : TweetData
tweet = record {
  author_id = 1;
  tweet_id = 4;
  timestamp = 9;
  payload = 104 ∷ 105 ∷ 0 ∷ [];
  num_recipients_remaining = 1;
}

abbrev manager : ConnectionManager
manager =
    at_rest
      (record { user_id = 3; num_connections = 2 }
        ∷ record { user_id = 5; num_connections = 1 }
        ∷ [])
      ([] ∷ [] ∷ [])

manager-IsValid : IsValid manager
manager-IsValid = record { free = refl; tracked = ground arith; paired = refl }

fifth_session : does_client_have_two_connections 5 manager ≡ ok false manager
unfolding does_client_have_two_connections find_index
fifth_session = refl

keep_and_ask :
    (register_duplicate_tweet 5 tweet >>= λ _. does_client_have_duplicate_tweets 5) manager
    ≡ ok true (at_rest manager.list_of_connected_users ([] ∷ (tweet ∷ []) ∷ []))
unfolding register_duplicate_tweet does_client_have_duplicate_tweets find_index
keep_and_ask = refl

register_connection-Registers_example :
    Returns (register_connection 5 manager) (Registers 5 manager)
register_connection-Registers_example = register_connection-Registers 5 manager manager-IsValid

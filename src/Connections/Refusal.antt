-- ===== src/Connections/Refusal.antt =====
-- Pairs of `registerConnection` and `closeConnection` (src/main_server.cpp), as the handler of one
-- connection makes them.
use sisop2_tf.Base.{
  ℕ, ◌≡◌, ◌≢◌, ◌<◌, refl, true, List, [], arith, ◌>>=◌, Returns, Returns->>=, Returns-weaken, suc,
  fault, Bool, ap,
}
use sisop2_tf.Data.{TweetData}
use sisop2_tf.Connections.{ConnectionManager, register_connection, close_connection}
use sisop2_tf.Connections.Count.{count}
use sisop2_tf.Connections.Limit.{
  at_rest, Registers, Closes, IsValid, sessions, register_connection-Registers,
  close_connection-Closes,
}

pub users_ne_nil :
    (id : ℕ) (s : ConnectionManager) → 0 < sessions s id → s.list_of_connected_users ≢ []
users_ne_nil id s h e = omega (arith, ap (count id) e)

abbrev pub Settled : ConnectionManager → Bool → ConnectionManager → Type 0
Settled s closed t = IsValid t × (closed ≡ true) × ((j : ℕ) → sessions t j ≡ sessions s j)

-- Registering a session of a user with fewer than two and closing it again returns, and leaves
-- every user with the number of sessions of before.
pub register-close :
    (id : ℕ) (s : ConnectionManager)
    → IsValid s
    → sessions s id < 2
    → Returns ((register_connection id >>= λ _. close_connection id) s) (Settled s)
register-close id s v room =
    Returns->>= (Registers id s) (Settled s) (λ _. close_connection id) (register_connection id) s
      (register_connection-Registers id s v)
      λ accepted t (valid, answer, raised).
        let taken : sessions t id ≡ suc (sessions s id) = ground (arith, raised id, answer) in
        Returns-weaken (Closes id t) (Settled s) (close_connection id t)
          (close_connection-Closes id t valid (users_ne_nil id t (omega (arith, taken))))
          λ closed u (valid', answer', lowered). (
            valid',
            ground (arith, answer', taken),
            λ j. ground (arith, lowered j, raised j, answer),
          )

abbrev pub Deprived : ℕ → ConnectionManager → Bool → ConnectionManager → Type 0
Deprived id s closed t = IsValid t × (sessions s id ≡ 2) × (sessions t id ≡ 1)

-- For a user with two sessions in a valid manager, `registerConnection` and then `closeConnection`
-- return, and leave the manager valid with one session counted for the user.
pub register-close_full :
    (id : ℕ) (s : ConnectionManager)
    → IsValid s
    → sessions s id ≡ 2
    → Returns ((register_connection id >>= λ _. close_connection id) s) (Deprived id s)
register-close_full id s v full =
    Returns->>= (Registers id s) (Deprived id s) (λ _. close_connection id) (register_connection id)
      s (register_connection-Registers id s v)
      λ accepted t (valid, answer, raised).
        let same : sessions t id ≡ 2 = ground (arith, raised id, answer) in
        Returns-weaken (Closes id t) (Deprived id s) (close_connection id t)
          (close_connection-Closes id t valid (users_ne_nil id t (omega (arith, same))))
          λ closed u (valid', answer', lowered). (valid', full, ground (arith, lowered id, same))

-- With nobody connected, `closeConnection` on a free semaphore reads past the end of the list.
pub close_connection-nobody :
    (id : ℕ) (ds : List (List TweetData)) → close_connection id (at_rest [] ds) ≡ fault
unfolding close_connection
close_connection-nobody id ds = refl

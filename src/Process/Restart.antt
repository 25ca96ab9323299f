-- ===== src/Process/Restart.antt =====
-- What a restart of the server brings back: `saveDatabase` by one process and `loadDatabase` by the next
-- (src/main_server.cpp).
use sisop2_tf.Base.{
  ℕ, ◌+◌, ◌≤◌, ◌<◌, ◌≡◌, refl, ap, [], ◌∷◌, ◌++◌, arith, length, length-append, All, Returns, pure,
  ◌>>=◌,
}
use sisop2_tf.Connections.{ConnectionManager}
use sisop2_tf.Database.State.{Action, Server, Tables, at_rest, free_locks}
use sisop2_tf.Database.Tables.{IsValid}
use sisop2_tf.Files.Save.{FileSet, save_database}
use sisop2_tf.Stream.{int_max}
use sisop2_tf.Files.Load.{Junk, load_database}
use sisop2_tf.Files.Lists.{RowFits, load-save_list_of_followers}
use sisop2_tf.Files.Users.{IsWritable, ghost, load-save_list_of_users}

-- The tables of a process that has just begun.
abbrev pub no_tables : Tables
no_tables = record {
  list_of_users = [];
  list_of_followers = [];
  list_of_received_tweets = [];
  list_of_pending_tweets = [];
  num_tweets = 0;
}

-- The end of one process and the start of the next, which has connections of its own.
unfoldable pub restart : ℕ → Junk → ConnectionManager → Action FileSet
restart fuel junk c = save_database >>= λ files s.
    (load_database fuel junk files >>= λ b. pure files) (at_rest no_tables c)

-- What is back: the followers, and the users with one more at the end, who has no followers' list; tweet
-- numbers begin again.
pub record Restores (junk : Junk) (t : Tables) (s : Server) : Type 0 where
  pub users_back : s.tables.list_of_users ≡ t.list_of_users ++ ghost junk ∷ []
  pub followers_back : s.tables.list_of_followers ≡ t.list_of_followers
  pub unpaired : length s.tables.list_of_users ≡ length s.tables.list_of_followers + 1
  pub numbers_lost : s.tables.num_tweets ≡ 0
  pub free : s.locks ≡ free_locks

-- After a restart from a state at rest with valid tables, when each user can be written, and no list of
-- followers and no id in one is larger than an `int` counts, the load returns with fuel for two rounds
-- more than there are users: the lists of followers are as they were, the users too but for one more
-- without a name, so that there is one user more than there are lists of followers, and tweet numbers
-- begin at 0 again.
pub restart-Restores :
    (fuel : ℕ) (junk : Junk) (t : Tables) (c c' : ConnectionManager)
    → IsValid t
    → length t.list_of_users + 1 < fuel
    → All IsWritable t.list_of_users
    → length t.list_of_followers ≤ int_max
    → All RowFits t.list_of_followers
    → Returns (restart fuel junk c' (at_rest t c)) (λ _ s. Restores junk t s)
unfolding restart save_database load_database
restart-Restores fuel junk t c c' v enough writable few fits =
    rw (load-save_list_of_users fuel junk t.list_of_users enough writable) (record {
      users_back = refl;
      followers_back =
          ap (λ r. r.0) (load-save_list_of_followers junk t.list_of_followers few fits);
      unpaired = omega (
        arith,
        length-append t.list_of_users (ghost junk ∷ []),
        v.followers_paired,
        ap (λ r. length r.0) (load-save_list_of_followers junk t.list_of_followers few fits),
      );
      numbers_lost = refl;
      free = refl;
    })

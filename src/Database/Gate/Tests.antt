-- ===== src/Database/Gate/Tests.antt =====
-- Runs of the gate of `databaseManager` (src/main_server.cpp), for the theorems' hypotheses.
use sisop2_tf.Base.{tally, ◌≡◌, refl, ap, [], ◌∷◌, some, get_elem?, arith, false}
use sisop2_tf.Database.Gate.{
  outside, inside, uncounted, leaked, save_trying, saving, try_in, lock_count, count_first,
  take_database, unlock_count, let_next, lock_again, uncount_last, free_database, give_up, try_save,
  take_alone, System, query, save, Reach, here, next, start,
}
use sisop2_tf.Database.Gate.Tallies.{is_leaked, is_using}
use sisop2_tf.Database.Gate.Safety.{saving-alone, leaked-blocks}
use sisop2_tf.Database.Gate.Progress.{IsGoing, gate-IsGoing}

-- Thread 1 is in a query.
abbrev in_query : System
in_query = record {
  gate = record { query_try = 1; query_cnt_sem = 1; db_access_sem = 0; query_cnt = 1 };
  threads = outside ∷ inside ∷ [];
}

in_query-Reach : Reach (start 2) in_query
in_query-Reach =
    next
      (next
        (next
          (next (next (next here (query 1 refl (try_in refl))) (query 1 refl (lock_count refl)))
            (query 1 refl (count_first refl)))
          (query 1 refl (take_database refl)))
        (query 1 refl unlock_count))
      (query 1 refl let_next)

-- Thread 0 saves, and thread 1 has given the database back and not yet `query_cnt_sem`.
abbrev one_saves : System
one_saves = record {
  gate = record { query_try = 0; query_cnt_sem = 0; db_access_sem = 0; query_cnt = 0 };
  threads = saving ∷ uncounted ∷ [];
}

one_saves-Reach : Reach (start 2) one_saves
one_saves-Reach =
    next
      (next
        (next
          (next (next in_query-Reach (query 1 refl (lock_again refl)))
            (query 1 refl (uncount_last refl)))
          (query 1 refl free_database))
        (save 0 refl (try_save refl)))
      (save 0 refl (take_alone refl))

-- Thread 1 returned without leaving, and thread 0 waits to save.
abbrev stuck : System
stuck = record {
  gate = record { query_try = 0; query_cnt_sem = 1; db_access_sem = 0; query_cnt = 1 };
  threads = save_trying ∷ leaked ∷ [];
}

stuck-Reach : Reach (start 2) stuck
stuck-Reach = next (next in_query-Reach (query 1 refl give_up)) (save 0 refl (try_save refl))

saving-alone_example : is_using uncounted ≡ false
saving-alone_example = saving-alone 2 0 1 one_saves-Reach refl refl (omega arith)

leaked-blocks_example :
    (get_elem? stuck.threads 0 ≡ some save_trying)
    × (stuck.gate.query_try ≡ 0)
    × (stuck.gate.db_access_sem ≡ 0)
leaked-blocks_example = leaked-blocks 2 1 0 stuck-Reach refl refl here

none_leaked : tally is_leaked one_saves.threads ≡ 0
unfolding tally
none_leaked = refl

gate-IsGoing_example : IsGoing one_saves
gate-IsGoing_example =
    gate-IsGoing 2 1 uncounted one_saves-Reach none_leaked refl
      (λ e. ground (arith, ap is_using e, e))

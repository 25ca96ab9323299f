-- ===== src/Database/Sections/Tests.antt =====
-- Runs at the list of pending tweets (src/main_server.cpp), for the theorems' hypotheses.
use sisop2_tf.Base.{ℕ, suc, ◌≡◌, ◌≢◌, refl, ap, [], ◌∷◌, arith, false}
use sisop2_tf.Database.Sections.{
  away, reading, writing, try_read, lock_readers, count_first_reader, count_reader,
  shut_out_writers, unlock_readers, let_next, lock_writers, count_first_writer, shut_out_readers,
  unlock_writers, take_list, System, read, write, Reach, here, next, start,
}
use sisop2_tf.Database.Sections.Holders.{has_try}
use sisop2_tf.Database.Sections.Progress.{IsGoing, section-IsGoing}
use sisop2_tf.Database.Sections.Safety.{is_using, writing-alone, past-shuts_out}

-- Thread 0 writes.
abbrev one_writes : System
one_writes = record {
  section = record { read_try = 0; rw_sem = 0; r_mutex = 1; w_mutex = 1; r_cnt = 0; w_cnt = 1 };
  threads = writing ∷ away ∷ [];
}

one_writes-Reach : Reach (start 2) one_writes
one_writes-Reach =
    next
      (next
        (next
          (next (next here (write 0 refl (lock_writers refl)))
            (write 0 refl (count_first_writer refl)))
          (write 0 refl (shut_out_readers refl)))
        (write 0 refl unlock_writers))
      (write 0 refl (take_list refl))

writing-alone_example : is_using away ≡ false
writing-alone_example = writing-alone 2 0 1 one_writes-Reach refl refl (omega arith)

past-shuts_out_example : (one_writes.section.read_try ≡ 0) × (has_try away ≡ false)
past-shuts_out_example = past-shuts_out 2 0 1 one_writes-Reach refl refl refl

one_reader : (n : ℕ) → suc n ≢ 0
one_reader n = omega arith

-- Two readers are at the list together, where `_retrievePendingTweets` clears it.
abbrev both_read : System
both_read = record {
  section = record { read_try = 1; rw_sem = 0; r_mutex = 1; w_mutex = 1; r_cnt = 2; w_cnt = 0 };
  threads = reading ∷ reading ∷ [];
}

both_read-Reach : Reach (start 2) both_read
both_read-Reach =
    next
      (next
        (next
          (next
            (next
              (next
                (next
                  (next
                    (next
                      (next (next here (read 0 refl (try_read refl)))
                        (read 0 refl (lock_readers refl)))
                      (read 0 refl (count_first_reader refl)))
                    (read 0 refl (shut_out_writers refl)))
                  (read 0 refl unlock_readers))
                (read 0 refl let_next))
              (read 1 refl (try_read refl)))
            (read 1 refl (lock_readers refl)))
          (read 1 refl (count_reader (one_reader 0))))
        (read 1 refl unlock_readers))
      (read 1 refl let_next)

section-IsGoing_example : IsGoing both_read
section-IsGoing_example =
    section-IsGoing 2 1 reading both_read-Reach refl (λ e. ground (arith, ap is_using e, e))

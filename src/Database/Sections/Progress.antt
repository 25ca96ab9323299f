-- ===== src/Database/Sections/Progress.antt =====
-- The readers and writers of the list of pending tweets (src/main_server.cpp) do not deadlock.
use sisop2_tf.Base.{
  ℕ, ◌<◌, ◌≡◌, ◌≢◌, refl, ap, ◌⊎◌, some, arith, get_elem?, Bool, true, false, ◌==◌, Bool-cases, inl,
  inr, tally, tally-at, tally-found,
}
use sisop2_tf.Database.Sections.{
  Section, Phase, away, r_trying, r_locked, r_first, r_counted, r_passing, reading, r_leaving,
  r_last, r_uncounted, w_locked, w_first, w_counted, w_queued, writing, w_done, w_leaving, w_last,
  w_uncounted, ReadMove, lock_readers, count_first_reader, count_reader, shut_out_writers,
  unlock_readers, let_next, lock_again, uncount_last_reader, uncount_reader, let_writers,
  leave_readers, WriteMove, count_first_writer, count_writer, shut_out_readers, unlock_writers,
  take_list, give_list, lock_to_leave, uncount_last_writer, uncount_writer, let_readers,
  leave_writers, System, Reach, start,
}
use sisop2_tf.Database.Sections.Holders.{
  has_try, has_r_mutex, has_w_mutex, is_reader, is_r_first, is_r_last, is_w_first, is_writing,
}
use sisop2_tf.Database.Sections.Invariant.{Inv, tally_of, Reach-Inv, nested}

-- Some thread is on its way and can step.
abbrev pub IsGoing : System → Type 0
IsGoing s =
    (i : ℕ) × (p : Phase) × (get_elem? s.threads i ≡ some p)
    × (p ≢ away)
    × (((g : Section) × (q : Phase) × ReadMove s.section p g q)
        ⊎ ((g : Section) × (q : Phase) × WriteMove s.section p g q))

abbrev is_away : Phase → Bool
is_away away = true
is_away _ = false

on_its_way : (p : Phase) → is_away p ≡ false → p ≢ away
on_its_way p e same = ground (arith, e, ap is_away same)

module _ (s : System) (inv : Inv s.section (tally_of s.threads)) where
  reads_on :
      (i : ℕ) (p q : Phase) {g : Section}
      → get_elem? s.threads i ≡ some p
      → is_away p ≡ false
      → ReadMove s.section p g q
      → IsGoing s
  reads_on i p q at o move = (i, p, at, on_its_way p o, inl (_, q, move))

  writes_on :
      (i : ℕ) (p q : Phase) {g : Section}
      → get_elem? s.threads i ≡ some p
      → is_away p ≡ false
      → WriteMove s.section p g q
      → IsGoing s
  writes_on i p q at o move = (i, p, at, on_its_way p o, inr (_, q, move))

  -- A writer at the list can give it back.
  writing_goes : 0 < tally is_writing s.threads → IsGoing s
  writing_goes h = let (i, p, at, w) = tally-found is_writing s.threads h in by_phase i p at w
    where
      by_phase :
          (i : ℕ) (p : Phase) → get_elem? s.threads i ≡ some p → is_writing p ≡ true → IsGoing s
      by_phase i writing at w = writes_on i writing w_done at refl give_list
      by_phase i _ at w = absurd (ground (arith, w))

  -- The first reader takes the list, or a writer is at it.
  first_reader_goes : (i : ℕ) → get_elem? s.threads i ≡ some r_first → IsGoing s
  first_reader_goes i at = elim (Bool-cases (s.section.rw_sem == 0)) [
    | inl taken ↦
        writing_goes (
          ground (arith, inv, taken, (nested s.threads).0, tally-at is_r_first s.threads i at refl))
    | inr free ↦ reads_on i r_first r_counted at refl (
        shut_out_writers {n = 0} (
          ground (arith, inv, free, (nested s.threads).0, tally-at is_r_first s.threads i at refl)))
  ]

  -- The holder of the readers' mutex can go on, or waits for a writer that can.
  r_holder_goes :
      (i : ℕ) (p : Phase) → get_elem? s.threads i ≡ some p → has_r_mutex p ≡ true → IsGoing s
  r_holder_goes i r_locked at h = elim (Bool-cases (s.section.r_cnt == 0)) [
    | inl none_in ↦
        reads_on i r_locked r_first at refl (count_first_reader (ground (arith, none_in)))
    | inr others ↦ reads_on i r_locked r_counted at refl (count_reader (ground (arith, others)))
  ]
  r_holder_goes i r_first at h = first_reader_goes i at
  r_holder_goes i r_counted at h = reads_on i r_counted r_passing at refl unlock_readers
  r_holder_goes i r_leaving at h = elim (Bool-cases (s.section.r_cnt == 1)) [
    | inl alone ↦ reads_on i r_leaving r_last at refl (uncount_last_reader (ground (arith, alone)))
    | inr others ↦
        reads_on i r_leaving r_uncounted at refl (uncount_reader (ground (arith, others)))
  ]
  r_holder_goes i r_last at h = reads_on i r_last r_uncounted at refl let_writers
  r_holder_goes i r_uncounted at h = reads_on i r_uncounted away at refl leave_readers
  r_holder_goes i _ at h = absurd (ground (arith, h))

  -- That mutex is free, or its holder can go on.
  r_free_or : (s.section.r_mutex ≡ 1 → IsGoing s) → IsGoing s
  r_free_or go_on = elim (Bool-cases (s.section.r_mutex == 1)) [
    | inl free ↦ go_on (ground (arith, free))
    | inr taken ↦
        let (i, p, at, h) = tally-found has_r_mutex s.threads (ground (arith, inv, taken)) in
        r_holder_goes i p at h
  ]

  -- A reader with `LOPT_readTry` or counted can go on, or waits for a thread that can.
  try_goes : (i : ℕ) (p : Phase) → get_elem? s.threads i ≡ some p → has_try p ≡ true → IsGoing s
  try_goes i r_trying at h =
      r_free_or (λ free. reads_on i r_trying r_locked at refl (lock_readers {n = 0} free))
  try_goes i r_locked at h = r_holder_goes i r_locked at refl
  try_goes i r_first at h = first_reader_goes i at
  try_goes i r_counted at h = r_holder_goes i r_counted at refl
  try_goes i r_passing at h = reads_on i r_passing reading at refl let_next
  try_goes i _ at h = absurd (ground (arith, h))

  reader_goes :
      (i : ℕ) (p : Phase) → get_elem? s.threads i ≡ some p → is_reader p ≡ true → IsGoing s
  reader_goes i r_first at h = first_reader_goes i at
  reader_goes i r_counted at h = r_holder_goes i r_counted at refl
  reader_goes i r_passing at h = try_goes i r_passing at refl
  reader_goes i reading at h =
      r_free_or (λ free. reads_on i reading r_leaving at refl (lock_again {n = 0} free))
  reader_goes i r_leaving at h = r_holder_goes i r_leaving at refl
  reader_goes i _ at h = absurd (ground (arith, h))

  -- The first writer takes `LOPT_readTry`, or a reader has it.
  first_writer_goes : (i : ℕ) → get_elem? s.threads i ≡ some w_first → IsGoing s
  first_writer_goes i at = elim (Bool-cases (s.section.read_try == 0)) [
    | inl taken ↦
        let (j, p, at', h) = tally-found has_try s.threads (
          ground
            (arith, inv, taken, (nested s.threads).1, tally-at is_w_first s.threads i at refl)) in
        try_goes j p at' h
    | inr free ↦ writes_on i w_first w_counted at refl (
        shut_out_readers {n = 0} (
          ground (arith, inv, free, (nested s.threads).1, tally-at is_w_first s.threads i at refl)))
  ]

  -- The holder of the writers' mutex can go on, or waits for a reader that can.
  w_holder_goes :
      (i : ℕ) (p : Phase) → get_elem? s.threads i ≡ some p → has_w_mutex p ≡ true → IsGoing s
  w_holder_goes i w_locked at h = elim (Bool-cases (s.section.w_cnt == 0)) [
    | inl none_in ↦
        writes_on i w_locked w_first at refl (count_first_writer (ground (arith, none_in)))
    | inr others ↦ writes_on i w_locked w_counted at refl (count_writer (ground (arith, others)))
  ]
  w_holder_goes i w_first at h = first_writer_goes i at
  w_holder_goes i w_counted at h = writes_on i w_counted w_queued at refl unlock_writers
  w_holder_goes i w_leaving at h = elim (Bool-cases (s.section.w_cnt == 1)) [
    | inl alone ↦ writes_on i w_leaving w_last at refl (uncount_last_writer (ground (arith, alone)))
    | inr others ↦
        writes_on i w_leaving w_uncounted at refl (uncount_writer (ground (arith, others)))
  ]
  w_holder_goes i w_last at h = writes_on i w_last w_uncounted at refl let_readers
  w_holder_goes i w_uncounted at h = writes_on i w_uncounted away at refl leave_writers
  w_holder_goes i _ at h = absurd (ground (arith, h))

  w_free_or : (s.section.w_mutex ≡ 1 → IsGoing s) → IsGoing s
  w_free_or go_on = elim (Bool-cases (s.section.w_mutex == 1)) [
    | inl free ↦ go_on (ground (arith, free))
    | inr taken ↦
        let (i, p, at, h) = tally-found has_w_mutex s.threads (ground (arith, inv, taken)) in
        w_holder_goes i p at h
  ]

  -- A writer that is queued takes the list, or waits for a thread that can go on.
  queued_goes : (i : ℕ) → get_elem? s.threads i ≡ some w_queued → IsGoing s
  queued_goes i at = elim (Bool-cases (s.section.rw_sem == 0)) [
    | inl taken ↦ elim (Bool-cases (tally is_writing s.threads == 0)) [
      | inl nobody ↦ elim (Bool-cases (s.section.r_cnt == 0)) [
        | inl none_in ↦
            let (j, p, at', h) =
              tally-found is_r_last s.threads (ground (arith, inv, taken, nobody, none_in)) in
            last_goes j p at' h
        | inr some_in ↦
            let (j, p, at', h) = tally-found is_reader s.threads (ground (arith, inv, some_in)) in
            reader_goes j p at' h
      ]
      | inr some_writes ↦ writing_goes (ground (arith, some_writes))
    ]
    | inr free ↦
        writes_on i w_queued writing at refl
          (take_list {n = 0} (ground (arith, inv, free, (nested s.threads).0)))
  ]
    where
      last_goes :
          (j : ℕ) (p : Phase) → get_elem? s.threads j ≡ some p → is_r_last p ≡ true → IsGoing s
      last_goes j r_last at' h = r_holder_goes j r_last at' refl
      last_goes j _ at' h = absurd (ground (arith, h))

-- In every state that any number of readers and writers of the list of pending tweets can reach from the
-- start, if some thread is on its way to the list, at it, or on its way out, then one such thread can take
-- its next step: the semaphores and mutexes never leave them all waiting for each other.
pub section-IsGoing :
    (k : ℕ) {s : System} (i : ℕ) (p : Phase)
    → Reach (start k) s
    → get_elem? s.threads i ≡ some p
    → p ≢ away
    → IsGoing s
section-IsGoing k {s} i away r at ne = absurd (ne refl)
section-IsGoing k {s} i r_trying r at ne = try_goes s (Reach-Inv k r) i r_trying at refl
section-IsGoing k {s} i r_passing r at ne = try_goes s (Reach-Inv k r) i r_passing at refl
section-IsGoing k {s} i reading r at ne = reader_goes s (Reach-Inv k r) i reading at refl
section-IsGoing k {s} i w_queued r at ne = queued_goes s (Reach-Inv k r) i at
section-IsGoing k {s} i writing r at ne =
    writing_goes s (Reach-Inv k r) (tally-at is_writing s.threads i at refl)
section-IsGoing k {s} i w_done r at ne =
    w_free_or s (Reach-Inv k r)
      (λ free. writes_on s (Reach-Inv k r) i w_done w_leaving at refl (lock_to_leave {n = 0} free))
section-IsGoing k {s} i r_locked r at ne = r_holder_goes s (Reach-Inv k r) i r_locked at refl
section-IsGoing k {s} i r_first r at ne = r_holder_goes s (Reach-Inv k r) i r_first at refl
section-IsGoing k {s} i r_counted r at ne = r_holder_goes s (Reach-Inv k r) i r_counted at refl
section-IsGoing k {s} i r_leaving r at ne = r_holder_goes s (Reach-Inv k r) i r_leaving at refl
section-IsGoing k {s} i r_last r at ne = r_holder_goes s (Reach-Inv k r) i r_last at refl
section-IsGoing k {s} i r_uncounted r at ne = r_holder_goes s (Reach-Inv k r) i r_uncounted at refl
section-IsGoing k {s} i p r at ne = w_holder_goes s (Reach-Inv k r) i p at refl

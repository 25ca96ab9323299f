-- ===== src/Database/Gate/Progress.antt =====
-- The gate of `databaseManager` (src/main_server.cpp) does not deadlock.
use sisop2_tf.Base.{
  tally, tally-at, tally-found, ℕ, ◌<◌, ◌≡◌, ◌≢◌, refl, ap, ◌⊎◌, List, some, arith, get_elem?, Bool,
  true, false, ◌==◌, Bool-cases, inl, inr,
}
use sisop2_tf.Database.Gate.{
  Gate, Phase, outside, trying, counting, first, counted, passing, inside, leaving, last, uncounted,
  leaked, save_trying, saving, saved, QueryMove, lock_count, count_first, count_other,
  take_database, unlock_count, let_next, lock_again, uncount_last, uncount_other, free_database,
  unlock_again, SaveMove, take_alone, free_alone, let_queries, System, Reach, start,
}
use sisop2_tf.Database.Gate.Tallies.{
  tally-has_try, has_count, is_counted, is_first, is_last, is_leaked, is_waiting,
}
use sisop2_tf.Database.Gate.Invariant.{Inv, tally_of, Reach-Inv, nested}

-- Some thread is past the door and can step without giving up.
abbrev pub IsGoing : System → Type 0
IsGoing s =
    (i : ℕ) × (p : Phase) × (get_elem? s.threads i ≡ some p)
    × (p ≢ outside)
    × (((g : Gate) × (q : Phase) × QueryMove s.gate p g q × (q ≢ leaked))
        ⊎ ((g : Gate) × (q : Phase) × SaveMove s.gate p g q))

abbrev is_outside : Phase → Bool
is_outside outside = true
is_outside _ = false

apart : (w : Phase → Bool) (p q : Phase) → w p ≡ false → w q ≡ true → p ≢ q
apart w p q e e' same = ground (arith, e, e', ap w same)

module _ (s : System) (i : ℕ) where
  queries_on :
      (p q : Phase) {g : Gate}
      → get_elem? s.threads i ≡ some p
      → is_outside p ≡ false
      → is_leaked q ≡ false
      → QueryMove s.gate p g q
      → IsGoing s
  queries_on p q at o l move = (
    i,
    p,
    at,
    apart is_outside p outside o refl,
    inl (_, q, move, apart is_leaked q leaked l refl),
  )

  saves_on :
      (p q : Phase) {g : Gate}
      → get_elem? s.threads i ≡ some p
      → is_outside p ≡ false
      → SaveMove s.gate p g q
      → IsGoing s
  saves_on p q at o move = (i, p, at, apart is_outside p outside o refl, inr (_, q, move))

-- The first query finds the database free.
database_free :
    {g : Gate} (ps : List Phase) → Inv g (tally_of ps) → 0 < tally is_first ps → g.db_access_sem ≡ 1
database_free ps inv f = ground (arith, tally-has_try ps, (nested ps).0, inv, f)

-- The holder of `query_cnt_sem` can go on.
holder_goes :
    (s : System) (i : ℕ) (p : Phase)
    → Inv s.gate (tally_of s.threads)
    → get_elem? s.threads i ≡ some p
    → has_count p ≡ true
    → IsGoing s
holder_goes s i counting inv at h = elim (Bool-cases (s.gate.query_cnt == 0)) [
  | inl zero_now ↦
      queries_on s i counting first at refl refl (count_first (ground (arith, zero_now)))
  | inr others ↦ queries_on s i counting counted at refl refl (count_other (ground (arith, others)))
]
holder_goes s i first inv at h =
    queries_on s i first counted at refl refl
      (take_database {n = 0} (database_free s.threads inv (tally-at is_first s.threads i at refl)))
holder_goes s i counted inv at h = queries_on s i counted passing at refl refl unlock_count
holder_goes s i leaving inv at h = elim (Bool-cases (s.gate.query_cnt == 1)) [
  | inl one_now ↦ queries_on s i leaving last at refl refl (uncount_last (ground (arith, one_now)))
  | inr others ↦
      queries_on s i leaving uncounted at refl refl (uncount_other (ground (arith, others)))
]
holder_goes s i last inv at h = queries_on s i last uncounted at refl refl free_database
holder_goes s i uncounted inv at h = queries_on s i uncounted outside at refl refl unlock_again
holder_goes s i _ inv at h = absurd (ground (arith, h))

-- `query_cnt_sem` is free, or its holder can go on.
count_free_or :
    (s : System)
    → Inv s.gate (tally_of s.threads)
    → (s.gate.query_cnt_sem ≡ 1 → IsGoing s)
    → IsGoing s
count_free_or s inv go_on = elim (Bool-cases (s.gate.query_cnt_sem == 1)) [
  | inl free ↦ go_on (ground (arith, free))
  | inr taken ↦
      let (i, p, at, h) = tally-found has_count s.threads (ground (arith, inv, taken)) in
      holder_goes s i p inv at h
]

-- A counted query can go on, or waits for a thread that can.
counted_goes :
    (s : System) (i : ℕ) (p : Phase)
    → Inv s.gate (tally_of s.threads)
    → get_elem? s.threads i ≡ some p
    → is_counted p ≡ true
    → is_leaked p ≡ false
    → IsGoing s
counted_goes s i first inv at h l = holder_goes s i first inv at refl
counted_goes s i counted inv at h l = holder_goes s i counted inv at refl
counted_goes s i passing inv at h l = queries_on s i passing inside at refl refl let_next
counted_goes s i inside inv at h l =
    count_free_or s inv
      (λ free. queries_on s i inside leaving at refl refl (lock_again {n = 0} free))
counted_goes s i leaving inv at h l = holder_goes s i leaving inv at refl
counted_goes s i leaked inv at h l = absurd (ground (arith, l))
counted_goes s i _ inv at h l = absurd (ground (arith, h))

none_leaked :
    (ps : List Phase) (i : ℕ) {p : Phase}
    → tally is_leaked ps ≡ 0
    → get_elem? ps i ≡ some p
    → is_leaked p ≡ false
none_leaked ps i {p} z at = elim (Bool-cases (is_leaked p)) [
  | inl lost ↦ absurd (ground (arith, z, tally-at is_leaked ps i at lost))
  | inr fine ↦ fine
]

-- A waiting save can go on, or waits for a thread that can.
save_goes :
    (s : System) (i : ℕ)
    → Inv s.gate (tally_of s.threads)
    → tally is_leaked s.threads ≡ 0
    → get_elem? s.threads i ≡ some save_trying
    → IsGoing s
save_goes s i inv z at = elim (Bool-cases (s.gate.db_access_sem == 0)) [
  | inl taken ↦ elim (Bool-cases (s.gate.query_cnt == 0)) [
    | inl all_out ↦
        let (j, p, at', h) =
          tally-found is_last s.threads
            (ground (arith, inv, taken, all_out, tally-has_try s.threads, waits)) in
        last_goes j p at' h
    | inr some_in ↦
        let (j, p, at', h) = tally-found is_counted s.threads (ground (arith, inv, some_in)) in
        counted_goes s j p inv at' h (none_leaked s.threads j z at')
  ]
  | inr free ↦
      saves_on s i save_trying saving at refl
        (take_alone {n = 0} (ground (arith, inv, free, tally-has_try s.threads, waits)))
]
  where
    waits : 0 < tally is_waiting s.threads
    waits = tally-at is_waiting s.threads i at refl

    last_goes : (j : ℕ) (p : Phase) → get_elem? s.threads j ≡ some p → is_last p ≡ true → IsGoing s
    last_goes j last at' h = holder_goes s j last inv at' refl
    last_goes j _ at' h = absurd (ground (arith, h))

-- In every state that any number of threads can reach from the start, if no query has returned without
-- leaving and some thread is queued, in a query or saving, then one such thread can take its next step:
-- the semaphores never leave them all waiting for each other.
pub gate-IsGoing :
    (k : ℕ) {s : System} (i : ℕ) (p : Phase)
    → Reach (start k) s
    → tally is_leaked s.threads ≡ 0
    → get_elem? s.threads i ≡ some p
    → p ≢ outside
    → IsGoing s
gate-IsGoing k {s} i outside r z at ne = absurd (ne refl)
gate-IsGoing k {s} i trying r z at ne =
    count_free_or s (Reach-Inv k r)
      (λ free. queries_on s i trying counting at refl refl (lock_count {n = 0} free))
gate-IsGoing k {s} i uncounted r z at ne =
    queries_on s i uncounted outside at refl refl unlock_again
gate-IsGoing k {s} i last r z at ne = queries_on s i last uncounted at refl refl free_database
gate-IsGoing k {s} i counting r z at ne = holder_goes s i counting (Reach-Inv k r) at refl
gate-IsGoing k {s} i save_trying r z at ne = save_goes s i (Reach-Inv k r) z at
gate-IsGoing k {s} i saving r z at ne = saves_on s i saving saved at refl free_alone
gate-IsGoing k {s} i saved r z at ne = saves_on s i saved outside at refl let_queries
gate-IsGoing k {s} i p r z at ne =
    counted_goes s i p (Reach-Inv k r) at refl (none_leaked s.threads i z at)

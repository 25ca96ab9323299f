-- ===== src/Database/Sections.antt =====
-- The threads at the list of pending tweets (src/main_server.cpp), to which writers come first:
-- `doesClientHavePendingTweets` and `_retrievePendingTweets` are readers, the writers are
-- `_forwardUpdateToFollowers` and `_clearUsersPendingTweets`. Each step of a thread is one `P`, one `V`, one lock or unlock of a
-- mutex, or one change of a count, and the steps of different threads interleave freely.
pub mod Holders
pub mod Invariant
pub mod Safety
pub mod Progress
mod Tests
use sisop2_tf.Base.{ℕ, zero, suc, ◌+◌, ◌-◌, ◌≡◌, ◌≢◌, List, [], ◌∷◌, some, get_elem?, update_at}

-- The semaphores `LOPT_readTry` and `LOPT_rw_sem`, the mutexes `LOPT_r_cnt_mut` and `LOPT_w_cnt_mut`
-- (1 where they are free), and the counts.
pub record Section : Type 0 where
  pub read_try : ℕ
  pub rw_sem : ℕ
  pub r_mutex : ℕ
  pub w_mutex : ℕ
  pub r_cnt : ℕ
  pub w_cnt : ℕ

-- Where a thread stands. A reader: with `read_try`; with the readers' mutex too; counted as the first,
-- before it takes `rw_sem`; counted; without the mutex; at the list; back with the mutex; uncounted as
-- the last, before it gives `rw_sem` back; uncounted. A writer: with the writers' mutex; counted as the
-- first, before it takes `read_try`; counted; without the mutex; at the list; without `rw_sem`; back
-- with the mutex; uncounted as the last, before it gives `read_try` back; uncounted.
pub data Phase : Type 0 where
  away : Phase
  r_trying r_locked r_first r_counted r_passing reading r_leaving r_last r_uncounted : Phase
  w_locked w_first w_counted w_queued writing w_done w_leaving w_last w_uncounted : Phase

pub data ReadMove (g : Section) : Phase → Section → Phase → Type 0 where
  try_read : {n : ℕ} → g.read_try ≡ suc n → ReadMove g away (record g { read_try = n }) r_trying
  lock_readers :
      {n : ℕ} → g.r_mutex ≡ suc n → ReadMove g r_trying (record g { r_mutex = n }) r_locked
  count_first_reader : g.r_cnt ≡ 0 → ReadMove g r_locked (record g { r_cnt = g.r_cnt + 1 }) r_first
  count_reader : g.r_cnt ≢ 0 → ReadMove g r_locked (record g { r_cnt = g.r_cnt + 1 }) r_counted
  shut_out_writers :
      {n : ℕ} → g.rw_sem ≡ suc n → ReadMove g r_first (record g { rw_sem = n }) r_counted
  unlock_readers : ReadMove g r_counted (record g { r_mutex = g.r_mutex + 1 }) r_passing
  let_next : ReadMove g r_passing (record g { read_try = g.read_try + 1 }) reading
  lock_again : {n : ℕ} → g.r_mutex ≡ suc n → ReadMove g reading (record g { r_mutex = n }) r_leaving
  uncount_last_reader : g.r_cnt ≡ 1 → ReadMove g r_leaving (record g { r_cnt = g.r_cnt - 1 }) r_last
  uncount_reader : g.r_cnt ≢ 1 → ReadMove g r_leaving (record g { r_cnt = g.r_cnt - 1 }) r_uncounted
  let_writers : ReadMove g r_last (record g { rw_sem = g.rw_sem + 1 }) r_uncounted
  leave_readers : ReadMove g r_uncounted (record g { r_mutex = g.r_mutex + 1 }) away

pub data WriteMove (g : Section) : Phase → Section → Phase → Type 0 where
  lock_writers : {n : ℕ} → g.w_mutex ≡ suc n → WriteMove g away (record g { w_mutex = n }) w_locked
  count_first_writer : g.w_cnt ≡ 0 → WriteMove g w_locked (record g { w_cnt = g.w_cnt + 1 }) w_first
  count_writer : g.w_cnt ≢ 0 → WriteMove g w_locked (record g { w_cnt = g.w_cnt + 1 }) w_counted
  shut_out_readers :
      {n : ℕ} → g.read_try ≡ suc n → WriteMove g w_first (record g { read_try = n }) w_counted
  unlock_writers : WriteMove g w_counted (record g { w_mutex = g.w_mutex + 1 }) w_queued
  take_list : {n : ℕ} → g.rw_sem ≡ suc n → WriteMove g w_queued (record g { rw_sem = n }) writing
  give_list : WriteMove g writing (record g { rw_sem = g.rw_sem + 1 }) w_done
  lock_to_leave :
      {n : ℕ} → g.w_mutex ≡ suc n → WriteMove g w_done (record g { w_mutex = n }) w_leaving
  uncount_last_writer :
      g.w_cnt ≡ 1 → WriteMove g w_leaving (record g { w_cnt = g.w_cnt - 1 }) w_last
  uncount_writer :
      g.w_cnt ≢ 1 → WriteMove g w_leaving (record g { w_cnt = g.w_cnt - 1 }) w_uncounted
  let_readers : WriteMove g w_last (record g { read_try = g.read_try + 1 }) w_uncounted
  leave_writers : WriteMove g w_uncounted (record g { w_mutex = g.w_mutex + 1 }) away

pub record System : Type 0 where
  pub section : Section
  pub threads : List Phase

abbrev pub moved : System → ℕ → Section → Phase → System
moved s i g p = record { section = g; threads = update_at i (λ _. p) s.threads }

pub data Step (s : System) : System → Type 0 where
  read :
      (i : ℕ) {p q : Phase} {g : Section}
      → get_elem? s.threads i ≡ some p
      → ReadMove s.section p g q
      → Step s (moved s i g q)
  write :
      (i : ℕ) {p q : Phase} {g : Section}
      → get_elem? s.threads i ≡ some p
      → WriteMove s.section p g q
      → Step s (moved s i g q)

pub data Reach (s : System) : System → Type 0 where
  here : Reach s s
  next : {t u : System} → Reach s t → Step t u → Reach s u

abbrev pub all_away : ℕ → List Phase
all_away zero = []
all_away (suc k) = away ∷ all_away k

-- The start, with any number of threads.
abbrev pub start : ℕ → System
start k = record {
  section = record { read_try = 1; rw_sem = 1; r_mutex = 1; w_mutex = 1; r_cnt = 0; w_cnt = 0 };
  threads = all_away k;
}

-- ===== src/Database/Gate.antt =====
-- The threads at the gate of `databaseManager` (src/main_server.cpp): queries come in together, and
-- `saveDatabase` comes in alone. Each step of a thread is one `P`, one `V` or one change of `query_cnt`,
-- and the steps of different threads interleave freely. `loadDatabase` takes the same steps as a save.
pub mod Tallies
pub mod Invariant
pub mod Safety
pub mod Progress
mod Tests
use sisop2_tf.Base.{ℕ, zero, suc, ◌+◌, ◌-◌, ◌≡◌, ◌≢◌, List, [], ◌∷◌, some, get_elem?, update_at}

-- The counts of the semaphores, and the number of queries.
pub record Gate : Type 0 where
  pub query_try : ℕ
  pub query_cnt_sem : ℕ
  pub db_access_sem : ℕ
  pub query_cnt : ℕ

-- Where a thread stands. A query: with `query_try`; with `query_cnt_sem` too; counted as the first,
-- before it takes the database; counted; without `query_cnt_sem`; inside; on its way out with
-- `query_cnt_sem`; uncounted as the last, before it gives the database back; uncounted; returned
-- without leaving. A save: with `query_try`; inside; without the database.
pub data Phase : Type 0 where
  outside : Phase
  trying counting first counted passing inside leaving last uncounted : Phase
  leaked : Phase
  save_trying saving saved : Phase

-- A step of a query. `give_up` is an early return of `postFollow`.
pub data QueryMove (g : Gate) : Phase → Gate → Phase → Type 0 where
  try_in : {n : ℕ} → g.query_try ≡ suc n → QueryMove g outside (record g { query_try = n }) trying
  lock_count :
      {n : ℕ}
      → g.query_cnt_sem ≡ suc n
      → QueryMove g trying (record g { query_cnt_sem = n }) counting
  count_first :
      g.query_cnt ≡ 0 → QueryMove g counting (record g { query_cnt = g.query_cnt + 1 }) first
  count_other :
      g.query_cnt ≢ 0 → QueryMove g counting (record g { query_cnt = g.query_cnt + 1 }) counted
  take_database :
      {n : ℕ} → g.db_access_sem ≡ suc n → QueryMove g first (record g { db_access_sem = n }) counted
  unlock_count : QueryMove g counted (record g { query_cnt_sem = g.query_cnt_sem + 1 }) passing
  let_next : QueryMove g passing (record g { query_try = g.query_try + 1 }) inside
  lock_again :
      {n : ℕ}
      → g.query_cnt_sem ≡ suc n
      → QueryMove g inside (record g { query_cnt_sem = n }) leaving
  uncount_last :
      g.query_cnt ≡ 1 → QueryMove g leaving (record g { query_cnt = g.query_cnt - 1 }) last
  uncount_other :
      g.query_cnt ≢ 1 → QueryMove g leaving (record g { query_cnt = g.query_cnt - 1 }) uncounted
  free_database : QueryMove g last (record g { db_access_sem = g.db_access_sem + 1 }) uncounted
  unlock_again : QueryMove g uncounted (record g { query_cnt_sem = g.query_cnt_sem + 1 }) outside
  give_up : QueryMove g inside g leaked

-- A step of a `saveDatabase`.
pub data SaveMove (g : Gate) : Phase → Gate → Phase → Type 0 where
  try_save :
      {n : ℕ} → g.query_try ≡ suc n → SaveMove g outside (record g { query_try = n }) save_trying
  take_alone :
      {n : ℕ}
      → g.db_access_sem ≡ suc n
      → SaveMove g save_trying (record g { db_access_sem = n }) saving
  free_alone : SaveMove g saving (record g { db_access_sem = g.db_access_sem + 1 }) saved
  let_queries : SaveMove g saved (record g { query_try = g.query_try + 1 }) outside

pub record System : Type 0 where
  pub gate : Gate
  pub threads : List Phase

abbrev pub moved : System → ℕ → Gate → Phase → System
moved s i g p = record { gate = g; threads = update_at i (λ _. p) s.threads }

pub data Step (s : System) : System → Type 0 where
  query :
      (i : ℕ) {p q : Phase} {g : Gate}
      → get_elem? s.threads i ≡ some p
      → QueryMove s.gate p g q
      → Step s (moved s i g q)
  save :
      (i : ℕ) {p q : Phase} {g : Gate}
      → get_elem? s.threads i ≡ some p
      → SaveMove s.gate p g q
      → Step s (moved s i g q)

pub data Reach (s : System) : System → Type 0 where
  here : Reach s s
  next : {t u : System} → Reach s t → Step t u → Reach s u

abbrev pub all_outside : ℕ → List Phase
all_outside zero = []
all_outside (suc k) = outside ∷ all_outside k

-- The start, with any number of threads.
abbrev pub start : ℕ → System
start k = record {
  gate = record { query_try = 1; query_cnt_sem = 1; db_access_sem = 1; query_cnt = 0 };
  threads = all_outside k;
}

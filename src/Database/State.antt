-- ===== src/Database/State.antt =====
-- The state of the server: the tables and the semaphores of `databaseManager` `db_temp`, and the
-- connection manager `cm_temp` (src/main_server.cpp). A mutex that is locked and unlocked in one
-- scope leaves no trace in the state of a thread that runs alone, so there is no field for it.
use sisop2_tf.Base.{
  ◌≡◌, arith, ℕ, ◌+◌, ◌-◌, List, ◌==◌, Program, ok, blocked, fault, ◌>>=◌, ◌>>◌, gets, modify, when,
  acquire, release,
}
use sisop2_tf.Data.{UserType, TweetData, PendingTweet}
use sisop2_tf.Connections.{ConnectionManager}

pub record Tables : Type 0 where
  pub list_of_users : List UserType
  pub list_of_followers : List (List ℕ)
  pub list_of_received_tweets : List (List TweetData)
  pub list_of_pending_tweets : List (List PendingTweet)
  pub num_tweets : ℕ

-- The counts of the semaphores, and the numbers of threads in each section.
pub record Locks : Type 0 where
  pub lou_rw_sem : ℕ
  pub lof_rw_sem : ℕ
  pub lort_rw_sem : ℕ
  pub lopt_rw_sem : ℕ
  pub lopt_read_try : ℕ
  pub query_try : ℕ
  pub db_access_sem : ℕ
  pub tweetnum_sem : ℕ
  pub query_cnt_sem : ℕ
  pub lou_cnt : ℕ
  pub lof_cnt : ℕ
  pub lort_cnt : ℕ
  pub lopt_r_cnt : ℕ
  pub lopt_w_cnt : ℕ
  pub query_cnt : ℕ

pub record Server : Type 0 where
  pub tables : Tables
  pub locks : Locks
  pub connections : ConnectionManager

abbrev pub Action : Type 0 → Type 0
Action A = Program Server A

-- A member of `Locks` with its way to be written.
pub record Lens : Type 0 where
  pub get : Locks → ℕ
  pub put : ℕ → Locks → Locks

abbrev pub lou_rw_sem : Lens
lou_rw_sem = record { get = λ l. l.lou_rw_sem; put = λ n l. record l { lou_rw_sem = n } }

abbrev pub lof_rw_sem : Lens
lof_rw_sem = record { get = λ l. l.lof_rw_sem; put = λ n l. record l { lof_rw_sem = n } }

abbrev pub lort_rw_sem : Lens
lort_rw_sem = record { get = λ l. l.lort_rw_sem; put = λ n l. record l { lort_rw_sem = n } }

abbrev pub lopt_rw_sem : Lens
lopt_rw_sem = record { get = λ l. l.lopt_rw_sem; put = λ n l. record l { lopt_rw_sem = n } }

abbrev pub lopt_read_try : Lens
lopt_read_try = record { get = λ l. l.lopt_read_try; put = λ n l. record l { lopt_read_try = n } }

abbrev pub query_try : Lens
query_try = record { get = λ l. l.query_try; put = λ n l. record l { query_try = n } }

abbrev pub db_access_sem : Lens
db_access_sem = record { get = λ l. l.db_access_sem; put = λ n l. record l { db_access_sem = n } }

abbrev pub tweetnum_sem : Lens
tweetnum_sem = record { get = λ l. l.tweetnum_sem; put = λ n l. record l { tweetnum_sem = n } }

abbrev pub query_cnt_sem : Lens
query_cnt_sem = record { get = λ l. l.query_cnt_sem; put = λ n l. record l { query_cnt_sem = n } }

abbrev pub lou_cnt : Lens
lou_cnt = record { get = λ l. l.lou_cnt; put = λ n l. record l { lou_cnt = n } }

abbrev pub lof_cnt : Lens
lof_cnt = record { get = λ l. l.lof_cnt; put = λ n l. record l { lof_cnt = n } }

abbrev pub lort_cnt : Lens
lort_cnt = record { get = λ l. l.lort_cnt; put = λ n l. record l { lort_cnt = n } }

abbrev pub lopt_r_cnt : Lens
lopt_r_cnt = record { get = λ l. l.lopt_r_cnt; put = λ n l. record l { lopt_r_cnt = n } }

abbrev pub lopt_w_cnt : Lens
lopt_w_cnt = record { get = λ l. l.lopt_w_cnt; put = λ n l. record l { lopt_w_cnt = n } }

abbrev pub query_cnt : Lens
query_cnt = record { get = λ l. l.query_cnt; put = λ n l. record l { query_cnt = n } }

abbrev read : Lens → Server → ℕ
read m s = m.get s.locks

abbrev write : Lens → ℕ → Server → Server
write m n s = record s { locks = m.put n s.locks }

-- `P` and `V` of a `customBinarySemaphore`.
abbrev pub p : Lens → Action (Unit {0})
p m = acquire (read m) (write m)

abbrev pub v : Lens → Action (Unit {0})
v m = release (read m) (write m)

-- `cnt++; if(cnt == 1) sem.P();`
abbrev enter_first : Lens → Lens → Action (Unit {0})
enter_first cnt sem = do
  modify λ s. write cnt (read cnt s + 1) s
  when ((← gets (read cnt)) == 1) (p sem)

-- `cnt--; if(cnt == 0) sem.V();`
abbrev leave_last : Lens → Lens → Action (Unit {0})
leave_last cnt sem = do
  modify λ s. write cnt (read cnt s - 1) s
  when ((← gets (read cnt)) == 0) (v sem)

abbrev pub lou_read_enter : Action (Unit {0})
lou_read_enter = enter_first lou_cnt lou_rw_sem

abbrev pub lou_read_leave : Action (Unit {0})
lou_read_leave = leave_last lou_cnt lou_rw_sem

abbrev pub lof_read_enter : Action (Unit {0})
lof_read_enter = enter_first lof_cnt lof_rw_sem

abbrev pub lof_read_leave : Action (Unit {0})
lof_read_leave = leave_last lof_cnt lof_rw_sem

abbrev pub lort_read_enter : Action (Unit {0})
lort_read_enter = enter_first lort_cnt lort_rw_sem

abbrev pub lort_read_leave : Action (Unit {0})
lort_read_leave = leave_last lort_cnt lort_rw_sem

abbrev pub lopt_read_enter : Action (Unit {0})
lopt_read_enter = do p lopt_read_try; enter_first lopt_r_cnt lopt_rw_sem; v lopt_read_try

abbrev pub lopt_read_leave : Action (Unit {0})
lopt_read_leave = leave_last lopt_r_cnt lopt_rw_sem

abbrev pub lopt_write_enter : Action (Unit {0})
lopt_write_enter = do enter_first lopt_w_cnt lopt_read_try; p lopt_rw_sem

abbrev pub lopt_write_leave : Action (Unit {0})
lopt_write_leave = do v lopt_rw_sem; leave_last lopt_w_cnt lopt_read_try

abbrev pub query_enter : Action (Unit {0})
query_enter = do
  p query_try
  p query_cnt_sem
  enter_first query_cnt db_access_sem
  v query_cnt_sem
  v query_try

abbrev pub query_leave : Action (Unit {0})
query_leave = do p query_cnt_sem; leave_last query_cnt db_access_sem; v query_cnt_sem

-- A call of `cm_temp`.
abbrev pub on_connections : {A : Type 0} → Program ConnectionManager A → Action A
on_connections m s = elim (m s.connections) [
  | ok a c ↦ ok a (record s { connections = c })
  | blocked c ↦ blocked (record s { connections = c })
  | fault ↦ fault
]

abbrev pub change : (Tables → Tables) → Action (Unit {0})
change f = modify λ s. record s { tables = f s.tables }

-- No thread is inside any section.
abbrev pub free_locks : Locks
free_locks = record {
  lou_rw_sem = 1;
  lof_rw_sem = 1;
  lort_rw_sem = 1;
  lopt_rw_sem = 1;
  lopt_read_try = 1;
  query_try = 1;
  db_access_sem = 1;
  tweetnum_sem = 1;
  query_cnt_sem = 1;
  lou_cnt = 0;
  lof_cnt = 0;
  lort_cnt = 0;
  lopt_r_cnt = 0;
  lopt_w_cnt = 0;
  query_cnt = 0;
}

abbrev pub at_rest : Tables → ConnectionManager → Server
at_rest t c = record { tables = t; locks = free_locks; connections = c }

-- A server with free locks is at rest.
pub server_eq :
    (s : Server) (t : Tables) → s.tables ≡ t → s.locks ≡ free_locks → s ≡ at_rest t s.connections
server_eq s t e f = ground (arith, e, f)

-- ===== src/Database/Sections/Invariant.antt =====
-- Who holds what at the list of pending tweets (src/main_server.cpp).
use sisop2_tf.Base.{
  ℕ, zero, suc, ◌+◌, ◌≤◌, ◌<◌, ◌≡◌, refl, sym, List, [], ◌∷◌, some, arith, get_elem?, update_at,
  Bool, false, if◌then◌else◌, ◌==◌, tally, tally-update_at,
}
use sisop2_tf.Database.Sections.{
  Section, Phase, away, ReadMove, try_read, lock_readers, count_first_reader, count_reader,
  shut_out_writers, unlock_readers, let_next, lock_again, uncount_last_reader, uncount_reader,
  let_writers, leave_readers, WriteMove, lock_writers, count_first_writer, count_writer,
  shut_out_readers, unlock_writers, take_list, give_list, lock_to_leave, uncount_last_writer,
  uncount_writer, let_readers, leave_writers, System, Step, read, write, Reach, here, next, start,
  all_away,
}
use sisop2_tf.Database.Sections.Holders.{
  has_try, has_r_mutex, has_w_mutex, is_reader, is_writer, is_r_first, is_r_last, is_w_first,
  is_w_last, is_writing,
}

abbrev pub Tally : Type 0
Tally = (Phase → Bool) → ℕ

abbrev pub tally_of : List Phase → Tally
tally_of ps w = tally w ps

-- `rw_sem` is held by one writer or for all readers together, `read_try` by one reader or for all
-- writers together, and each mutex by one thread; the counts are those of the readers and writers.
pub record Inv (g : Section) (n : Tally) : Type 0 where
  pub one_try :
      g.read_try + n has_try + (if g.w_cnt == 0 then 0 else 1) + n is_w_last ≡ 1 + n is_w_first
  pub one_list :
      g.rw_sem + n is_writing + (if g.r_cnt == 0 then 0 else 1) + n is_r_last ≡ 1 + n is_r_first
  pub one_r_mutex : g.r_mutex + n has_r_mutex ≡ 1
  pub one_w_mutex : g.w_mutex + n has_w_mutex ≡ 1
  pub readers : g.r_cnt ≡ n is_reader
  pub writers : g.w_cnt ≡ n is_writer
  pub first_reader : 0 < n is_r_first → g.r_cnt ≡ 1
  pub last_reader : 0 < n is_r_last → g.r_cnt ≡ 0
  pub first_writer : 0 < n is_w_first → g.w_cnt ≡ 1
  pub last_writer : 0 < n is_w_last → g.w_cnt ≡ 0

abbrev one : Bool → ℕ
one b = if b then 1 else 0

abbrev with_one : Tally → Phase → Tally
with_one rest p w = rest w + one (w p)

-- What the tallies of the other threads satisfy.
abbrev pub AreNested : Tally → Type 0
AreNested n =
    (n is_r_first + n is_r_last ≤ n has_r_mutex) × (n is_w_first + n is_w_last ≤ n has_w_mutex)

ReadMove-Inv :
    {g g' : Section} {p q : Phase} (rest : Tally)
    → ReadMove g p g' q
    → AreNested rest
    → Inv g (with_one rest p)
    → Inv g' (with_one rest q)
ReadMove-Inv rest (try_read e) b inv = ground (arith, e, b.0, b.1)
ReadMove-Inv rest (lock_readers e) b inv = ground (arith, e, b.0, b.1)
ReadMove-Inv rest (count_first_reader e) b inv = ground (arith, e, b.0, b.1)
ReadMove-Inv rest (count_reader e) b inv = ground (arith, e, b.0, b.1)
ReadMove-Inv rest (shut_out_writers e) b inv = ground (arith, e, b.0, b.1)
ReadMove-Inv rest unlock_readers b inv = ground (arith, b.0, b.1)
ReadMove-Inv rest let_next b inv = ground (arith, b.0, b.1)
ReadMove-Inv rest (lock_again e) b inv = ground (arith, e, b.0, b.1)
ReadMove-Inv rest (uncount_last_reader e) b inv = ground (arith, e, b.0, b.1)
ReadMove-Inv rest (uncount_reader e) b inv = ground (arith, e, b.0, b.1)
ReadMove-Inv rest let_writers b inv = ground (arith, b.0, b.1)
ReadMove-Inv rest leave_readers b inv = ground (arith, b.0, b.1)

WriteMove-Inv :
    {g g' : Section} {p q : Phase} (rest : Tally)
    → WriteMove g p g' q
    → AreNested rest
    → Inv g (with_one rest p)
    → Inv g' (with_one rest q)
WriteMove-Inv rest (lock_writers e) b inv = ground (arith, e, b.0, b.1)
WriteMove-Inv rest (count_first_writer e) b inv = ground (arith, e, b.0, b.1)
WriteMove-Inv rest (count_writer e) b inv = ground (arith, e, b.0, b.1)
WriteMove-Inv rest (shut_out_readers e) b inv = ground (arith, e, b.0, b.1)
WriteMove-Inv rest unlock_writers b inv = ground (arith, b.0, b.1)
WriteMove-Inv rest (take_list e) b inv = ground (arith, e, b.0, b.1)
WriteMove-Inv rest give_list b inv = ground (arith, b.0, b.1)
WriteMove-Inv rest (lock_to_leave e) b inv = ground (arith, e, b.0, b.1)
WriteMove-Inv rest (uncount_last_writer e) b inv = ground (arith, e, b.0, b.1)
WriteMove-Inv rest (uncount_writer e) b inv = ground (arith, e, b.0, b.1)
WriteMove-Inv rest let_readers b inv = ground (arith, b.0, b.1)
WriteMove-Inv rest leave_writers b inv = ground (arith, b.0, b.1)

pub nested : (ps : List Phase) → AreNested (tally_of ps)
unfolding tally
nested [] = omega arith
nested (p ∷ ps) = nested_cons p ps (nested ps)
  where
    nested_cons :
        (p : Phase) (ps : List Phase) → AreNested (tally_of ps) → AreNested (tally_of (p ∷ ps))
    nested_cons p ps h = ground (arith, h.0, h.1)

-- `Inv` only looks at tallies that leave out the threads that are away.
Inv-same :
    {g : Section} (m n : Tally)
    → ((w : Phase → Bool) → w away ≡ false → m w ≡ n w)
    → Inv g n
    → Inv g m
Inv-same m n h inv = ground (
  arith,
  h has_try refl,
  h has_r_mutex refl,
  h has_w_mutex refl,
  h is_reader refl,
  h is_writer refl,
  h is_r_first refl,
  h is_r_last refl,
  h is_w_first refl,
  h is_w_last refl,
  h is_writing refl,
)

-- The tallies of the other threads, and of all as these and the one of thread `i`.
abbrev others : List Phase → ℕ → Tally
others ps i = tally_of (update_at i (λ _. away) ps)

module _ (ps : List Phase) (i : ℕ) {p : Phase} (at : get_elem? ps i ≡ some p) where
  before : (w : Phase → Bool) → w away ≡ false → tally w ps ≡ with_one (others ps i) p w
  before w h = ground (arith, tally-update_at w ps i p away at, h)

  after :
      (q : Phase) (w : Phase → Bool)
      → w away ≡ false
      → tally w (update_at i (λ _. q) ps) ≡ with_one (others ps i) q w
  after q w h = ground (arith, before w h, tally-update_at w ps i p q at)

  -- A step of thread `i`, by what it does to its own tally.
  thread-Inv :
      (q : Phase) {g g' : Section}
      → (AreNested (others ps i)
          → Inv g (with_one (others ps i) p)
          → Inv g' (with_one (others ps i) q))
      → Inv g (tally_of ps)
      → Inv g' (tally_of (update_at i (λ _. q) ps))
  thread-Inv q move inv = Inv-same _ (with_one (others ps i) q) (after q) (
      move (nested (update_at i (λ _. away) ps))
        (Inv-same (with_one (others ps i) p) (tally_of ps) (λ w o. sym (before w o)) inv))

Step-Inv :
    {s t : System}
    → Inv s.section (tally_of s.threads)
    → Step s t
    → Inv t.section (tally_of t.threads)
Step-Inv {s} inv (read i {p} {q} at move) =
    thread-Inv s.threads i at q (ReadMove-Inv (others s.threads i) move) inv
Step-Inv {s} inv (write i {p} {q} at move) =
    thread-Inv s.threads i at q (WriteMove-Inv (others s.threads i) move) inv

tally-all_away : (w : Phase → Bool) (k : ℕ) → w away ≡ false → tally w (all_away k) ≡ 0
unfolding tally
tally-all_away w zero o = refl
tally-all_away w (suc k) o = ground (arith, tally-all_away w k o, o)

start-Inv : (k : ℕ) → Inv (start k).section (tally_of (start k).threads)
start-Inv k = Inv-same (tally_of (all_away k)) (λ _. 0) (λ w o. tally-all_away w k o) (ground arith)

pub Reach-Inv : (k : ℕ) {s : System} → Reach (start k) s → Inv s.section (tally_of s.threads)
Reach-Inv k here = start-Inv k
Reach-Inv k (next r step) = Step-Inv (Reach-Inv k r) step

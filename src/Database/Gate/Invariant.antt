-- ===== src/Database/Gate/Invariant.antt =====
-- Who holds what at the gate of `databaseManager` (src/main_server.cpp).
use sisop2_tf.Base.{
  tally, tally-update_at, ℕ, zero, suc, ◌+◌, ◌≤◌, ◌<◌, ◌≡◌, refl, sym, List, [], ◌∷◌, some, arith,
  get_elem?, update_at, Bool, false, if◌then◌else◌, ◌==◌,
}
use sisop2_tf.Database.Gate.{
  Gate, Phase, outside, QueryMove, try_in, lock_count, count_first, count_other, take_database,
  unlock_count, let_next, lock_again, uncount_last, uncount_other, free_database, unlock_again,
  give_up, SaveMove, try_save, take_alone, free_alone, let_queries, System, Step, query, save,
  Reach, here, next, start, all_outside,
}
use sisop2_tf.Database.Gate.Tallies.{has_try, has_count, is_counted, is_first, is_last, is_saving}

abbrev pub Tally : Type 0
Tally = (Phase → Bool) → ℕ

abbrev pub tally_of : List Phase → Tally
tally_of ps w = tally w ps

-- `query_try` and `query_cnt_sem` have at most one holder each, `query_cnt` counts the queries, and the
-- database is taken by a save or for all queries together.
pub record Inv (g : Gate) (n : Tally) : Type 0 where
  pub one_try : g.query_try + n has_try ≡ 1
  pub one_count : g.query_cnt_sem + n has_count ≡ 1
  pub queries : g.query_cnt ≡ n is_counted
  pub database :
      g.db_access_sem + n is_saving + (if g.query_cnt == 0 then 0 else 1) + n is_last
      ≡ 1 + n is_first
  pub first_alone : 0 < n is_first → g.query_cnt ≡ 1
  pub none_left : 0 < n is_last → g.query_cnt ≡ 0

abbrev pub one : Bool → ℕ
one b = if b then 1 else 0

abbrev pub with_one : Tally → Phase → Tally
with_one rest p w = rest w + one (w p)

-- What the tallies of the other threads satisfy.
abbrev pub AreNested : Tally → Type 0
AreNested n = (n is_first + n is_last ≤ n has_count) × (n is_first + n is_saving ≤ n has_try)

QueryMove-Inv :
    {g g' : Gate} {p q : Phase} (rest : Tally)
    → QueryMove g p g' q
    → AreNested rest
    → Inv g (with_one rest p)
    → Inv g' (with_one rest q)
QueryMove-Inv rest (try_in e) b inv = ground (arith, e, b.0, b.1)
QueryMove-Inv rest (lock_count e) b inv = ground (arith, e, b.0, b.1)
QueryMove-Inv rest (count_first e) b inv = ground (arith, e, b.0, b.1)
QueryMove-Inv rest (count_other e) b inv = ground (arith, e, b.0, b.1)
QueryMove-Inv rest (take_database e) b inv = ground (arith, e, b.0, b.1)
QueryMove-Inv rest unlock_count b inv = ground (arith, b.0, b.1)
QueryMove-Inv rest let_next b inv = ground (arith, b.0, b.1)
QueryMove-Inv rest (lock_again e) b inv = ground (arith, e, b.0, b.1)
QueryMove-Inv rest (uncount_last e) b inv = ground (arith, e, b.0, b.1)
QueryMove-Inv rest (uncount_other e) b inv = ground (arith, e, b.0, b.1)
QueryMove-Inv rest free_database b inv = ground (arith, b.0, b.1)
QueryMove-Inv rest unlock_again b inv = ground (arith, b.0, b.1)
QueryMove-Inv rest give_up b inv = ground (arith, b.0, b.1)

SaveMove-Inv :
    {g g' : Gate} {p q : Phase} (rest : Tally)
    → SaveMove g p g' q
    → AreNested rest
    → Inv g (with_one rest p)
    → Inv g' (with_one rest q)
SaveMove-Inv rest (try_save e) b inv = ground (arith, e, b.0, b.1)
SaveMove-Inv rest (take_alone e) b inv = ground (arith, e, b.0, b.1)
SaveMove-Inv rest free_alone b inv = ground (arith, b.0, b.1)
SaveMove-Inv rest let_queries b inv = ground (arith, b.0, b.1)

pub nested : (ps : List Phase) → AreNested (tally_of ps)
unfolding tally
nested [] = omega arith
nested (p ∷ ps) = nested_cons p ps (nested ps)
  where
    nested_cons :
        (p : Phase) (ps : List Phase) → AreNested (tally_of ps) → AreNested (tally_of (p ∷ ps))
    nested_cons p ps h = ground (arith, h.0, h.1)

-- The tallies as the other threads' and the one of thread `i`.
module _ (ps : List Phase) (i : ℕ) {p : Phase} (at : get_elem? ps i ≡ some p) where
  abbrev pub others : Tally
  others = tally_of (update_at i (λ _. outside) ps)

  -- No tally here counts a thread that is outside.
  pub before : (w : Phase → Bool) → w outside ≡ false → tally w ps ≡ with_one others p w
  before w h = ground (arith, tally-update_at w ps i p outside at, h)

  pub after :
      (q : Phase) (w : Phase → Bool)
      → w outside ≡ false
      → tally w (update_at i (λ _. q) ps) ≡ with_one others q w
  after q w h = ground (arith, before w h, tally-update_at w ps i p q at)

-- `Inv` only looks at tallies that leave out the threads outside.
pub Inv-same :
    {g : Gate} (m n : Tally)
    → ((w : Phase → Bool) → w outside ≡ false → m w ≡ n w)
    → Inv g n
    → Inv g m
Inv-same m n h inv = ground (
  arith,
  h has_try refl,
  h has_count refl,
  h is_counted refl,
  h is_first refl,
  h is_last refl,
  h is_saving refl,
)

Step-Inv :
    {s t : System} → Inv s.gate (tally_of s.threads) → Step s t → Inv t.gate (tally_of t.threads)
Step-Inv {s} inv (query i {p} {q} {g} at move) =
    Inv-same _ (with_one (others s.threads i at) q) (after s.threads i at q) (
      QueryMove-Inv (others s.threads i at) move (nested (update_at i (λ _. outside) s.threads)) (
        Inv-same (with_one (others s.threads i at) p) (tally_of s.threads)
          (λ w o. sym (before s.threads i at w o)) inv))
Step-Inv {s} inv (save i {p} {q} {g} at move) =
    Inv-same _ (with_one (others s.threads i at) q) (after s.threads i at q) (
      SaveMove-Inv (others s.threads i at) move (nested (update_at i (λ _. outside) s.threads)) (
        Inv-same (with_one (others s.threads i at) p) (tally_of s.threads)
          (λ w o. sym (before s.threads i at w o)) inv))

tally-all_outside : (w : Phase → Bool) (k : ℕ) → w outside ≡ false → tally w (all_outside k) ≡ 0
unfolding tally
tally-all_outside w zero o = refl
tally-all_outside w (suc k) o = ground (arith, tally-all_outside w k o, o)

start-Inv : (k : ℕ) → Inv (start k).gate (tally_of (start k).threads)
start-Inv k =
    Inv-same (tally_of (all_outside k)) (λ _. 0) (λ w o. tally-all_outside w k o) (ground arith)

pub Reach-Inv : (k : ℕ) {s : System} → Reach (start k) s → Inv s.gate (tally_of s.threads)
Reach-Inv k here = start-Inv k
Reach-Inv k (next r step) = Step-Inv (Reach-Inv k r) step

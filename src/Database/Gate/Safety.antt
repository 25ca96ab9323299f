-- ===== src/Database/Gate/Safety.antt =====
-- What the gate of `databaseManager` (src/main_server.cpp) keeps apart, and what a query that returned
-- without leaving does to it.
use sisop2_tf.Base.{
  tally, tally-update_at, tally-at, tally-two, ℕ, ◌≤◌, ◌<◌, ◌≡◌, ◌≢◌, refl, ap, sym, ◌∙◌, List,
  some, arith, get_elem?, update_at, false, ◌==◌, Bool-cases, inl, inr, some-injective,
  get_elem?-update_other,
}
use sisop2_tf.Database.Gate.{
  Gate, Phase, leaked, save_trying, saving, QueryMove, try_in, lock_count, count_first, count_other,
  take_database, unlock_count, let_next, lock_again, uncount_last, uncount_other, free_database,
  unlock_again, give_up, SaveMove, try_save, take_alone, free_alone, let_queries, System, Step,
  query, save, Reach, here, next, start,
}
use sisop2_tf.Database.Gate.Tallies.{
  tally-is_using, tally-is_leaked, tally-has_try, is_saving, is_using, is_leaked, is_waiting,
}
use sisop2_tf.Database.Gate.Invariant.{Inv, tally_of, Reach-Inv, one}

pub Reach-trans : {s t u : System} → Reach s t → Reach t u → Reach s u
Reach-trans r here = r
Reach-trans r (next r' step) = next (Reach-trans r r') step

using_once :
    {g : Gate} (ps : List Phase)
    → Inv g (tally_of ps)
    → 0 < tally is_saving ps
    → tally is_using ps ≤ 1
using_once ps inv h = ground (arith, tally-is_using ps, tally-has_try ps, h)

-- In every state that any number of threads can reach from the start, while a thread runs
-- `saveDatabase` with the database taken, no other thread has it: no query is between taking the
-- database and giving it back, and no other save runs.
pub saving-alone :
    (k : ℕ) {s : System} (i j : ℕ) {p : Phase}
    → Reach (start k) s
    → get_elem? s.threads i ≡ some saving
    → get_elem? s.threads j ≡ some p
    → j ≢ i
    → is_using p ≡ false
saving-alone k {s} i j {p} r at at' other = elim (Bool-cases (is_using p)) [
  | inl u ↦ absurd (
      ground (
        arith,
        using_once s.threads (Reach-Inv k r) (tally-at is_saving s.threads i at refl),
        tally-two is_using s.threads j i at' u at refl other,
      ))
  | inr free ↦ free
]

-- No step leaves `leaked`.
query_leaked :
    {g g' : Gate} {p q : Phase} → QueryMove g p g' q → one (is_leaked p) ≤ one (is_leaked q)
query_leaked (try_in e) = ground arith
query_leaked (lock_count e) = ground arith
query_leaked (count_first e) = ground arith
query_leaked (count_other e) = ground arith
query_leaked (take_database e) = ground arith
query_leaked unlock_count = ground arith
query_leaked let_next = ground arith
query_leaked (lock_again e) = ground arith
query_leaked (uncount_last e) = ground arith
query_leaked (uncount_other e) = ground arith
query_leaked free_database = ground arith
query_leaked unlock_again = ground arith
query_leaked give_up = ground arith

save_leaked :
    {g g' : Gate} {p q : Phase} → SaveMove g p g' q → one (is_leaked p) ≤ one (is_leaked q)
save_leaked (try_save e) = ground arith
save_leaked (take_alone e) = ground arith
save_leaked free_alone = ground arith
save_leaked let_queries = ground arith

Step-is_leaked : {s t : System} → Step s t → tally is_leaked s.threads ≤ tally is_leaked t.threads
Step-is_leaked {s} (query i {p} {q} at move) =
    ground (arith, tally-update_at is_leaked s.threads i p q at, query_leaked move)
Step-is_leaked {s} (save i {p} {q} at move) =
    ground (arith, tally-update_at is_leaked s.threads i p q at, save_leaked move)

Reach-is_leaked : {s t : System} → Reach s t → tally is_leaked s.threads ≤ tally is_leaked t.threads
Reach-is_leaked here = omega arith
Reach-is_leaked (next r step) = omega (arith, Reach-is_leaked r, Step-is_leaked step)

-- Where a save waits for the database and a query has returned without leaving, the database is taken.
database_taken :
    {g : Gate} (ps : List Phase)
    → Inv g (tally_of ps)
    → 0 < tally is_leaked ps
    → 0 < tally is_waiting ps
    → (g.query_try ≡ 0) × (g.db_access_sem ≡ 0)
database_taken ps inv l h = ground (arith, tally-is_leaked ps, tally-has_try ps, l, h)

query_waiting : {g g' : Gate} {p q : Phase} → QueryMove g p g' q → is_waiting p ≡ false
query_waiting (try_in e) = refl
query_waiting (lock_count e) = refl
query_waiting (count_first e) = refl
query_waiting (count_other e) = refl
query_waiting (take_database e) = refl
query_waiting unlock_count = refl
query_waiting let_next = refl
query_waiting (lock_again e) = refl
query_waiting (uncount_last e) = refl
query_waiting (uncount_other e) = refl
query_waiting free_database = refl
query_waiting unlock_again = refl
query_waiting give_up = refl

save_waiting :
    {g g' : Gate} {p q : Phase} → SaveMove g p g' q → g.db_access_sem ≡ 0 → is_waiting p ≡ false
save_waiting (try_save e) z = refl
save_waiting (take_alone e) z = absurd (ground (arith, e, z))
save_waiting free_alone z = refl
save_waiting let_queries z = refl

not_it :
    (ps : List Phase) (i j : ℕ) {p : Phase} (q : Phase)
    → get_elem? ps i ≡ some p
    → is_waiting p ≡ false
    → get_elem? ps j ≡ some save_trying
    → get_elem? (update_at i (λ _. q) ps) j ≡ some save_trying
not_it ps i j {p} q at other at' = elim (Bool-cases (i == j)) [
  | inl same ↦
      absurd (
        waits (some-injective _ _ (sym at ∙ ap (λ k. get_elem? ps k) (ground (arith, same)) ∙ at')))
  | inr apart ↦ get_elem?-update_other i j _ ps (ground (arith, apart)) ∙ at'
]
  where
    waits : p ≢ save_trying
    waits e = ground (arith, other, ap is_waiting e)

-- A step does not get a waiting save past a database that is taken.
still_waiting :
    {s t : System} (j : ℕ)
    → s.gate.db_access_sem ≡ 0
    → get_elem? s.threads j ≡ some save_trying
    → Step s t
    → get_elem? t.threads j ≡ some save_trying
still_waiting {s} j z at (query i at' move) = not_it s.threads i j _ at' (query_waiting move) at
still_waiting {s} j z at (save i at' move) = not_it s.threads i j _ at' (save_waiting move z) at

-- In every state that any number of threads can reach from the start, once a query has returned
-- without leaving and a `saveDatabase` waits for the database, then in every later state that save
-- still waits, and no thread can pass `query_try` or take the database.
pub leaked-blocks :
    (k : ℕ) {s t : System} (i j : ℕ)
    → Reach (start k) s
    → get_elem? s.threads i ≡ some leaked
    → get_elem? s.threads j ≡ some save_trying
    → Reach s t
    → (get_elem? t.threads j ≡ some save_trying)
      × (t.gate.query_try ≡ 0)
      × (t.gate.db_access_sem ≡ 0)
leaked-blocks k {s} {t} i j r lost at later =
    let both = taken t (Reach-trans r later) later waits in (waits, both.0, both.1)
  where
    taken :
        (u : System)
        → Reach (start k) u
        → Reach s u
        → get_elem? u.threads j ≡ some save_trying
        → (u.gate.query_try ≡ 0) × (u.gate.db_access_sem ≡ 0)
    taken u r' later' at' =
        database_taken u.threads (Reach-Inv k r')
          (omega (arith, tally-at is_leaked s.threads i lost refl, Reach-is_leaked later'))
          (tally-at is_waiting u.threads j at' refl)

    go : (u : System) → Reach s u → get_elem? u.threads j ≡ some save_trying
    go u here = at
    go u (next {t = v} r' step) =
        let before = go v r' in still_waiting j (taken v (Reach-trans r r') r' before).1 before step

    waits : get_elem? t.threads j ≡ some save_trying
    waits = go t later

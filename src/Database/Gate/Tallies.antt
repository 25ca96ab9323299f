-- ===== src/Database/Gate/Tallies.antt =====
-- How many threads at the gate of `databaseManager` (src/main_server.cpp) stand where.
use sisop2_tf.Base.{tally, ◌+◌, ◌≤◌, List, [], ◌∷◌, arith, Bool, true, false}
use sisop2_tf.Database.Gate.{
  Phase, trying, counting, first, counted, passing, inside, leaving, last, uncounted, leaked,
  save_trying, saving, saved,
}

-- With `query_try`.
abbrev pub has_try : Phase → Bool
has_try trying = true
has_try counting = true
has_try first = true
has_try counted = true
has_try passing = true
has_try save_trying = true
has_try saving = true
has_try saved = true
has_try _ = false

-- With `query_cnt_sem`.
abbrev pub has_count : Phase → Bool
has_count counting = true
has_count first = true
has_count counted = true
has_count leaving = true
has_count last = true
has_count uncounted = true
has_count _ = false

-- In `query_cnt`.
abbrev pub is_counted : Phase → Bool
is_counted first = true
is_counted counted = true
is_counted passing = true
is_counted inside = true
is_counted leaving = true
is_counted leaked = true
is_counted _ = false

abbrev pub is_first : Phase → Bool
is_first first = true
is_first _ = false

abbrev pub is_last : Phase → Bool
is_last last = true
is_last _ = false

abbrev pub is_saving : Phase → Bool
is_saving saving = true
is_saving _ = false

abbrev pub is_inside : Phase → Bool
is_inside inside = true
is_inside _ = false

abbrev pub is_leaked : Phase → Bool
is_leaked leaked = true
is_leaked _ = false

abbrev pub is_waiting : Phase → Bool
is_waiting save_trying = true
is_waiting _ = false

-- The queries between taking and giving back the database, and the saves that have it.
abbrev pub is_using : Phase → Bool
is_using counted = true
is_using passing = true
is_using inside = true
is_using leaving = true
is_using last = true
is_using leaked = true
is_using saving = true
is_using _ = false

-- Such a thread is counted, saves, or is the last that leaves.
pub tally-is_using :
    (ps : List Phase)
    → tally is_using ps ≤ tally is_counted ps + tally is_saving ps + tally is_last ps
unfolding tally
tally-is_using [] = omega arith
tally-is_using (p ∷ ps) = using_cons p ps (tally-is_using ps)
  where
    using_cons :
        (p : Phase) (ps : List Phase)
        → tally is_using ps ≤ tally is_counted ps + tally is_saving ps + tally is_last ps
        → tally is_using (p ∷ ps)
          ≤ tally is_counted (p ∷ ps) + tally is_saving (p ∷ ps) + tally is_last (p ∷ ps)
    using_cons p ps h = ground (arith, h)

pub tally-is_leaked : (ps : List Phase) → tally is_leaked ps ≤ tally is_counted ps
unfolding tally
tally-is_leaked [] = omega arith
tally-is_leaked (p ∷ ps) = leaked_cons p ps (tally-is_leaked ps)
  where
    leaked_cons :
        (p : Phase) (ps : List Phase)
        → tally is_leaked ps ≤ tally is_counted ps
        → tally is_leaked (p ∷ ps) ≤ tally is_counted (p ∷ ps)
    leaked_cons p ps h = ground (arith, h)

-- `query_try` has a holder for each of these.
pub tally-has_try :
    (ps : List Phase)
    → tally is_first ps + tally is_saving ps + tally is_waiting ps ≤ tally has_try ps
unfolding tally
tally-has_try [] = omega arith
tally-has_try (p ∷ ps) = try_cons p ps (tally-has_try ps)
  where
    try_cons :
        (p : Phase) (ps : List Phase)
        → tally is_first ps + tally is_saving ps + tally is_waiting ps ≤ tally has_try ps
        → tally is_first (p ∷ ps) + tally is_saving (p ∷ ps) + tally is_waiting (p ∷ ps)
          ≤ tally has_try (p ∷ ps)
    try_cons p ps h = ground (arith, h)

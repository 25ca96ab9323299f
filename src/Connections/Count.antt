-- ===== src/Connections/Count.antt =====
-- The list of connected users of `connectionManager` (src/main_server.cpp) seen as a function from
-- user ids to numbers of sessions.
use sisop2_tf.Base.{
  ℕ, zero, suc, ◌≤◌, ◌<◌, ◌≡◌, refl, List, [], ◌∷◌, ◌++◌, none, some, arith, ◌==◌, if◌then◌else◌,
  length, update_at, erase_at,
}
use sisop2_tf.Data.{ConnectionTrackerType}
use sisop2_tf.Connections.{find_index, connections_at, with_count}

abbrev pub count : ℕ → List ConnectionTrackerType → ℕ
count id [] = 0
count id (t ∷ ts) = if t.user_id == id then t.num_connections else count id ts

-- Every entry has one or two sessions, and no user has two entries.
abbrev pub IsTracked : List ConnectionTrackerType → Type 0
IsTracked [] = Unit {0}
IsTracked (t ∷ ts) =
    (1 ≤ t.num_connections) × (t.num_connections ≤ 2) × (count t.user_id ts ≡ 0) × IsTracked ts

pub count_le_two : (id : ℕ) (ts : List ConnectionTrackerType) → IsTracked ts → count id ts ≤ 2
count_le_two id [] v = omega arith
count_le_two id (t ∷ ts) v = ground (arith, count_le_two id ts v.3)

pub find_index-none :
    (id : ℕ) (ts : List ConnectionTrackerType) → find_index id ts ≡ none → count id ts ≡ 0
unfolding find_index
find_index-none id [] e = refl
find_index-none id (t ∷ ts) e = ground (arith, find_index-none id ts)

pub find_index-some :
    (id i : ℕ) (ts : List ConnectionTrackerType)
    → find_index id ts ≡ some i
    → (i < length ts) × (connections_at ts i ≡ count id ts)
unfolding find_index
find_index-some id i [] e = ground arith
find_index-some id zero (t ∷ ts) e = ground arith
find_index-some id (suc i) (t ∷ ts) e = ground (arith, find_index-some id i ts)

pub find_index_pos :
    (id i : ℕ) (ts : List ConnectionTrackerType)
    → IsTracked ts
    → find_index id ts ≡ some i
    → 1 ≤ count id ts
unfolding find_index
find_index_pos id i [] v e = ground arith
find_index_pos id zero (t ∷ ts) v e = ground arith
find_index_pos id (suc i) (t ∷ ts) v e = ground (arith, find_index_pos id i ts v.3)

pub count-update_at :
    (id i j : ℕ) (k : ℕ → ℕ) (ts : List ConnectionTrackerType)
    → find_index id ts ≡ some i
    → count j (update_at i (with_count k) ts) ≡ (if id == j then k (count j ts) else count j ts)
unfolding find_index
count-update_at id i j k [] e = ground arith
count-update_at id zero j k (t ∷ ts) e = ground arith
count-update_at id (suc i) j k (t ∷ ts) e = ground (arith, count-update_at id i j k ts)

pub IsTracked-update_at :
    (id i : ℕ) (k : ℕ → ℕ) (ts : List ConnectionTrackerType)
    → find_index id ts ≡ some i
    → 1 ≤ k (count id ts)
    → k (count id ts) ≤ 2
    → IsTracked ts
    → IsTracked (update_at i (with_count k) ts)
unfolding find_index
IsTracked-update_at id i k [] e p q v = tt
IsTracked-update_at id zero k (t ∷ ts) e p q v = ground arith
IsTracked-update_at id (suc i) k (t ∷ ts) e p q v =
    ground (arith, IsTracked-update_at id i k ts, count-update_at id i t.user_id k ts)

pub count-erase_at :
    (id i j : ℕ) (ts : List ConnectionTrackerType)
    → find_index id ts ≡ some i
    → IsTracked ts
    → count j (erase_at i ts) ≡ (if id == j then 0 else count j ts)
unfolding find_index
count-erase_at id i j [] e v = ground arith
count-erase_at id zero j (t ∷ ts) e v = ground arith
count-erase_at id (suc i) j (t ∷ ts) e v = ground (arith, count-erase_at id i j ts)

pub IsTracked-erase_at :
    (id i : ℕ) (ts : List ConnectionTrackerType)
    → find_index id ts ≡ some i
    → IsTracked ts
    → IsTracked (erase_at i ts)
unfolding find_index
IsTracked-erase_at id i [] e v = tt
IsTracked-erase_at id zero (t ∷ ts) e v = v.3
IsTracked-erase_at id (suc i) (t ∷ ts) e v =
    ground (arith, IsTracked-erase_at id i ts, count-erase_at id i t.user_id ts)

pub count-append :
    (j id : ℕ) (n : ℕ) (ts : List ConnectionTrackerType)
    → count id ts ≡ 0
    → IsTracked ts
    → count j (ts ++ record { user_id = id; num_connections = n } ∷ [])
      ≡ (if id == j then n else count j ts)
count-append j id n [] e v = ground arith
count-append j id n (t ∷ ts) e v = ground (arith, count-append j id n ts)

pub IsTracked-append :
    (id : ℕ) (ts : List ConnectionTrackerType)
    → count id ts ≡ 0
    → IsTracked ts
    → IsTracked (ts ++ record { user_id = id; num_connections = 1 } ∷ [])
IsTracked-append id [] e v = ground arith
IsTracked-append id (t ∷ ts) e v =
    ground (arith, IsTracked-append id ts, count-append t.user_id id 1 ts)

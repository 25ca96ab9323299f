-- ===== src/Semaphore/Threads.antt =====
-- Threads that use one `customBinarySemaphore` of src/main_server.cpp as a lock: each calls `P`,
-- then `V`, and the sections of different threads interleave freely.
use sisop2_tf.Base.{
  ℕ, zero, suc, ◌≡◌, Bool, true, false, List, [], ◌∷◌, none, some, get_elem?, update_at, tally,
}
use sisop2_tf.Semaphore.{BinarySemaphore, initial, p_enter, p_wake, v}

-- Outside; asleep on `cv`; notified, and not yet looked at the predicate again; inside; and in `V`
-- behind its section, before `notify_one`.
pub data Phase : Type 0 where
  outside waiting notified inside notifying : Phase

pub record System : Type 0 where
  pub semaphore : BinarySemaphore
  pub threads : List Phase

abbrev pub move : System → ℕ → Phase → BinarySemaphore → System
move s i phase t = record { semaphore = t; threads = update_at i (λ _. phase) s.threads }

-- How many threads are between `P` and `V`.
abbrev pub is_holder : Phase → Bool
is_holder inside = true
is_holder _ = false

abbrev pub holders : List Phase → ℕ
holders ts = tally is_holder ts

-- How many threads sleep on `cv`.
abbrev pub is_asleep : Phase → Bool
is_asleep waiting = true
is_asleep _ = false

-- How many threads wait inside `P`, asleep or notified.
abbrev pub is_waiter : Phase → Bool
is_waiter waiting = true
is_waiter notified = true
is_waiter _ = false

abbrev pub waiters : List Phase → ℕ
waiters ts = tally is_waiter ts

-- One section of thread `i`. A `notify_one` wakes one thread `j` that sleeps, if there is any.
pub data Step (s : System) : System → Type 0 where
  enter :
      (i : ℕ) {t : BinarySemaphore}
      → get_elem? s.threads i ≡ some outside
      → p_enter s.semaphore ≡ some t
      → Step s (move s i inside t)
  wait :
      (i : ℕ)
      → get_elem? s.threads i ≡ some outside
      → p_enter s.semaphore ≡ none
      → Step s (move s i waiting s.semaphore)
  wake :
      (i : ℕ) {t : BinarySemaphore}
      → get_elem? s.threads i ≡ some notified
      → p_wake s.semaphore ≡ some t
      → Step s (move s i inside t)
  wait_on :
      (i : ℕ)
      → get_elem? s.threads i ≡ some notified
      → p_wake s.semaphore ≡ none
      → Step s (move s i waiting s.semaphore)
  leave :
      (i : ℕ) → get_elem? s.threads i ≡ some inside → Step s (move s i notifying (v s.semaphore))
  notify_one :
      (i j : ℕ)
      → get_elem? s.threads i ≡ some notifying
      → get_elem? (update_at i (λ _. outside) s.threads) j ≡ some waiting
      → Step s (move (move s i outside s.semaphore) j notified s.semaphore)
  notify_nobody :
      (i : ℕ)
      → get_elem? s.threads i ≡ some notifying
      → tally is_asleep s.threads ≡ 0
      → Step s (move s i outside s.semaphore)

-- A thread that sleeps may also wake up spuriously.
pub data Reach (s : System) : System → Type 0 where
  here : Reach s s
  next : {t u : System} → Reach s t → Step t u → Reach s u
  spurious :
      {t : System} (i : ℕ)
      → Reach s t
      → get_elem? t.threads i ≡ some waiting
      → Reach s (move t i notified t.semaphore)

-- Steps of the code alone.
pub data Steps (s : System) : System → Type 0 where
  done : Steps s s
  more : {t u : System} → Steps s t → Step t u → Steps s u

-- `k` threads before their first call.
abbrev pub idle : ℕ → List Phase
idle zero = []
idle (suc k) = outside ∷ idle k

abbrev pub start : ℕ → System
start k = record { semaphore = initial; threads = idle k }

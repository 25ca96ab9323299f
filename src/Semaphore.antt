-- ===== src/Semaphore.antt =====
-- `customBinarySemaphore` (src/main_server.cpp). The mutex `m` makes each of the three sections
-- below atomic: the start of `P`, what `P` does after its wait, and `V`.
pub mod Threads
pub mod Exclusion
mod Tests
use sisop2_tf.Base.{
  ℕ, ◌+◌, ◌-◌, ◌<◌, ◌≡◌, Bool, true, false, not, Option, none, some, arith, ltb, ◌==◌,
  if◌then◌else◌,
}

-- `n` is an `int`; it is never lowered at 0, by `IsConsistent` and the test in `p_enter`.
pub record BinarySemaphore : Type 0 where
  pub n : ℕ
  pub can_proceed : Bool

abbrev pub initial : BinarySemaphore
initial = record { n = 1; can_proceed = false }

-- `n--; canProceed = (n == 0) ? false : true`
take_one : BinarySemaphore → BinarySemaphore
take_one s = record { n = s.n - 1; can_proceed = not (s.n - 1 == 0) }

-- The start of `P`; `none` means that the thread waits on `cv`.
pub p_enter : BinarySemaphore → Option BinarySemaphore
unfolding take_one
p_enter s = if ltb 0 s.n then some (take_one s) else none

-- `P` behind the wait: the predicate holds, and the thread goes on.
pub p_wake : BinarySemaphore → Option BinarySemaphore
unfolding take_one
p_wake s = if s.can_proceed then some (take_one s) else none

-- `V`, up to its `notify_one`.
pub v : BinarySemaphore → BinarySemaphore
v s = record { n = s.n + 1; can_proceed = not (s.n + 1 == 0) }

-- `P` of a thread that runs alone: nobody changes the semaphore while it waits.
pub p_alone : BinarySemaphore → Option BinarySemaphore
unfolding p_enter p_wake
p_alone s = elim (p_enter s) [ some t ↦ some t | none ↦ p_wake s ]

-- A thread is let through only while the count is positive.
abbrev pub IsConsistent : BinarySemaphore → Type 0
IsConsistent s = s.can_proceed ≡ true → 0 < s.n

-- What a semaphore promises to a thread that runs alone: `P` lowers a positive count by one and
-- waits at zero, `V` raises it, and both leave the semaphore consistent.
abbrev pub Counts : BinarySemaphore → Option BinarySemaphore → Type 0
Counts s none = s.n ≡ 0
Counts s (some t) = (s.n ≡ t.n + 1) × IsConsistent t

-- On a consistent semaphore `P` of a thread that runs alone waits only where the count is 0, and
-- else lowers the count by one and leaves the semaphore consistent.
pub p_alone-Counts : (s : BinarySemaphore) → IsConsistent s → Counts s (p_alone s)
unfolding p_alone
p_alone-Counts s c = ground arith

-- `V` after a `P` that went through gives the count back, and the next `P` goes through.
pub p_alone-v :
    (s : BinarySemaphore) {t : BinarySemaphore}
    → IsConsistent s
    → p_alone s ≡ some t
    → ((v t).n ≡ s.n)
      × IsConsistent (v t)
      × (p_alone (v t) ≡ some (record t { can_proceed = not (t.n == 0) }))
unfolding p_alone v
p_alone-v s c e = ground arith

-- ===== src/Semaphore/Tests.antt =====
-- The semaphore and its threads at concrete inputs.
use sisop2_tf.Base.{◌≡◌, refl, ◌≤◌, [], ◌∷◌, some, none, true, false}
use sisop2_tf.Semaphore.{BinarySemaphore, initial, p_alone}
use sisop2_tf.Semaphore.Threads.{
  System, Reach, enter, wait, here, next, waiting, inside, notifying, start, holders,
}
use sisop2_tf.Semaphore.Exclusion.{exclusive}

abbrev busy : BinarySemaphore
busy = record { n = 0; can_proceed = false }

p_initial : p_alone initial ≡ some busy
unfolding p_alone
p_initial = refl

p_busy : p_alone busy ≡ none
unfolding p_alone
p_busy = refl

abbrev contended : System
contended = record { semaphore = busy; threads = inside ∷ waiting ∷ [] }

abbrev released : System
released = record {
  semaphore = record { n = 1; can_proceed = true };
  threads = notifying ∷ waiting ∷ [];
}

Reach-contended : Reach (start 2) contended
unfolding p_alone
Reach-contended = next (next here (enter 0 {t = busy} refl refl)) (wait 1 refl refl)

exclusive_example : holders contended.threads ≤ 1
exclusive_example = exclusive 2 Reach-contended

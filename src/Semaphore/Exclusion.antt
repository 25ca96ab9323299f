-- ===== src/Semaphore/Exclusion.antt =====
-- Mutual exclusion and progress of the threads on one `customBinarySemaphore` of
-- src/main_server.cpp.
use sisop2_tf.Base.{
  ℕ, zero, suc, ◌≡◌, refl, ◌+◌, ◌≤◌, ◌<◌, Bool, true, false, List, some, arith, tally,
  tally-update_at, get_elem?, update_at, if◌then◌else◌,
}
use sisop2_tf.Semaphore.{p_enter, p_wake, v}
use sisop2_tf.Semaphore.Threads.{
  Phase, System, Step, Reach, enter, wait, wake, wait_on, leave, notify_one, notify_nobody, here,
  next, spurious, outside, waiting, notified, inside, notifying, start, idle, holders, waiters,
  is_holder, is_asleep, is_waiter,
}

abbrev is_notified : Phase → Bool
is_notified notified = true
is_notified _ = false

abbrev is_notifying : Phase → Bool
is_notifying notifying = true
is_notifying _ = false

-- The count and the holders add up to one. While the semaphore is free and somebody waits, the
-- waiters' predicate holds; while it is free and somebody sleeps, somebody is notified or will be.
pub record Inv (s : System) : Type 0 where
  pub one_token : s.semaphore.n + holders s.threads ≡ 1
  pub guarded : s.semaphore.can_proceed ≡ true → 0 < s.semaphore.n
  pub awake : 0 < s.semaphore.n → 0 < waiters s.threads → s.semaphore.can_proceed ≡ true
  pub called :
      0 < s.semaphore.n
      → 0 < tally is_asleep s.threads
      → 0 < tally is_notified s.threads + tally is_notifying s.threads
  pub split : waiters s.threads ≡ tally is_asleep s.threads + tally is_notified s.threads

tally-idle : (w : Phase → Bool) (k : ℕ) → w outside ≡ false → tally w (idle k) ≡ 0
unfolding tally
tally-idle w zero o = refl
tally-idle w (suc k) o = ground (arith, tally-idle w k o, o)

start-Inv : (k : ℕ) → Inv (start k)
start-Inv k = record {
  one_token = omega (arith, tally-idle is_holder k refl);
  guarded = λ h. ground arith;
  awake = λ h w. absurd (omega (arith, tally-idle is_waiter k refl));
  called = λ h w. absurd (omega (arith, tally-idle is_asleep k refl));
  split = omega (
    arith,
    tally-idle is_waiter k refl,
    tally-idle is_asleep k refl,
    tally-idle is_notified k refl,
  );
}

abbrev one : Bool → ℕ
one b = if b then 1 else 0

-- A tally when one thread goes from `p` to `q`.
abbrev Moves : List Phase → List Phase → Phase → Phase → (Phase → Bool) → Type 0
Moves ts us p q w = tally w us + one (w p) ≡ tally w ts + one (w q)

abbrev AllMove : List Phase → List Phase → Phase → Phase → Type 0
AllMove ts us p q =
    Moves ts us p q is_holder
    × Moves ts us p q is_asleep
    × Moves ts us p q is_notified
    × Moves ts us p q is_notifying
    × Moves ts us p q is_waiter

all_move :
    (ts : List Phase) (i : ℕ) (p q : Phase)
    → get_elem? ts i ≡ some p
    → AllMove ts (update_at i (λ _. q) ts) p q
all_move ts i p q h = (
  tally-update_at is_holder ts i p q h,
  tally-update_at is_asleep ts i p q h,
  tally-update_at is_notified ts i p q h,
  tally-update_at is_notifying ts i p q h,
  tally-update_at is_waiter ts i p q h,
)

Step-Inv : {s t : System} → Step s t → Inv s → Inv t
unfolding p_enter p_wake v
Step-Inv {s} (enter i {t} h e) inv = ground (arith, all_move s.threads i outside inside h)
Step-Inv {s} (wait i h e) inv = ground (arith, all_move s.threads i outside waiting h)
Step-Inv {s} (wake i {t} h e) inv = ground (arith, all_move s.threads i notified inside h)
Step-Inv {s} (wait_on i h e) inv = ground (arith, all_move s.threads i notified waiting h)
Step-Inv {s} (leave i h) inv = ground (arith, all_move s.threads i inside notifying h)
Step-Inv {s} (notify_one i j h h') inv = ground (
  arith,
  all_move s.threads i notifying outside h,
  all_move (update_at i (λ _. outside) s.threads) j waiting notified h',
)
Step-Inv {s} (notify_nobody i h z) inv = ground (arith, all_move s.threads i notifying outside h)

Reach-Inv : (k : ℕ) {t : System} → Reach (start k) t → Inv t
Reach-Inv k here = start-Inv k
Reach-Inv k (next r st) = Step-Inv st (Reach-Inv k r)
Reach-Inv k (spurious {t} i r h) =
    let inv = Reach-Inv k r in ground (arith, inv, all_move t.threads i waiting notified h)

-- Whatever the order in which the threads' sections run, and whatever spurious wake-ups there are, at
-- most one thread is between its `P` and its `V`.
pub exclusive : (k : ℕ) {t : System} → Reach (start k) t → holders t.threads ≤ 1
exclusive k r = omega (arith, (Reach-Inv k r).one_token)

-- ===== src/Base/Tallies.antt =====
-- How many members of a list satisfy a test, as for the threads at a semaphore.
use Prim.Native.Nat.{ℕ, zero, suc, ◌+◌, ◌≤◌, ◌<◌}
use mathlib.Core.Bool.{Bool, true}
use mathlib.Core.Path.{◌≡◌, refl, ap}
use mathlib.Core.Logic.{◌≢◌, inl, inr}
use mathlib.Core.Option.{some}
use mathlib.Core.List.{List, [], ◌∷◌}
use native.Mathlib.Omega.{arith}
use sisop2_tf.Base.Tests.{if◌then◌else◌, Bool-cases}
use sisop2_tf.Base.Lists.{get_elem?, update_at}

unfoldable pub tally : {A : Type 0} → (A → Bool) → List A → ℕ
tally w [] = 0
tally w (p ∷ ps) = (if w p then 1 else 0) + tally w ps

-- One thread goes from `p` to `q`.
pub tally-update_at :
    {A : Type 0} (w : A → Bool) (ps : List A) (i : ℕ) (p q : A)
    → get_elem? ps i ≡ some p
    → tally w (update_at i (λ _. q) ps) + (if w p then 1 else 0)
      ≡ tally w ps + (if w q then 1 else 0)
unfolding tally
tally-update_at w [] i p q e = absurd (ground (arith, e))
tally-update_at w (x ∷ ps) zero p q e = ground (arith, e)
tally-update_at w (x ∷ ps) (suc i) p q e = omega (arith, tally-update_at w ps i p q e)

-- A thread that is counted can be found.
pub tally-found :
    {A : Type 0} (w : A → Bool) (ps : List A)
    → 0 < tally w ps
    → (i : ℕ) × (p : A) × (get_elem? ps i ≡ some p) × (w p ≡ true)
unfolding tally
tally-found w [] h = absurd (omega arith)
tally-found w (x ∷ ps) h = elim (Bool-cases (w x)) [
  | inl found ↦ (zero, x, refl, found)
  | inr other ↦
      let (i, p, at, found) = tally-found w ps (ground (arith, other)) in (suc i, p, at, found)
]

pub tally-at :
    {A : Type 0} (w : A → Bool) (ps : List A) (i : ℕ) {p : A}
    → get_elem? ps i ≡ some p
    → w p ≡ true
    → 0 < tally w ps
unfolding tally
tally-at w [] i at e = absurd (ground (arith, at))
tally-at w (x ∷ ps) zero at e = ground (arith, at, e)
tally-at w (x ∷ ps) (suc i) at e = ground (arith, tally-at w ps i at e)

pub tally-two :
    {A : Type 0} (w : A → Bool) (ps : List A) (i j : ℕ) {p q : A}
    → get_elem? ps i ≡ some p
    → w p ≡ true
    → get_elem? ps j ≡ some q
    → w q ≡ true
    → i ≢ j
    → 2 ≤ tally w ps
unfolding tally
tally-two w [] i j at e at' e' ne = absurd (ground (arith, at))
tally-two w (x ∷ ps) zero zero at e at' e' ne = absurd (ne refl)
tally-two w (x ∷ ps) zero (suc j) at e at' e' ne = ground (arith, at, e, tally-at w ps j at' e')
tally-two w (x ∷ ps) (suc i) zero at e at' e' ne = ground (arith, at', e', tally-at w ps i at e)
tally-two w (x ∷ ps) (suc i) (suc j) at e at' e' ne =
    ground (arith, tally-two w ps i j at e at' e' (λ same. ne (ap suc same)))

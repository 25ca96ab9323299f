-- ===== src/Database/Followers.antt =====
-- The lists of followers (src/main_server.cpp): a follower is added once, so no list is longer than
-- the list of users.
use sisop2_tf.Base.{
  ℕ, zero, suc, ◌≤◌, ◌<◌, ◌≡◌, refl, true, false, List, [], ◌∷◌, ◌++◌, arith, ◌==◌, if◌then◌else◌,
  length, All,
}
use sisop2_tf.Database.Follow.{contains}
use sisop2_tf.Database.Tables.{IsDistinct}

contains-append :
    (a b : ℕ) (xs : List ℕ) → contains a (xs ++ b ∷ []) ≡ (if b == a then true else contains a xs)
unfolding contains
contains-append a b [] = ground arith
contains-append a b (x ∷ xs) = ground (arith, contains-append a b xs)

pub IsDistinct-append :
    (b : ℕ) (xs : List ℕ) → contains b xs ≡ false → IsDistinct xs → IsDistinct (xs ++ b ∷ [])
unfolding contains
IsDistinct-append b [] h d = ground arith
IsDistinct-append b (x ∷ xs) h d = ground (arith, IsDistinct-append b xs, contains-append x b xs)

without : ℕ → List ℕ → List ℕ
without a [] = []
without a (x ∷ xs) = if x == a then without a xs else x ∷ without a xs

contains-without :
    (a b : ℕ) (xs : List ℕ) → contains b xs ≡ false → contains b (without a xs) ≡ false
unfolding contains without
contains-without a b [] h = refl
contains-without a b (x ∷ xs) h = ground (arith, contains-without a b xs)

IsDistinct-without : (a : ℕ) (xs : List ℕ) → IsDistinct xs → IsDistinct (without a xs)
unfolding without
IsDistinct-without a [] d = tt
IsDistinct-without a (x ∷ xs) d =
    ground (arith, IsDistinct-without a xs d.1, contains-without a x xs d.0)

without_absent : (a : ℕ) (xs : List ℕ) → contains a xs ≡ false → without a xs ≡ xs
unfolding without contains
without_absent a [] h = refl
without_absent a (x ∷ xs) h = ground (arith, without_absent a xs)

length-without : (a : ℕ) (xs : List ℕ) → IsDistinct xs → length xs ≤ suc (length (without a xs))
unfolding without
length-without a [] d = omega arith
length-without a (x ∷ xs) d = ground (arith, length-without a xs d.1, without_absent a xs, d.0)

without-below : (n : ℕ) (xs : List ℕ) → All (λ x. x < suc n) xs → All (λ x. x < n) (without n xs)
unfolding without
without-below n [] h = tt
without-below n (x ∷ xs) h = ground (arith, without-below n xs h.1)

-- Distinct numbers below `n` are at most `n`.
pub length-le : (n : ℕ) (xs : List ℕ) → All (λ x. x < n) xs → IsDistinct xs → length xs ≤ n
length-le zero [] h d = omega arith
length-le zero (x ∷ xs) h d = absurd (omega arith)
length-le (suc n) xs h d = ground (
  arith,
  length-without n xs d,
  length-le n (without n xs) (without-below n xs h) (IsDistinct-without n xs d),
)

-- ===== src/Base/Lists.antt =====
-- Vectors as lists, measured and indexed by native numbers.
use Prim.Native.Nat.{ℕ, zero, suc, ◌+◌, ◌≤◌, ◌<◌}
use mathlib.Core.Path.{◌≡◌, refl, ap}
use mathlib.Core.Logic.{◌≢◌}
use mathlib.Core.Option.{Option, none, some}
use mathlib.Core.List.{List, [], ◌∷◌, ◌++◌}
use native.Mathlib.Omega.{arith}
use sisop2_tf.Base.Tests.{◌==◌, if◌then◌else◌}

module _ {ℓ} {A : Type ℓ} where
  abbrev pub length : List A → ℕ
  length [] = 0
  length (x ∷ xs) = suc (length xs)

  abbrev pub get_or : List A → ℕ → A → A
  get_or [] i d = d
  get_or (x ∷ xs) zero d = x
  get_or (x ∷ xs) (suc i) d = get_or xs i d

  abbrev pub get_elem? : List A → ℕ → Option A
  get_elem? [] i = none
  get_elem? (x ∷ xs) zero = some x
  get_elem? (x ∷ xs) (suc i) = get_elem? xs i

  -- A write through `v[i]`; out of bounds it changes nothing here, and its callers test the bound.
  abbrev pub update_at : ℕ → (A → A) → List A → List A
  update_at i f [] = []
  update_at zero f (x ∷ xs) = f x ∷ xs
  update_at (suc i) f (x ∷ xs) = x ∷ update_at i f xs

  -- `v.erase(v.begin() + i)`.
  abbrev pub erase_at : ℕ → List A → List A
  erase_at i [] = []
  erase_at zero (x ∷ xs) = xs
  erase_at (suc i) (x ∷ xs) = x ∷ erase_at i xs

  abbrev pub take : ℕ → List A → List A
  take zero xs = []
  take (suc n) [] = []
  take (suc n) (x ∷ xs) = x ∷ take n xs

  abbrev pub drop : ℕ → List A → List A
  drop zero xs = xs
  drop (suc n) [] = []
  drop (suc n) (x ∷ xs) = drop n xs

-- A predicate on every element.
abbrev pub All {ℓ κ} : {A : Type ℓ} → (A → Type κ) → List A → Type κ
All P [] = Unit
All P (x ∷ xs) = P x × All P xs

module _ {ℓ} {A : Type ℓ} where
  pub length-append : (xs ys : List A) → length (xs ++ ys) ≡ length xs + length ys
  length-append [] ys = omega arith
  length-append (x ∷ xs) ys = omega (arith, length-append xs ys)

  pub take-length : (xs : List A) → take (length xs) xs ≡ xs
  take-length [] = refl
  take-length (x ∷ xs) = ground (arith, take-length xs)

  pub length-update_at : (i : ℕ) (f : A → A) (xs : List A) → length (update_at i f xs) ≡ length xs
  length-update_at i f [] = refl
  length-update_at zero f (x ∷ xs) = refl
  length-update_at (suc i) f (x ∷ xs) = ap suc (length-update_at i f xs)

  pub length-erase_at :
      (i : ℕ) (xs : List A) → i < length xs → suc (length (erase_at i xs)) ≡ length xs
  length-erase_at i [] h = absurd (omega arith)
  length-erase_at zero (x ∷ xs) h = refl
  length-erase_at (suc i) (x ∷ xs) h = ap suc (length-erase_at i xs (omega arith))

  pub get_or-update_at :
      (i j : ℕ) (f : A → A) (xs : List A) (d : A)
      → i < length xs
      → get_or (update_at i f xs) j d ≡ (if i == j then f (get_or xs j d) else get_or xs j d)
  get_or-update_at i j f [] d h = absurd (omega arith)
  get_or-update_at zero zero f (x ∷ xs) d h = refl
  get_or-update_at zero (suc j) f (x ∷ xs) d h = ground arith
  get_or-update_at (suc i) zero f (x ∷ xs) d h = ground arith
  get_or-update_at (suc i) (suc j) f (x ∷ xs) d h = ground (arith, get_or-update_at i j f xs d)

  pub get_or_out : (i : ℕ) (xs : List A) (d : A) → length xs ≤ i → get_or xs i d ≡ d
  get_or_out i [] d h = refl
  get_or_out zero (x ∷ xs) d h = absurd (omega arith)
  get_or_out (suc i) (x ∷ xs) d h = get_or_out i xs d (omega arith)

  pub All-append {κ} : (P : A → Type κ) (xs ys : List A) → All P xs → All P ys → All P (xs ++ ys)
  All-append P [] ys hx hy = hy
  All-append P (x ∷ xs) ys hx hy = (hx.0, All-append P xs ys hx.1 hy)

  pub get_elem?-update_other :
      (i j : ℕ) (f : A → A) (xs : List A) → i ≢ j → get_elem? (update_at i f xs) j ≡ get_elem? xs j
  get_elem?-update_other i j f [] ne = refl
  get_elem?-update_other zero zero f (x ∷ xs) ne = absurd (ne refl)
  get_elem?-update_other zero (suc j) f (x ∷ xs) ne = refl
  get_elem?-update_other (suc i) zero f (x ∷ xs) ne = refl
  get_elem?-update_other (suc i) (suc j) f (x ∷ xs) ne =
      get_elem?-update_other i j f xs (λ same. ne (ap suc same))

  pub All-update_at {κ} :
      (P : A → Type κ) (i : ℕ) (f : A → A) (xs : List A) (d : A)
      → (i < length xs → P (f (get_or xs i d)))
      → All P xs
      → All P (update_at i f xs)
  All-update_at P i f [] d k h = h
  All-update_at P zero f (x ∷ xs) d k h = (k (omega arith), h.1)
  All-update_at P (suc i) f (x ∷ xs) d k h =
      (h.0, All-update_at P i f xs d (λ l. k (omega arith)) h.1)

  pub All-get_or {κ} :
      (P : A → Type κ) (i : ℕ) (xs : List A) (d : A) → P d → All P xs → P (get_or xs i d)
  All-get_or P i [] d k h = k
  All-get_or P zero (x ∷ xs) d k h = h.0
  All-get_or P (suc i) (x ∷ xs) d k h = All-get_or P i xs d k h.1

  pub All-map {κ μ} :
      (P : A → Type κ) (Q : A → Type μ) (xs : List A) → ((x : A) → P x → Q x) → All P xs → All Q xs
  All-map P Q [] k h = tt
  All-map P Q (x ∷ xs) k h = (k x h.0, All-map P Q xs k h.1)

-- ===== src/Base/Effects.antt =====
-- Stateful code that may wait for a semaphore or meet undefined behaviour.
use Prim.Native.Nat.{ℕ, zero, suc}
use mathlib.Core.Bool.{Bool, true, false}
use mathlib.Core.Path.{◌≡◌, refl, ap}
use mathlib.Core.Option.{Option, none, some}

-- `blocked` keeps the state in which the thread waits for a semaphore that nobody will release;
-- `fault` is undefined behaviour, such as an index out of range.
pub data Outcome (S A : Type 0) : Type 0 where
  ok : A → S → Outcome S A
  blocked : S → Outcome S A
  fault : Outcome S A

abbrev pub Program : Type 0 → Type 0 → Type 0
Program S A = S → Outcome S A

infixl 5 ◌>>=◌ ◌>>◌
abbrev pub ◌>>=◌ : {S A B : Type 0} → Program S A → (A → Program S B) → Program S B
◌>>=◌ m f s = elim (m s) [ ok a s' ↦ f a s' | blocked s' ↦ blocked s' | fault ↦ fault ]

abbrev pub ◌>>◌ : {S A B : Type 0} → Program S A → Program S B → Program S B
m >> k = m >>= λ _. k

module _ {S : Type 0} where
  abbrev pub pure : {A : Type 0} → A → Program S A
  pure a s = ok a s

  abbrev pub gets : {A : Type 0} → (S → A) → Program S A
  gets f s = ok (f s) s

  abbrev pub modify : (S → S) → Program S (Unit {0})
  modify f s = ok tt (f s)

  -- What an access needs in order to be defined, such as its index's bound.
  abbrev pub requires : (S → Bool) → Program S (Unit {0})
  requires test s = elim (test s) [ true ↦ ok tt s | false ↦ fault ]

  abbrev pub when : Bool → Program S (Unit {0}) → Program S (Unit {0})
  when test m s = elim test [ true ↦ m s | false ↦ ok tt s ]

  -- `P` on a semaphore whose count is read by `get` and written by `put`, as Semaphore proves of it.
  abbrev pub acquire : (S → ℕ) → (ℕ → S → S) → Program S (Unit {0})
  acquire get put s = elim (get s) [ zero ↦ blocked s | suc n ↦ ok tt (put n s) ]

  abbrev pub release : (S → ℕ) → (ℕ → S → S) → Program S (Unit {0})
  release get put s = ok tt (put (suc (get s)) s)

  -- A pointer or an index that has to be there.
  abbrev pub or_fault : {A : Type 0} → Option A → Program S A
  or_fault none s = fault
  or_fault (some a) s = ok a s

-- The code returns, and its result and its last state satisfy `P`.
abbrev pub Returns : {S A : Type 0} → Outcome S A → (A → S → Type 0) → Type 0
Returns (ok a s) P = P a s
Returns (blocked s) P = ⊥
Returns fault P = ⊥

module _ {S A B : Type 0} (P : A → S → Type 0) (Q : B → S → Type 0) (f : A → Program S B) where
  Returns-elim :
      (o : Outcome S A)
      → Returns o P
      → ((a : A) (t : S) → P a t → Returns (f a t) Q)
      → Returns (elim o [ ok a t ↦ f a t | blocked t ↦ blocked t | fault ↦ fault ]) Q
  Returns-elim (ok a t) h k = k a t h
  Returns-elim (blocked t) h k = h
  Returns-elim fault h k = h

  -- The rule for a program that goes on after another.
  pub Returns->>= :
      (m : Program S A) (s : S)
      → Returns (m s) P
      → ((a : A) (t : S) → P a t → Returns (f a t) Q)
      → Returns ((m >>= f) s) Q
  Returns->>= m s h k = Returns-elim (m s) h k

pub Returns-weaken :
    {S A : Type 0} (P Q : A → S → Type 0) (o : Outcome S A)
    → Returns o P
    → ((a : A) (t : S) → P a t → Q a t)
    → Returns o Q
Returns-weaken P Q (ok a t) h k = k a t h
Returns-weaken P Q (blocked t) h k = h
Returns-weaken P Q fault h k = h

-- What a program that returns has computed, as an equation.
pub Returns-ok :
    {S A : Type 0} (P : A → S → Type 0) (o : Outcome S A)
    → Returns o P
    → (a : A) × (s : S) × (o ≡ ok a s) × P a s
Returns-ok P (ok a s) h = (a, s, refl, h)
Returns-ok P (blocked s) h = absurd h
Returns-ok P fault h = absurd h

-- A program that has returned goes on with what is behind it.
pub >>=-ok :
    {S A B : Type 0} (m : Program S A) (f : A → Program S B) {s t : S} {a : A}
    → m s ≡ ok a t
    → (m >>= f) s ≡ f a t
>>=-ok m f e = ap (λ o. elim o [ ok a' s' ↦ f a' s' | blocked s' ↦ blocked s' | fault ↦ fault ]) e

pub >>=-fault :
    {S A B : Type 0} (m : Program S A) (f : A → Program S B) {s : S}
    → m s ≡ fault
    → (m >>= f) s ≡ fault
>>=-fault m f e =
    ap (λ o. elim o [ ok a' s' ↦ f a' s' | blocked s' ↦ blocked s' | fault ↦ fault ]) e

-- Two programs that have the same outcome go on in the same way.
pub >>=-cong :
    {S A B : Type 0} (m n : Program S A) (f : A → Program S B) {s t : S}
    → m s ≡ n t
    → (m >>= f) s ≡ (n >>= f) t
>>=-cong m n f e =
    ap (λ o. elim o [ ok a' s' ↦ f a' s' | blocked s' ↦ blocked s' | fault ↦ fault ]) e

module _ {S A B C : Type 0} (f : A → Program S B) (g : B → Program S C) where
  assoc-elim :
      (o : Outcome S A) (s : S) → ((λ _. o) >>= f >>= g) s ≡ ((λ _. o) >>= λ a. f a >>= g) s
  assoc-elim (ok a t) s = refl
  assoc-elim (blocked t) s = refl
  assoc-elim fault s = refl

  pub >>=-assoc : (m : Program S A) (s : S) → (m >>= f >>= g) s ≡ (m >>= λ a. f a >>= g) s
  >>=-assoc m s = assoc-elim (m s) s

-- What holds of the last state, whether the code has returned or waits; nothing of undefined
-- behaviour.
abbrev pub Leaves : {S A : Type 0} → (S → Type 0) → Outcome S A → Type 0
Leaves P (ok a w) = P w
Leaves P (blocked w) = P w
Leaves P fault = Unit

module _ {S A B : Type 0} (P Q : S → Type 0) (f : A → Program S B) where
  Leaves-elim :
      (o : Outcome S A)
      → Leaves P o
      → ((w : S) → P w → Q w)
      → ((a : A) (w : S) → P w → Leaves Q (f a w))
      → Leaves Q (elim o [ ok a w ↦ f a w | blocked w ↦ blocked w | fault ↦ fault ])
  Leaves-elim (ok a w) h weak k = k a w h
  Leaves-elim (blocked w) h weak k = weak w h
  Leaves-elim fault h weak k = tt

  pub Leaves->>= :
      (m : Program S A) (w : S)
      → Leaves P (m w)
      → ((t : S) → P t → Q t)
      → ((a : A) (t : S) → P t → Leaves Q (f a t))
      → Leaves Q ((m >>= f) w)
  Leaves->>= m w h weak k = Leaves-elim (m w) h weak k

pub Leaves-or_fault :
    {S A B : Type 0} (Q : S → Type 0) (o : Option A) (k : A → Program S B) (w : S)
    → ((a : A) → o ≡ some a → Leaves Q (k a w))
    → Leaves Q ((or_fault o >>= k) w)
Leaves-or_fault Q none k w h = tt
Leaves-or_fault Q (some a) k w h = h a refl

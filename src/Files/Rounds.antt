-- ===== src/Files/Rounds.antt =====
-- Rounds of the loop of `loadListOfUsers` (src/main_server.cpp).
use sisop2_tf.Base.{
  ℕ, zero, suc, ◌<◌, ◌≡◌, refl, ap, ◌∙◌, true, false, List, [], ◌∷◌, Option, none, some, arith,
  length, Bool, leb, if◌then◌else◌,
}
use sisop2_tf.Data.{UserType}
use sisop2_tf.Stream.{IStream, good, read_number, read_bytes}
use sisop2_tf.Stream.Consume.{
  IsStuck, read_number-Shrinks, read_bytes-Shrinks, read_char-good, read_char-shorter,
  read_number-IsStuck, read_bytes-IsStuck, read_char-IsStuck,
}
use sisop2_tf.Files.Records.{u32_max, u64_max, resize, string_max, fill_user, read_user}
use sisop2_tf.Files.Load.{Junk, load_users}

pub fill_user-IsStuck : (u : UserType) (s : IStream) → IsStuck s → IsStuck (fill_user u s).1
unfolding fill_user
fill_user-IsStuck u s h =
    read_char-IsStuck _ _
      (read_number-IsStuck _ _ _ (read_bytes-IsStuck _ _ _ (read_number-IsStuck _ _ s h)))

-- A user that is read takes a byte.
pub fill_user-shorter :
    (u : UserType) (s : IStream)
    → good (fill_user u s).1 ≡ true
    → length (fill_user u s).1.input < length s.input
unfolding fill_user
fill_user-shorter u s h =
    let number = read_number u64_max 0 s in
    let bytes = read_bytes number.0 (resize number.0 u.user_name) number.1 in
    let id = read_number u32_max u.user_id bytes.1 in
    let id_good = read_char-good 0 id.1 h in
    let id_Shrinks = read_number-Shrinks u32_max u.user_id bytes.1 in
    let bytes_good = id_Shrinks.was_good id_good in
    let bytes_Shrinks = read_bytes-Shrinks number.0 (resize number.0 u.user_name) number.1 in
    let number_good = bytes_Shrinks.was_good bytes_good in
    omega (
      arith,
      read_char-shorter 0 id.1 h,
      id_Shrinks.shorter id_good,
      bytes_Shrinks.shorter bytes_good,
      (read_number-Shrinks u64_max 0 s).shorter number_good,
    )

abbrev pub blank_user : Junk → UserType
blank_user junk = record { user_name = []; user_id = junk.user_id }

abbrev pub grown : UserType → Option (List UserType) → Option (List UserType)
grown u none = none
grown u (some us) = some (u ∷ us)

pub load_users-over :
    (fuel : ℕ) (junk : Junk) (s : IStream) → s.eof ≡ true → load_users (suc fuel) junk s ≡ some []
unfolding load_users
load_users-over fuel junk s h = rw h refl

-- Whether the name's size is one that a string can have.
abbrev pub fits_string : IStream → Bool
fits_string s = leb (read_number u64_max 0 s).0 string_max

pub read_user-fill_user :
    (u : UserType) (s : IStream) → fits_string s ≡ true → read_user u s ≡ some (fill_user u s)
unfolding read_user
read_user-fill_user u s fits = ap (λ b. if b then some (fill_user u s) else none) fits

read_user-throws : (u : UserType) (s : IStream) → fits_string s ≡ false → read_user u s ≡ none
unfolding read_user
read_user-throws u s large = ap (λ b. if b then some (fill_user u s) else none) large

pub load_users-round :
    (fuel : ℕ) (junk : Junk) (s : IStream)
    → s.eof ≡ false
    → fits_string s ≡ true
    → load_users (suc fuel) junk s
      ≡ grown
          (fill_user (blank_user junk) s).0
          (load_users fuel junk (fill_user (blank_user junk) s).1)
unfolding load_users
load_users-round fuel junk s h fits =
    ground (arith, h, read_user-fill_user (blank_user junk) s fits)

-- The stream behind so many rounds of the loop, where no exception ends one; behind the end of the loop
-- nothing more is read.
unfoldable pub user_rounds : ℕ → Junk → IStream → Option IStream
user_rounds zero junk s = some s
user_rounds (suc n) junk s = elim s.eof [
  | true ↦ some s
  | false ↦ elim (read_user (blank_user junk) s) [
    | none ↦ none
    | some (u, s') ↦ user_rounds n junk s'
  ]
]

pub rounds-next :
    (n : ℕ) (junk : Junk) (s : IStream)
    → s.eof ≡ false
    → fits_string s ≡ true
    → user_rounds (suc n) junk s ≡ user_rounds n junk (fill_user (blank_user junk) s).1
unfolding user_rounds
rounds-next n junk s more fits = ground (arith, more, read_user-fill_user (blank_user junk) s fits)

pub rounds-throws :
    (junk : Junk) (s : IStream)
    → s.eof ≡ false
    → fits_string s ≡ false
    → user_rounds 1 junk s ≡ none
unfolding user_rounds
rounds-throws junk s more large = ground (arith, more, read_user-throws (blank_user junk) s large)

-- After this number of rounds the loop goes on, and no list is there yet.
abbrev pub GoesOn : ℕ → Junk → IStream → Type 0
GoesOn n junk s =
    (load_users n junk s ≡ none) × (t : IStream) × (user_rounds n junk s ≡ some t) × (t.eof ≡ false)

-- A round before such rounds.
pub GoesOn-next :
    (n : ℕ) (junk : Junk) (s : IStream)
    → s.eof ≡ false
    → fits_string s ≡ true
    → GoesOn n junk (fill_user (blank_user junk) s).1
    → GoesOn (suc n) junk s
unfolding user_rounds load_users
GoesOn-next n junk s more fits (e, t, run, more') = (
  load_users-round n junk s more fits ∙ ap (grown (fill_user (blank_user junk) s).0) e,
  t,
  rounds-next n junk s more fits ∙ run,
  more',
)

pub none-GoesOn : (junk : Junk) (s : IStream) → s.eof ≡ false → GoesOn 0 junk s
unfolding user_rounds load_users
none-GoesOn junk s more = (refl, s, refl, more)

stuck_fits : (s : IStream) → IsStuck s → fits_string s ≡ true
unfolding read_number
stuck_fits s h = ground (arith, h.0)

-- A stream that has failed and is not at its end never gets there.
pub stuck-GoesOn : (n : ℕ) (junk : Junk) (s : IStream) → IsStuck s → GoesOn n junk s
stuck-GoesOn zero junk s h = none-GoesOn junk s h.1
stuck-GoesOn (suc n) junk s h = GoesOn-next n junk s h.1 (stuck_fits s h) (
    stuck-GoesOn n junk (fill_user (blank_user junk) s).1 (fill_user-IsStuck (blank_user junk) s h))

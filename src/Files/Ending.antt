-- ===== src/Files/Ending.antt =====
-- When the loop of `loadListOfUsers` (src/main_server.cpp) ends.
use sisop2_tf.Base.{
  ℕ, zero, suc, ◌+◌, ◌<◌, ◌≡◌, refl, ap, sym, subst, ◌∙◌, ◌⊎◌, inl, inr, true, false, List, [], ◌∷◌,
  none, some, arith, length, Bool-cases, leb,
}
use sisop2_tf.Data.{UserType}
use sisop2_tf.Stream.{IStream, good, open_file, is_digit, is_space, is_sign, read_number}
use sisop2_tf.Stream.Laws.{read_number_none}
use sisop2_tf.Stream.Consume.{IsStuck, read_number-IsStuck, read_bytes-IsStuck, read_char-IsStuck}
use sisop2_tf.Files.Records.{u64_max, string_max, fill_user}
use sisop2_tf.Files.Load.{Junk, load_users}
use sisop2_tf.Files.Rounds.{
  fill_user-shorter, blank_user, grown, load_users-over, fits_string, load_users-round, user_rounds,
  rounds-next, rounds-throws, GoesOn, GoesOn-next, none-GoesOn, stuck-GoesOn,
}

-- What a stream is after a round.
stream-cases : (s : IStream) → (good s ≡ true) ⊎ ((s.eof ≡ true) ⊎ IsStuck s)
stream-cases s = elim (Bool-cases s.eof) [
  | inl over ↦ inr (inl over)
  | inr more ↦ elim (Bool-cases s.fail) [
    | inl failed ↦ inr (inr (failed, more))
    | inr fine ↦ inl (ground (arith, more, fine))
  ]
]

-- How the loop goes: it has ended in these rounds, it never ends, or an exception ends one of them.
pub data Course (fuel : ℕ) (junk : Junk) (s : IStream) : Type 0 where
  ended : (us : List UserType) → load_users fuel junk s ≡ some us → Course fuel junk s
  endless : ((n : ℕ) → GoesOn n junk s) → Course fuel junk s
  thrown : (n : ℕ) → n < fuel → user_rounds n junk s ≡ none → Course fuel junk s

round-Course :
    (fuel : ℕ) (junk : Junk) (s : IStream)
    → s.eof ≡ false
    → fits_string s ≡ true
    → Course fuel junk (fill_user (blank_user junk) s).1
    → Course (suc fuel) junk s
round-Course fuel junk s more fits (ended us e) =
    let u = (fill_user (blank_user junk) s).0 in
    ended (u ∷ us) (load_users-round fuel junk s more fits ∙ ap (grown u) e)
round-Course fuel junk s more fits (endless goes) = endless further
  where
    further : (n : ℕ) → GoesOn n junk s
    further zero = none-GoesOn junk s more
    further (suc n) = GoesOn-next n junk s more fits (goes n)
round-Course fuel junk s more fits (thrown n l e) =
    thrown (suc n) (omega (arith, l)) (rounds-next n junk s more fits ∙ e)

load_users-Course :
    (fuel : ℕ) (junk : Junk) (s : IStream)
    → length s.input + 1 < fuel
    → s.eof ≡ false
    → Course fuel junk s
load_users-Course zero junk s h more = absurd (omega (arith, h))
load_users-Course (suc zero) junk s h more = absurd (omega (arith, h))
load_users-Course (suc (suc fuel)) junk s h more =
    let next = (fill_user (blank_user junk) s).1 in
    elim (Bool-cases (fits_string s)) [
      | inl fits ↦ round-Course (suc fuel) junk s more fits (elim (stream-cases next) [
        | inl fine ↦
            load_users-Course (suc fuel) junk next
              (omega (arith, h, fill_user-shorter (blank_user junk) s fine)) (ground (arith, fine))
        | inr (inl over) ↦ ended [] (load_users-over fuel junk next over)
        | inr (inr stuck) ↦ endless (λ n. stuck-GoesOn n junk next stuck)
      ])
      | inr large ↦ thrown 1 (omega arith) (rounds-throws junk s more large)
    ]

-- Whatever bytes the file has, the loop of `loadListOfUsers` has ended with a list after as many rounds
-- as there are bytes and two more, or `resize` has thrown an exception in fewer rounds, or the loop
-- never ends: after any number of rounds its test holds.
pub load_list_of_users-ends :
    (junk : Junk) (bytes : List ℕ) → Course (length bytes + 2) junk (open_file bytes)
load_list_of_users-ends junk bytes =
    load_users-Course (length bytes + 2) junk (open_file bytes) (omega arith) refl

fill_user-unreadable :
    (u : UserType) (c : ℕ) (rest : List ℕ)
    → is_digit c ≡ false
    → is_space c ≡ false
    → is_sign c ≡ false
    → IsStuck (fill_user u (open_file (c ∷ rest))).1
unfolding fill_user
fill_user-unreadable u c rest h k n =
    let stuck : IsStuck (read_number u64_max 0 (open_file (c ∷ rest))).1 =
      subst (λ r. IsStuck r.1) (sym (read_number_none u64_max 0 c rest h k n)) (refl, refl) in
    read_char-IsStuck _ _ (read_number-IsStuck _ _ _ (read_bytes-IsStuck _ _ _ stuck))

unreadable_fits :
    (c : ℕ) (rest : List ℕ)
    → is_digit c ≡ false
    → is_space c ≡ false
    → is_sign c ≡ false
    → fits_string (open_file (c ∷ rest)) ≡ true
unreadable_fits c rest h k n =
    ap (λ r. leb r.0 string_max) (read_number_none u64_max 0 c rest h k n)

-- When the first byte of the file is no digit, no space and no sign, the loop of `loadListOfUsers` never
-- ends, and no exception ends it: the stream fails in the first round and does not reach its end, so that
-- the test of the loop holds after any number of rounds.
pub load_list_of_users-never :
    (n : ℕ) (junk : Junk) (c : ℕ) (rest : List ℕ)
    → is_digit c ≡ false
    → is_space c ≡ false
    → is_sign c ≡ false
    → GoesOn n junk (open_file (c ∷ rest))
load_list_of_users-never zero junk c rest h k m = none-GoesOn junk (open_file (c ∷ rest)) refl
load_list_of_users-never (suc n) junk c rest h k m =
    let s = open_file (c ∷ rest) in
    GoesOn-next n junk s refl (unreadable_fits c rest h k m) (
      stuck-GoesOn n junk (fill_user (blank_user junk) s).1
        (fill_user-unreadable (blank_user junk) c rest h k m))

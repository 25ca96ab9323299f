-- ===== src/Files/Lists.antt =====
-- The loops over counted lists (src/main_server.cpp): `loadListOfFollowers` reads what
-- `saveListOfFollowers` wrote.
use sisop2_tf.Base.{
  ℕ, ◌≤◌, ◌≡◌, refl, sym, false, All-map, List, [], ◌∷◌, ◌++◌, length, append_assoc, append-nil,
  All, ap, ◌∙◌,
}
use sisop2_tf.Stream.{IStream, open_file, show_nat, read_number, is_space, is_digit}
use sisop2_tf.Stream.Laws.{read_number-show_nat, read_char_here}
use sisop2_tf.Files.Save.{write_each, show_follower, show_followers, save_list_of_followers}
use sisop2_tf.Stream.{int_max}
use sisop2_tf.Files.Load.{
  rounds_of-fits, Junk, read_each, read_ended, read_counted, load_list_of_followers,
}

module _ {ℓ} {A : Type ℓ} (show : A → List ℕ) (item : IStream → A × IStream) where
  -- The item reader takes exactly what was written for `x`.
  abbrev pub ReadsBack : A → Type ℓ
  ReadsBack x = (rest : List ℕ) → item (open_file (show x ++ rest)) ≡ (x, open_file rest)

  pub read_each-write_each :
      (xs : List A) (rest : List ℕ)
      → All ReadsBack xs
      → read_each item (length xs) (open_file (write_each show xs ++ rest)) ≡ (xs, open_file rest)
  unfolding read_each write_each
  read_each-write_each [] rest h = refl
  read_each-write_each (x ∷ xs) rest h =
      simp append_assoc (rw (h.0 (write_each show xs ++ rest), read_each-write_each xs rest h.1))

  -- A list with its count and a separator before it.
  pub read_counted_here :
      (junk : Junk) (sep : ℕ) (xs : List A) (rest : List ℕ)
      → is_digit sep ≡ false
      → is_space sep ≡ false
      → length xs ≤ int_max
      → All ReadsBack xs
      → read_counted junk item
          (open_file ((show_nat (length xs) ++ (sep ∷ [] ++ write_each show xs)) ++ rest))
        ≡ (xs, open_file rest)
  read_counted_here junk sep xs rest d s l h = simp append_assoc (
      rw (
        read_number-show_nat int_max junk.number (length xs) sep _ l d,
        read_char_here 0 sep _ s,
        rounds_of-fits (length xs) l,
        read_each-write_each xs rest h,
      ))

-- Follower ids are no negative numbers, and no list is longer than an `int` counts.
abbrev pub RowFits : List ℕ → Type 0
RowFits fs = (length fs ≤ int_max) × All (λ f. f ≤ int_max) fs

follower_back :
    (junk : Junk) (f : ℕ)
    → f ≤ int_max
    → ReadsBack show_follower (read_ended (read_number int_max junk.number)) f
follower_back junk f h rest = simp append_assoc (
    rw (
      read_number-show_nat int_max junk.number f b'/' rest h refl,
      read_char_here 0 b'/' rest refl,
    ))

row_back :
    (junk : Junk) (fs : List ℕ)
    → RowFits fs
    → ReadsBack show_followers (read_counted junk (read_ended (read_number int_max junk.number))) fs
row_back junk fs h rest =
    read_counted_here show_follower _ junk b'.' fs rest refl refl h.0
      (All-map _ _ fs (follower_back junk) h.1)

-- `loadListOfFollowers` restores the lists that `saveListOfFollowers` wrote, if no list is longer
-- than an `int` counts and no id is larger than one, and leaves nothing of the file unread.
pub load-save_list_of_followers :
    (junk : Junk) (rows : List (List ℕ))
    → length rows ≤ int_max
    → All RowFits rows
    → load_list_of_followers junk (save_list_of_followers rows) ≡ (rows, open_file [])
unfolding load_list_of_followers save_list_of_followers
load-save_list_of_followers junk rows l h =
    ap (load_list_of_followers junk) (sym (append-nil (save_list_of_followers rows)))
    ∙ read_counted_here show_followers _ junk b'.' rows [] refl refl l
        (All-map _ _ rows (row_back junk) h)

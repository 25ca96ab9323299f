-- ===== src/Files/Damage.antt =====
-- `loadListOfPendingTweets` (src/main_server.cpp) on what `saveListOfPendingTweets` wrote.
use sisop2_tf.Base.{
  ℕ, suc, ◌+◌, ◌≤◌, ◌<◌, ◌≡◌, refl, false, ap, ◌∙◌, List, [], ◌∷◌, ◌++◌, arith, length, get_or,
  append_assoc,
}
use sisop2_tf.Data.{PendingTweet}
use sisop2_tf.Stream.{IStream, open_file, show_nat, is_space}
use sisop2_tf.Stream.Laws.{
  read_number-show_nat, read_char_here, read_char_past_newline, read_number_none,
}
use sisop2_tf.Files.Records.{read_pending}
use sisop2_tf.Files.RoundTrip.{Fits, read_pending-show_pending}
use sisop2_tf.Files.Save.{
  write_each, show_pending_line, show_pending_row, save_list_of_pending_tweets,
}
use sisop2_tf.Stream.{int_max}
use sisop2_tf.Files.Load.{
  rounds_of-fits, Junk, read_each, read_ended, read_counted, load_list_of_pending_tweets,
}

-- The `>> numBreaker` behind an entry skips the newline and takes the byte after it.
-- The first row with one entry is read, and the byte behind it is lost.
read_first_row :
    (junk : Junk) (e : PendingTweet) (c : ℕ) (rest : List ℕ)
    → Fits e
    → is_space c ≡ false
    → read_counted junk
        (read_ended (read_pending junk.pending))
        (open_file (show_pending_row (e ∷ []) ++ c ∷ rest))
      ≡ (e ∷ [], open_file rest)
unfolding write_each read_each
read_first_row junk e c rest h s = simp append_assoc (
    rw (
      read_number-show_nat int_max junk.number 1 b'/' _ (omega arith) refl,
      read_char_here 0 b'/' _ refl,
      read_pending-show_pending e junk.pending _ h,
      read_char_past_newline 0 c rest s,
    ))

-- A row whose count is lost is read as empty.
read_lost_row :
    (junk : Junk) (rest : List ℕ)
    → (read_counted junk (read_ended (read_pending junk.pending)) (open_file (b'/' ∷ rest))).0 ≡ []
unfolding read_each
read_lost_row junk rest = rw (read_number_none int_max junk.number b'/' rest refl refl refl)

show_nat_small : (n : ℕ) → n < 10 → show_nat n ≡ (b'0' + n) ∷ []
unfolding show_nat
show_nat_small n h = ground arith

-- The first two of a list that is read.
read_each_two {ℓ} :
    {A : Type ℓ} (item : IStream → A × IStream) (n : ℕ) (s t : IStream) (x d : A)
    → item s ≡ (x, t)
    → let xs = (read_each item (suc (suc n)) s).0 in
      (get_or xs 0 d ≡ x) × (get_or xs 1 d ≡ (item t).0)
unfolding read_each
read_each_two item n s t x d e = (ap (λ r. r.0) e, ap (λ r. (item r.1).0) e)

-- Where the first user has one pending tweet and the second has fewer than ten,
-- `loadListOfPendingTweets` restores the first user's entry from the file that
-- `saveListOfPendingTweets` wrote, and finds nothing for the second.
pub load-save_list_of_pending_tweets_loses :
    (junk : Junk) (e : PendingTweet) (es : List PendingTweet) (rows : List (List PendingTweet))
    → Fits e
    → length es < 10
    → length rows + 2 ≤ int_max
    → let loaded =
        (load_list_of_pending_tweets junk (save_list_of_pending_tweets ((e ∷ []) ∷ es ∷ rows))).0 in
      (get_or loaded 0 [] ≡ e ∷ []) × (get_or loaded 1 [] ≡ [])
unfolding load_list_of_pending_tweets save_list_of_pending_tweets write_each
load-save_list_of_pending_tweets_loses junk e es rows h few l =
    let row = read_counted junk (read_ended (read_pending junk.pending)) in
    let rest = write_each show_pending_line es ++ write_each show_pending_row rows in
    let first = read_first_row junk e (b'0' + length es) (b'/' ∷ rest) h (ground (arith, few)) in
    let (zeroth, next) = read_each_two row (length rows) _ _ _ [] first in
    simp append_assoc (
      rw
        (
          read_number-show_nat int_max junk.number (suc (suc (length rows))) b'.' _ (omega arith)
              refl,
          read_char_here 0 b'.' _ refl,
          rounds_of-fits (suc (suc (length rows))) (omega (arith, l)),
          show_nat_small (length es) few,
        )
        (simp append_assoc at zeroth, simp append_assoc at (next ∙ read_lost_row junk rest)))

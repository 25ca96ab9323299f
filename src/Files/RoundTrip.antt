-- ===== src/Files/RoundTrip.antt =====
-- What the stream operators (src/main_server.cpp) write is what they read.
use sisop2_tf.Base.{
  ℕ, suc, ◌≤◌, ◌≡◌, refl, false, some, true, leb, arith, List, [], ◌∷◌, ◌++◌, length, append_assoc,
}
use sisop2_tf.Data.{UserType, TweetData, PendingTweet}
use sisop2_tf.Stream.{open_file, is_digit}
use sisop2_tf.Stream.Laws.{read_number-show_nat, read_char_here, read_bytes_here}
use sisop2_tf.Files.Records.{
  show_user, show_tweet, show_pending, read_user, fill_user, string_max, read_tweet, read_pending,
  u32_max, u64_max,
}

-- The values fit their types.
abbrev pub Fits : PendingTweet → Type 0
Fits e = (e.tweet_id ≤ u64_max) × (e.user_author ≤ u32_max)

-- A pending tweet whose numbers fit their types is read back as written, whatever the reader's entry
-- held before, and the stream stands behind it.
pub read_pending-show_pending :
    (e old : PendingTweet) (rest : List ℕ)
    → Fits e
    → read_pending old (open_file (show_pending e ++ rest)) ≡ (e, open_file rest)
unfolding read_pending show_pending
read_pending-show_pending e old rest h = simp append_assoc (
    rw (
      read_number-show_nat u64_max old.tweet_id e.tweet_id b'.' _ h.0 refl,
      read_char_here 0 b'.' _ refl,
      read_number-show_nat u32_max old.user_author e.user_author b'.' rest h.1 refl,
      read_char_here _ b'.' rest refl,
    ))

-- The values fit their types, and the payload is the whole array.
abbrev pub TweetFits : TweetData → Type 0
TweetFits w =
    (w.author_id ≤ u32_max)
    × (w.tweet_id ≤ u64_max)
    × (w.timestamp ≤ u64_max)
    × (w.num_recipients_remaining ≤ u32_max)
    × (length w.payload ≡ 256)

-- A tweet whose numbers fit their types and whose payload is 256 bytes is read back as written,
-- whatever the reader's tweet held before, and the stream stands behind it.
pub read_tweet-show_tweet :
    (w old : TweetData) (rest : List ℕ)
    → TweetFits w
    → read_tweet old (open_file (show_tweet w ++ rest)) ≡ (w, open_file rest)
unfolding read_tweet show_tweet
read_tweet-show_tweet w old rest h = simp append_assoc (
    rw (
      read_number-show_nat u32_max old.author_id w.author_id b'.' _ h.0 refl,
      read_char_here 0 b'.' _ refl,
      read_number-show_nat u64_max old.tweet_id w.tweet_id b'.' _ h.1 refl,
      read_char_here _ b'.' _ refl,
      read_number-show_nat u64_max old.timestamp w.timestamp b'.' _ h.2 refl,
      read_char_here _ b'.' _ refl,
      ← h.4,
      read_bytes_here old.payload w.payload _,
      read_char_here _ b'.' _ refl,
      read_number-show_nat u32_max old.num_recipients_remaining w.num_recipients_remaining b'.' rest
          h.3 refl,
      read_char_here _ b'.' rest refl,
    ))

-- A name that the reader can tell from the number before it.
abbrev pub IsName : List ℕ → Type 0
IsName [] = ⊥
IsName (c ∷ cs) = (is_digit c ≡ false) × (suc (length cs) ≤ string_max)

size_fits : (n : ℕ) → n ≤ string_max → leb n string_max ≡ true
size_fits n h = ground (arith, h)

user_parts :
    (name : List ℕ) (id old : ℕ) (rest : List ℕ)
    → IsName name
    → id ≤ u32_max
    → let u : UserType = record { user_name = name; user_id = id } in
      read_user (record { user_name = []; user_id = old }) (open_file (show_user u ++ rest))
      ≡ some (u, open_file rest)
unfolding read_user fill_user show_user
user_parts [] id old rest h k = absurd h
user_parts (c ∷ cs) id old rest h k = simp append_assoc (
    rw (
      read_number-show_nat u64_max 0 (suc (length cs)) c _ (omega (arith, h.1)) h.0,
      size_fits (suc (length cs)) h.1,
      read_bytes_here _ (c ∷ cs) _,
      read_number-show_nat u32_max old id b'.' rest k refl,
      read_char_here _ b'.' rest refl,
    ))

-- A user whose name is not empty, begins with no digit and has a length that a string can have, and whose
-- id fits its type, is read back as written by a reader whose name was empty before, and the stream
-- stands behind it.
pub read_user-show_user :
    (u : UserType) (old : ℕ) (rest : List ℕ)
    → IsName u.user_name
    → u.user_id ≤ u32_max
    → read_user (record { user_name = []; user_id = old }) (open_file (show_user u ++ rest))
      ≡ some (u, open_file rest)
read_user-show_user u old rest h k = user_parts u.user_name u.user_id old rest h k

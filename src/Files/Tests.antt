-- ===== src/Files/Tests.antt =====
-- The files at concrete inputs.
use sisop2_tf.Base.{none, str_eq, ℕ, suc, zero, ◌≡◌, refl, List, [], ◌∷◌, arith, get_or}
use sisop2_tf.Data.{UserType, TweetData, PendingTweet}
use sisop2_tf.Database.Users.{find_user}
use sisop2_tf.Database.Tests.{ana, tables}
use sisop2_tf.Files.Save.{save_list_of_pending_tweets}
use sisop2_tf.Stream.{open_file}
use sisop2_tf.Files.Rounds.{GoesOn, user_rounds}
use sisop2_tf.Files.Records.{u64_max, read_user}
use sisop2_tf.Stream.{read_number, scan_number, scan_magnitude, scan_digits, skip_spaces}
use sisop2_tf.Files.Ending.{Course, load_list_of_users-ends, load_list_of_users-never}
use sisop2_tf.Files.Load.{Junk, load_list_of_pending_tweets}
use sisop2_tf.Files.Damage.{load-save_list_of_pending_tweets_loses}

-- `n` times the byte `c`.
abbrev filled : ℕ → ℕ → List ℕ
filled zero c = []
filled (suc n) c = c ∷ filled n c

abbrev entry : PendingTweet
entry = record { user_author = 0; tweet_id = 4 }

abbrev tweet : TweetData
tweet = record {
  author_id = 0;
  tweet_id = 4;
  timestamp = 9;
  payload = filled 256 104;
  num_recipients_remaining = 1;
}

abbrev ana_user : UserType
ana_user = record { user_name = ana; user_id = 0 }

abbrev junk : Junk
junk = record { user_id = 8; number = 8; tweet = tweet; pending = entry }

load-save_list_of_pending_tweets_loses_example :
    let loaded =
      (load_list_of_pending_tweets junk
        (save_list_of_pending_tweets ((entry ∷ []) ∷ (entry ∷ entry ∷ []) ∷ [] ∷ []))).0 in
    (get_or loaded 0 [] ≡ entry ∷ []) × (get_or loaded 1 [] ≡ [])
load-save_list_of_pending_tweets_loses_example =
    load-save_list_of_pending_tweets_loses junk entry (entry ∷ entry ∷ []) ([] ∷ [])
      (omega arith, omega arith) (omega arith) (omega arith)

nobody_found : find_user (120 ∷ []) tables.list_of_users ≡ none
unfolding find_user str_eq
nobody_found = refl

load_list_of_users-ends_example : Course 4 junk (open_file (b'1' ∷ b'x' ∷ []))
load_list_of_users-ends_example = load_list_of_users-ends junk (b'1' ∷ b'x' ∷ [])

load_list_of_users-never_example : GoesOn 7 junk (open_file (b'x' ∷ b'1' ∷ []))
load_list_of_users-never_example = load_list_of_users-never 7 junk b'x' (b'1' ∷ []) refl refl refl

-- A negative size is a great one, which no string can have.
thrown_at_once : user_rounds 1 junk (open_file (b'-' ∷ b'1' ∷ b'a' ∷ b'0' ∷ b'.' ∷ [])) ≡ none
unfolding user_rounds read_user read_number scan_number scan_magnitude scan_digits skip_spaces
thrown_at_once = refl

-- A plus sign is skipped.
sign_skipped :
    read_number u64_max 0 (open_file (b'+' ∷ b'1' ∷ b'a' ∷ [])) ≡ (1, open_file (b'a' ∷ []))
unfolding read_number scan_number scan_magnitude scan_digits skip_spaces
sign_skipped = refl

-- ===== src/Data.antt =====
-- The records of the server's tables: `userType`, `tweetData`, `pendingTweet` and
-- `connectionTrackerType` (src/main_server.cpp). Strings and `char` arrays are lists of bytes.
use sisop2_tf.Base.{ℕ, List, ◌-◌, ◌^◌}

pub record UserType : Type 0 where
  pub user_name : List ℕ
  pub user_id : ℕ

-- `payload` is the whole array of 256 bytes.
pub record TweetData : Type 0 where
  pub author_id : ℕ
  pub tweet_id : ℕ
  pub timestamp : ℕ
  pub payload : List ℕ
  pub num_recipients_remaining : ℕ

pub record PendingTweet : Type 0 where
  pub user_author : ℕ
  pub tweet_id : ℕ

pub record ConnectionTrackerType : Type 0 where
  pub user_id : ℕ
  pub num_connections : ℕ

-- The `int` -1, by which `getUserIndex` reports an unknown name. An `int` is its 32-bit pattern, so
-- that its conversion to `uint32_t` changes nothing.
abbrev pub minus_one : ℕ
minus_one = 2 ^ 32 - 1

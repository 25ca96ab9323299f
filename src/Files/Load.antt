-- ===== src/Files/Load.antt =====
-- `loadListOfUsers`, `loadListOfFollowers`, `loadListOfPendingTweets`, `loadListOfReceivedTweets` and
-- `loadDatabase` (src/main_server.cpp). `Junk` stands for what uninitialised variables hold.
use sisop2_tf.Base.{
  ℕ, zero, suc, Bool, true, false, Option, none, some, List, [], ◌∷◌, ◌>>=◌, ◌>>◌, pure, or_fault,
  leb, if◌then◌else◌, ◌≤◌, ◌≡◌, arith,
}
use sisop2_tf.Data.{UserType, TweetData, PendingTweet}
use sisop2_tf.Stream.{IStream, open_file, read_number, read_char, int_max}
use sisop2_tf.Database.State.{Action, p, v, query_try, db_access_sem, change}
use sisop2_tf.Files.Records.{read_user, read_tweet, read_pending}
use sisop2_tf.Files.Save.{FileSet}

pub record Junk : Type 0 where
  pub user_id : ℕ
  pub number : ℕ
  pub tweet : TweetData
  pub pending : PendingTweet

-- The loop `while(!file_obj.eof())`; `none` means that the fuel ran out, or that
-- an exception ended the program.
unfoldable pub load_users : ℕ → Junk → IStream → Option (List UserType)
load_users zero junk s = none
load_users (suc fuel) junk s = elim s.eof [
  | true ↦ some []
  | false ↦ elim (read_user (record { user_name = []; user_id = junk.user_id }) s) [
    | none ↦ none
    | some (u, s') ↦ elim (load_users fuel junk s') [ none ↦ none | some us ↦ some (u ∷ us) ]
  ]
]

unfoldable pub load_list_of_users : ℕ → Junk → List ℕ → Option (List UserType)
load_list_of_users fuel junk bytes = load_users fuel junk (open_file bytes)

-- A loop that reads `n` items.
unfoldable pub read_each {ℓ} :
    {A : Type ℓ} → (IStream → A × IStream) → ℕ → IStream → List A × IStream
read_each item zero s = ([], s)
read_each item (suc n) s =
    let (x, s') = item s in let (xs, s'') = read_each item n s' in (x ∷ xs, s'')

-- The rounds of a loop up to an `int`: none for a negative one.
abbrev pub rounds_of : ℕ → ℕ
rounds_of n = if leb n int_max then n else 0

pub rounds_of-fits : (n : ℕ) → n ≤ int_max → rounds_of n ≡ n
rounds_of-fits n h = ground (arith, h)

-- A count with its separator, and as many items.
abbrev pub read_counted {ℓ} :
    {A : Type ℓ} → Junk → (IStream → A × IStream) → IStream → List A × IStream
read_counted junk item s =
    let (n, s₁) = read_number int_max junk.number s in
    let (c, s₂) = read_char 0 s₁ in read_each item (rounds_of n) s₂

-- An item with the separator behind it.
abbrev pub read_ended {ℓ} : {A : Type ℓ} → (IStream → A × IStream) → IStream → A × IStream
read_ended item s = let (x, s₁) = item s in let (c, s₂) = read_char 0 s₁ in (x, s₂)

unfoldable pub load_list_of_followers : Junk → List ℕ → List (List ℕ) × IStream
load_list_of_followers junk bytes =
    read_counted junk (read_counted junk (read_ended (read_number int_max junk.number)))
      (open_file bytes)

unfoldable pub load_list_of_pending_tweets : Junk → List ℕ → List (List PendingTweet) × IStream
load_list_of_pending_tweets junk bytes =
    read_counted junk (read_counted junk (read_ended (read_pending junk.pending))) (open_file bytes)

unfoldable pub load_list_of_received_tweets : Junk → List ℕ → List (List TweetData) × IStream
load_list_of_received_tweets junk bytes =
    read_counted junk (read_counted junk (read_ended (read_tweet junk.tweet))) (open_file bytes)

-- The lists are cleared first; `numTweets` keeps its value. Without enough fuel the loop over the
-- users is taken not to end.
unfoldable pub load_database : ℕ → Junk → FileSet → Action Bool
load_database fuel junk files = do
  p query_try
  p db_access_sem
  users ← or_fault (load_list_of_users fuel junk files.list_of_users)
  change λ t. record t {
    list_of_followers = (load_list_of_followers junk files.list_of_followers).0;
    list_of_pending_tweets = (load_list_of_pending_tweets junk files.pending_tweets).0;
    list_of_received_tweets = (load_list_of_received_tweets junk files.received_tweets).0;
    list_of_users = users;
  }
  v db_access_sem
  v query_try
  pure true

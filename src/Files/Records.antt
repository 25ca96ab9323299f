-- ===== src/Files/Records.antt =====
-- `operator<<` and `operator>>` of `userType`, `tweetData` and `pendingTweet` (src/main_server.cpp).
use sisop2_tf.Base.{
  ℕ, zero, suc, ◌-◌, ◌^◌, List, [], ◌∷◌, ◌++◌, length, take, leb, Option, none, some, if◌then◌else◌,
}
use sisop2_tf.Data.{UserType, TweetData, PendingTweet}
use sisop2_tf.Stream.{IStream, show_nat, read_number, read_char, read_bytes}

abbrev pub dot : List ℕ
dot = b'.' ∷ []

unfoldable pub show_user : UserType → List ℕ
show_user u = show_nat (length u.user_name) ++ (u.user_name ++ (show_nat u.user_id ++ dot))

unfoldable pub show_tweet : TweetData → List ℕ
show_tweet w =
    show_nat w.author_id
    ++ (dot
        ++ (show_nat w.tweet_id
            ++ (dot
                ++ (show_nat w.timestamp
                    ++ (dot
                        ++ (w.payload ++ (dot ++ (show_nat w.num_recipients_remaining ++ dot))))))))

unfoldable pub show_pending : PendingTweet → List ℕ
show_pending e = show_nat e.tweet_id ++ (dot ++ (show_nat e.user_author ++ dot))

abbrev pub u32_max : ℕ
u32_max = 2 ^ 32 - 1

abbrev pub u64_max : ℕ
u64_max = 2 ^ 64 - 1

unfoldable pub zeros : ℕ → List ℕ
zeros zero = []
zeros (suc n) = 0 ∷ zeros n

-- The greatest size of a `std::string`: that of libstdc++ on 64 bits, where a newer release lets a greater
-- size pass, for which there is no memory then.
abbrev pub string_max : ℕ
string_max = 2 ^ 62 - 1

-- `std::string::resize` to a size that a string can have.
abbrev pub resize : ℕ → List ℕ → List ℕ
resize n xs = take n xs ++ zeros (n - length xs)

-- The readers take the record that they overwrite; what they cannot read stays.
unfoldable pub fill_user : UserType → IStream → UserType × IStream
unfolding zeros
fill_user u s =
    let (name_size, s₁) = read_number u64_max 0 s in
    let (name, s₂) = read_bytes name_size (resize name_size u.user_name) s₁ in
    let (id, s₃) = read_number u32_max u.user_id s₂ in
    let (temp, s₄) = read_char 0 s₃ in (record { user_name = name; user_id = id }, s₄)

-- `none` means that `resize` throws `std::length_error`.
unfoldable pub read_user : UserType → IStream → Option (UserType × IStream)
read_user u s = if leb (read_number u64_max 0 s).0 string_max then some (fill_user u s) else none

unfoldable pub read_tweet : TweetData → IStream → TweetData × IStream
read_tweet w s =
    let (author, s₁) = read_number u32_max w.author_id s in
    let (c₁, s₂) = read_char 0 s₁ in
    let (id, s₃) = read_number u64_max w.tweet_id s₂ in
    let (c₂, s₄) = read_char c₁ s₃ in
    let (time, s₅) = read_number u64_max w.timestamp s₄ in
    let (c₃, s₆) = read_char c₂ s₅ in
    let (bytes, s₇) = read_bytes 256 w.payload s₆ in
    let (c₄, s₈) = read_char c₃ s₇ in
    let (recipients, s₉) = read_number u32_max w.num_recipients_remaining s₈ in
    let (c₅, s₁₀) = read_char c₄ s₉ in
    (
      record {
        author_id = author;
        tweet_id = id;
        timestamp = time;
        payload = bytes;
        num_recipients_remaining = recipients;
      },
      s₁₀,
    )

unfoldable pub read_pending : PendingTweet → IStream → PendingTweet × IStream
read_pending e s =
    let (id, s₁) = read_number u64_max e.tweet_id s in
    let (c₁, s₂) = read_char 0 s₁ in
    let (author, s₃) = read_number u32_max e.user_author s₂ in
    let (c₂, s₄) = read_char c₁ s₃ in (record { user_author = author; tweet_id = id }, s₄)

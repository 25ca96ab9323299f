-- ===== src/Connections/Limit.antt =====
-- `registerConnection` and `closeConnection` (src/main_server.cpp) against the numbers of sessions.
use sisop2_tf.Base.{
  ℕ, suc, ◌-◌, ◌<◌, ◌≡◌, refl, sym, ◌≢◌, subst, ◌+◌, ◌%◌, ◌^◌, inl, inr, requires, ◌>>=◌, Bool,
  ◌&&◌, List, [], ◌∷◌, none, some, arith, ltb, ◌==◌, if◌then◌else◌, length, length-append,
  length-update_at, length-erase_at, Option-cases, Bool-cases, lt→ltb, Returns,
}
use sisop2_tf.Data.{TweetData, ConnectionTrackerType}
use sisop2_tf.Connections.{
  ConnectionManager, register_connection, close_connection, register_at, close_at, find_index,
  raise_count, lower_count,
}
use sisop2_tf.Connections.Count.{
  count, IsTracked, count_le_two, find_index-none, find_index-some, find_index_pos, count-update_at,
  IsTracked-update_at, count-append, IsTracked-append, count-erase_at, IsTracked-erase_at,
}

abbrev pub Users : Type 0
Users = List ConnectionTrackerType

abbrev pub Kept : Type 0
Kept = List (List TweetData)

-- A manager whose semaphore is free.
abbrev pub at_rest : List ConnectionTrackerType → List (List TweetData) → ConnectionManager
at_rest us ds = record {
  access_db = 1;
  list_of_connected_users = us;
  list_of_duplicated_tweets = ds;
}

-- The semaphore is free, the entries are sound, and each has its list of kept tweets.
pub record IsValid (s : ConnectionManager) : Type 0 where
  pub free : s.access_db ≡ 1
  pub tracked : IsTracked s.list_of_connected_users
  pub paired : length s.list_of_duplicated_tweets ≡ length s.list_of_connected_users

abbrev pub sessions : ConnectionManager → ℕ → ℕ
sessions s id = count id s.list_of_connected_users

abbrev raise : ℕ → ℕ
raise n = (n + 1) % 2 ^ 8

abbrev lower : ℕ → ℕ
lower n = (n + 2 ^ 8 - 1) % 2 ^ 8

-- What a registration owes, given whether it was accepted.
abbrev pub Registers : ℕ → ConnectionManager → Bool → ConnectionManager → Type 0
Registers id s accepted t =
    IsValid t
    × (accepted ≡ ltb (sessions s id) 2)
    × ((j : ℕ) → sessions t j ≡ (if id == j && accepted then suc (sessions s j) else sessions s j))

-- What a closing owes, given what it reported.
abbrev pub Closes : ℕ → ConnectionManager → Bool → ConnectionManager → Type 0
Closes id s closed t =
    IsValid t
    × (closed ≡ ltb 0 (sessions s id))
    × ((j : ℕ) → sessions t j ≡ (if id == j then sessions s j - 1 else sessions s j))

module _ (id : ℕ) (us : Users) (ds : Kept) (v : IsValid (at_rest us ds)) where
  register_new :
      find_index id us ≡ none
      → Returns
          (register_at id none (record (at_rest us ds) { access_db = 0 }))
          (Registers id (at_rest us ds))
  unfolding register_at
  register_new e =
      let absent = find_index-none id us e in
      let fresh : ConnectionTrackerType = record { user_id = id; num_connections = 1 } in
      (
        record {
          free = refl;
          tracked = IsTracked-append id us absent v.tracked;
          paired =
              ground (arith, v.paired, length-append ds ([] ∷ []), length-append us (fresh ∷ []));
        },
        ground (arith, absent),
        λ j. ground (arith, absent, count-append j id 1 us absent v.tracked),
      )

  register_known :
      (i : ℕ)
      → find_index id us ≡ some i
      → Returns
          (register_at id (some i) (record (at_rest us ds) { access_db = 0 }))
          (Registers id (at_rest us ds))
  unfolding register_at
  register_known i e =
      let pos = find_index_pos id i us v.tracked e in
      rw ((find_index-some id i us e).1) (elim (Bool-cases (ltb (count id us) 2)) [
        | inl room ↦ rw room (
          record {
            free = refl;
            tracked = ground (arith, pos, IsTracked-update_at id i raise us e, v.tracked);
            paired = ground (arith, v.paired, length-update_at i raise_count us);
          },
          sym room,
          λ j. ground (arith, count-update_at id i j raise us e),
        )
        | inr full ↦ rw full (v, sym full, λ j. ground arith)
      ])

  close_absent :
      find_index id us ≡ none
      → Returns
          (close_at none (record (at_rest us ds) { access_db = 0 }))
          (Closes id (at_rest us ds))
  unfolding close_at
  close_absent e =
      let absent = find_index-none id us e in
      (v, ground (arith, absent), λ j. ground (arith, absent))

  close_known :
      (i : ℕ)
      → find_index id us ≡ some i
      → Returns
          (close_at (some i) (record (at_rest us ds) { access_db = 0 }))
          (Closes id (at_rest us ds))
  unfolding close_at
  close_known i e =
      let pos = find_index_pos id i us v.tracked e in
      let at_most = count_le_two id us v.tracked in
      let (inside, same) = find_index-some id i us e in
      let inside' : i < length ds = omega (arith, inside, v.paired) in
      rw (lt→ltb i (length ds) inside', requires, ◌>>=◌, same)
        (elim (Bool-cases (count id us == 2)) [
          | inl two ↦ rw two (
            record {
              free = refl;
              tracked = ground (arith, pos, IsTracked-update_at id i lower us e, v.tracked);
              paired = ground (
                arith,
                v.paired,
                length-update_at i lower_count us,
                length-update_at i (λ (ts : List TweetData). []) ds,
              );
            },
            ground arith,
            λ j. ground (arith, count-update_at id i j lower us e),
          )
          | inr one ↦ rw one (
            record {
              free = refl;
              tracked = IsTracked-erase_at id i us e v.tracked;
              paired =
                  ground
                    (arith, v.paired, inside, inside', length-erase_at i us, length-erase_at i ds);
            },
            ground arith,
            λ j. ground (arith, count-erase_at id i j us e v.tracked),
          )
        ])

  register_at_rest : Returns (register_connection id (at_rest us ds)) (Registers id (at_rest us ds))
  unfolding register_connection
  register_at_rest = elim (Option-cases (find_index id us)) [
    | inl e ↦ rw e (register_new e)
    | inr (i, e) ↦ rw e (register_known i e)
  ]

close_at_rest :
    (id : ℕ) (us : Users) (ds : Kept)
    → IsValid (at_rest us ds)
    → us ≢ []
    → Returns (close_connection id (at_rest us ds)) (Closes id (at_rest us ds))
unfolding close_connection
close_at_rest id [] ds v h = absurd (h refl)
close_at_rest id (u ∷ us) ds v h = elim (Option-cases (find_index id (u ∷ us))) [
  | inl e ↦
      rw (lt→ltb 0 (suc (length us)) (omega arith), requires, ◌>>=◌, e)
        (close_absent id (u ∷ us) ds v e)
  | inr (i, e) ↦
      rw (lt→ltb 0 (suc (length us)) (omega arith), requires, ◌>>=◌, e)
        (close_known id (u ∷ us) ds v i e)
]

pub at_rest-eq :
    (s : ConnectionManager)
    → s.access_db ≡ 1
    → at_rest s.list_of_connected_users s.list_of_duplicated_tweets ≡ s
at_rest-eq s h = λ i. record {
  access_db = sym h i;
  list_of_connected_users = s.list_of_connected_users;
  list_of_duplicated_tweets = s.list_of_duplicated_tweets;
}

-- On a valid manager `registerConnection` returns, keeps it valid, succeeds exactly when the user
-- has fewer than two sessions, and then adds one session of that user and of nobody else; a
-- refused one adds none.
pub register_connection-Registers :
    (id : ℕ) (s : ConnectionManager)
    → IsValid s
    → Returns (register_connection id s) (Registers id s)
register_connection-Registers id s v =
    subst (λ t. IsValid t → Returns (register_connection id t) (Registers id t))
      (at_rest-eq s v.free) (register_at_rest id _ _) v

-- On a valid manager with some connected user `closeConnection` returns, keeps it valid, reports
-- whether the given user had a session, and takes one session from that user and none from others.
pub close_connection-Closes :
    (id : ℕ) (s : ConnectionManager)
    → IsValid s
    → s.list_of_connected_users ≢ []
    → Returns (close_connection id s) (Closes id s)
close_connection-Closes id s v h =
    subst
      (λ t.
        IsValid t → t.list_of_connected_users ≢ [] → Returns (close_connection id t) (Closes id t))
      (at_rest-eq s v.free) (close_at_rest id _ _) v h

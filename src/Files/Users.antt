-- ===== src/Files/Users.antt =====
-- `loadListOfUsers` (src/main_server.cpp) on what `saveListOfUsers` wrote.
use sisop2_tf.Base.{
  ℕ, zero, suc, ◌+◌, ◌≤◌, ◌<◌, ◌≡◌, refl, sym, ap, ◌∙◌, List, [], ◌∷◌, ◌++◌, some, arith, length,
  append-nil, append_assoc, All,
}
use sisop2_tf.Data.{UserType}
use sisop2_tf.Stream.{open_file, read_number, read_char, read_bytes}
use sisop2_tf.Files.Records.{u32_max, show_user, fill_user, read_user}
use sisop2_tf.Files.Save.{write_each, save_list_of_users}
use sisop2_tf.Files.Load.{Junk, load_users, load_list_of_users}
use sisop2_tf.Files.RoundTrip.{IsName, read_user-show_user}

abbrev pub IsWritable : UserType → Type 0
IsWritable u = IsName u.user_name × (u.user_id ≤ u32_max)

-- The user that the last round of the loop makes up at the end of the file.
abbrev pub ghost : Junk → UserType
ghost junk = record { user_name = []; user_id = junk.user_id }

load_users_end :
    (fuel : ℕ) (junk : Junk)
    → load_users (suc (suc fuel)) junk (open_file []) ≡ some (ghost junk ∷ [])
unfolding load_users read_user fill_user read_number read_bytes read_char
load_users_end fuel junk = refl

load_users_step :
    (fuel : ℕ) (junk : Junk) (u : UserType) (bytes rest : List ℕ) (us : List UserType)
    → read_user (ghost junk) (open_file bytes) ≡ some (u, open_file rest)
    → load_users fuel junk (open_file rest) ≡ some us
    → load_users (suc fuel) junk (open_file bytes) ≡ some (u ∷ us)
unfolding load_users
load_users_step fuel junk u bytes rest us p q = ground (arith, p, q)

load_users-write_each :
    (fuel : ℕ) (junk : Junk) (us : List UserType)
    → length us + 1 < fuel
    → All IsWritable us
    → load_users fuel junk (open_file (write_each show_user us ++ []))
      ≡ some (us ++ ghost junk ∷ [])
unfolding write_each
load_users-write_each zero junk us h k = absurd (omega arith)
load_users-write_each (suc zero) junk us h k = absurd (omega arith)
load_users-write_each (suc (suc fuel)) junk [] h k = load_users_end fuel junk
load_users-write_each (suc (suc fuel)) junk (u ∷ us) h k = rw append_assoc (
    load_users_step (suc fuel) junk u _ (write_each show_user us ++ []) _
      (read_user-show_user u junk.user_id _ k.0.0 k.0.1)
      (load_users-write_each (suc fuel) junk us (omega arith) k.1))

-- With fuel for two rounds more than there are users, `loadListOfUsers` brings back all users that
-- `saveListOfUsers` wrote, in order, and one more without a name, if every name is not empty, begins
-- with no digit and has a length that a string can have, and every id fits its type.
pub load-save_list_of_users :
    (fuel : ℕ) (junk : Junk) (us : List UserType)
    → length us + 1 < fuel
    → All IsWritable us
    → load_list_of_users fuel junk (save_list_of_users us) ≡ some (us ++ ghost junk ∷ [])
unfolding load_list_of_users save_list_of_users
load-save_list_of_users fuel junk us h k =
    ap (λ bytes. load_users fuel junk (open_file bytes))
      (sym (append-nil (write_each show_user us)))
    ∙ load_users-write_each fuel junk us h k

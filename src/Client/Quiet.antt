-- ===== src/Client/Quiet.antt =====
-- The client's code (src/Client.cpp) that neither reads from the server nor prints.
use sisop2_tf.Base.{
  Leaves, Leaves->>=, Leaves-or_fault, ℕ, ◌≡◌, Bool, true, false, List, [], ◌∷◌, ◌++◌, Option, none,
  some, if◌then◌else◌, ok, blocked, pure, ◌>>=◌, ◌>>◌, Bool-cases, inl, inr, ◌==◌, str_eq,
}
use sisop2_tf.Message.{update, follow, keep_alive, Message, new_message}
use sisop2_tf.Client.Shell.{
  Contact, Search, found, nowhere, ended, hanging, broken, Shell, Action, look_for_server,
  search_with, after_search, find_server,
}
use sisop2_tf.Client.Sender.{
  read_payload, read_lines, text_of, update_command, follow_command, send_message, send_until,
  client_sender, check_server_liveness,
}

-- Code that neither reads nor prints.
abbrev pub Same : Shell → Shell → Type 0
Same w t = (t.reads ≡ w.reads) × (t.printed ≡ w.printed)

after_search-Same :
    (v : Shell) (o : Search) (w : Shell) → Same v w → Leaves (Same v) (after_search o w)
after_search-Same v (found i s) w h = h
after_search-Same v nowhere w h = h
after_search-Same v ended w h = h
after_search-Same v hanging w h = h
after_search-Same v broken w h = tt

search_with-Same :
    (v : Shell) (contacts : List (List Contact)) (w : Shell)
    → Same v w
    → Leaves (Same v) (search_with contacts w)
search_with-Same v [] w h = h
search_with-Same v (cs ∷ rest) w h =
    after_search-Same v (find_server cs w.client) (record w { contacts = rest }) h

pub look_for_server-Same : (v w : Shell) → Same v w → Leaves (Same v) (look_for_server w)
unfolding look_for_server
look_for_server-Same v w h = search_with-Same v w.contacts w h

if_go-Same :
    (v w : Shell) (go : Bool) (rest : Action Bool)
    → Same v w
    → ((t : Shell) → Same v t → Leaves (Same v) (rest t))
    → Leaves (Same v) ((if go then rest else pure false) w)
if_go-Same v w true rest h k = k w h
if_go-Same v w false rest h k = h

send_until-Same :
    (v : Shell) (m : Message) (errors : List ℕ) (w : Shell)
    → Same v w
    → Leaves (Same v) (send_until m errors w)
unfolding send_until
send_until-Same v m [] w h = h
send_until-Same v m (e ∷ es) w h = elim (Bool-cases (e == 0)) [
  | inl fine ↦ rw fine h
  | inr fails ↦ rw fails (
      Leaves->>= (Same v) (Same v) (λ go. if go then send_until m es else pure false)
        look_for_server (record w { errors = es; sent = w.sent ++ m ∷ [] })
        (look_for_server-Same v (record w { errors = es; sent = w.sent ++ m ∷ [] }) h)
        (λ t same. same)
        (λ go t same.
          if_go-Same v t go (send_until m es) same (λ u same'. send_until-Same v m es u same')))
]

pub check_server_liveness-Same :
    (blank : Message) (now : ℕ) (v w : Shell)
    → Same v w
    → Leaves (Same v) (check_server_liveness blank now w)
unfolding check_server_liveness
check_server_liveness-Same blank now v w h =
    Leaves-or_fault (Same v) (new_message blank keep_alive now w.username)
      (λ m u. send_until m u.errors u) w λ m made. send_until-Same v m w.errors w h

payload_then-Same :
    {A : Type 0} (v : Shell) (k : List ℕ → Action A) (w : Shell)
    → Same v w
    → ((line : List ℕ) (t : Shell) → Same v t → Leaves (Same v) (k line t))
    → Leaves (Same v) ((read_payload >>= k) w)
payload_then-Same v k w h cont =
    Leaves->>= (Same v) (Same v) k read_payload w (read (read_lines w.input)) (λ t same. same) cont
  where
    read :
        (o : Option (List ℕ × List (List ℕ)))
        → Leaves (Same v) (elim o [
          | none ↦ blocked (record w { input = [] })
          | some (line, rest) ↦ ok line (record w { input = rest })
        ])
    read none = h
    read (some (line, rest)) = h

send_once-Same :
    (v : Shell) (m : Message) (w : Shell)
    → Same v w
    → Leaves (Same v) ((send_message m >> pure true) w)
send_once-Same v m w h =
    Leaves->>= (Same v) (Same v) (λ e. pure true) (send_message m) w (sent w.errors)
      (λ t same. same) (λ e t same. same)
  where
    sent :
        (es : List ℕ)
        → Leaves (Same v) (elim es [
          | [] ↦ blocked w
          | e ∷ es' ↦ ok e (record w { errors = es'; sent = w.sent ++ m ∷ [] })
        ])
    sent [] = h
    sent (e ∷ es) = h

pub client_sender-Same :
    (blank : Message) (now : ℕ) (command : List ℕ) (v w : Shell)
    → Same v w
    → Leaves (Same v) (client_sender blank now command w)
unfolding client_sender
client_sender-Same blank now command v w h = elim (Bool-cases (str_eq command update_command)) [
  | inl is_update ↦ rw is_update (
      payload_then-Same v _ w h λ line t same.
        Leaves-or_fault (Same v) (new_message blank update now (text_of line))
          (λ m u. send_until m u.errors u) t λ m made. send_until-Same v m t.errors t same)
  | inr other ↦ rw other (elim (Bool-cases (str_eq command follow_command)) [
    | inl is_follow ↦ rw is_follow (
        payload_then-Same v _ w h λ line t same.
          Leaves-or_fault (Same v) (new_message blank follow now (text_of line))
            (λ m. send_message m >> pure true) t λ m made. send_once-Same v m t same)
    | inr unknown ↦ rw unknown h
  ])
]

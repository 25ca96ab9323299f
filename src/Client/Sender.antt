-- ===== src/Client/Sender.antt =====
-- `client_sender` and `check_server_liveness` (src/Client.cpp).
use sisop2_tf.Base.{
  ℕ, Bool, true, false, List, [], ◌∷◌, ◌++◌, Option, none, some, ◌==◌, if◌then◌else◌, str_eq, ok,
  blocked, pure, or_fault, ◌>>=◌, ◌>>◌,
}
use sisop2_tf.Message.{update, follow, keep_alive, Message, new_message, c_str, or_empty}
use sisop2_tf.Client.Shell.{Action, look_for_server}

-- `c_str()` of a `std::string`, as `strcpy` and the constructor of another string read it.
abbrev pub text_of : List ℕ → List ℕ
text_of s = or_empty (c_str (s ++ 0 ∷ []))

-- The loop that reads lines until one has a character; at the end of the input it reads on for ever.
unfoldable pub read_lines : List (List ℕ) → Option (List ℕ × List (List ℕ))
read_lines [] = none
read_lines ([] ∷ ls) = read_lines ls
read_lines ((c ∷ cs) ∷ ls) = some (c ∷ cs, ls)

abbrev pub read_payload : Action (List ℕ)
read_payload w = elim (read_lines w.input) [
  | none ↦ blocked (record w { input = [] })
  | some (line, rest) ↦ ok line (record w { input = rest })
]

-- `send_message`: the packet is given to `send`, and the result is the error of the socket.
abbrev pub send_message : Message → Action ℕ
send_message m w = elim w.errors [
  | [] ↦ blocked w
  | e ∷ es ↦ ok e (record w { errors = es; sent = w.sent ++ m ∷ [] })
]

-- The loop that sends until no error is left, with a search for a server after each error; the list is
-- that of the errors to come.
unfoldable pub send_until : Message → List ℕ → Action Bool
send_until m [] w = blocked w
send_until m (e ∷ es) w =
    let rest : Action Bool = send_until m es in
    let w' = record w { errors = es; sent = w.sent ++ m ∷ [] } in
    if e == 0 then ok true w' else (look_for_server >>= λ go. if go then rest else pure false) w'

abbrev pub update_command : List ℕ
update_command = b'U' ∷ b'P' ∷ b'D' ∷ b'A' ∷ b'T' ∷ b'E' ∷ []

abbrev pub follow_command : List ℕ
follow_command = b'F' ∷ b'O' ∷ b'L' ∷ b'L' ∷ b'O' ∷ b'W' ∷ []

-- Whether the program goes on. `blank` is the memory that the packet is built over.
unfoldable pub client_sender : Message → ℕ → List ℕ → Action Bool
client_sender blank now command =
    if str_eq command update_command
    then (do
      payload ← read_payload
      m ← or_fault (new_message blank update now (text_of payload))
      λ w. send_until m w.errors w)
    else (if str_eq command follow_command
        then (do
          payload ← read_payload
          m ← or_fault (new_message blank follow now (text_of payload))
          send_message m
          pure true)
        else pure true)

unfoldable pub check_server_liveness : Message → ℕ → Action Bool
check_server_liveness blank now w =
    (or_fault (new_message blank keep_alive now w.username) >>= λ m u. send_until m u.errors u) w

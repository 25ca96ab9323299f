-- ===== src/Client/Handshake.antt =====
-- The client's side of a sign-in (src/Client.cpp) against the server's (src/main_server.cpp).
use sisop2_tf.Base.{
  ℕ, ◌≡◌, refl, Bool, true, false, List, [], ◌∷◌, ◌++◌, map, Option, some, arith, ◌==◌,
  if◌then◌else◌, length, All, append-nil, append_assoc, not, ◌&&◌, ltb, ap, Returns, Returns-weaken,
}
use sisop2_tf.Stream.{skip_spaces, scan_digits}
use sisop2_tf.Message.{
  MessageType, ack, nack, follow, update, sign_in, reconnect, shutdown_req, dummy_message,
  keep_alive, Message, c_str, strcpy,
}
use sisop2_tf.Data.{minus_one}
use sisop2_tf.Connections.{ConnectionManager}
use sisop2_tf.Connections.Limit.{IsValid, sessions}
use sisop2_tf.Session.State.{Session, World}
use sisop2_tf.Database.State.{Tables}
use sisop2_tf.Session.Connector.{Env, dispatch}
use sisop2_tf.Session.SignIn.{world, index_of, answer, accepts, SignsIn, sign_in-SignsIn}
use sisop2_tf.Client.{atoi, widen, ClientState, connected, exited, wait_loop, wait_server_response}

abbrev is_final : MessageType → Bool
is_final ack = true
is_final nack = true
is_final shutdown_req = true
is_final _ = false

-- A packet that does not end the wait.
abbrev pub IsOther : Message → Type 0
IsOther m = is_final m.type ≡ false

wait_loop_other :
    (type : MessageType) (now : ℕ) (author payload : List ℕ) (other : Bool)
    (ms : List (Option Message)) (s : ClientState)
    → is_final type ≡ false
    → let m : Message = record {
      type = type;
      timestamp = now;
      author = author;
      payload = payload;
    } in
      wait_loop other (some m ∷ ms) s ≡ wait_loop true ms (record s { inbox = s.inbox ++ m ∷ [] })
unfolding wait_loop
wait_loop_other follow now a p other ms s h = refl
wait_loop_other update now a p other ms s h = refl
wait_loop_other sign_in now a p other ms s h = refl
wait_loop_other dummy_message now a p other ms s h = refl
wait_loop_other reconnect now a p other ms s h = refl
wait_loop_other keep_alive now a p other ms s h = refl
wait_loop_other ack now a p other ms s h = absurd (ground (arith, h))
wait_loop_other nack now a p other ms s h = absurd (ground (arith, h))
wait_loop_other shutdown_req now a p other ms s h = absurd (ground (arith, h))

-- The state of a client that is connected after these packets.
abbrev pub after_ack : Bool → List Message → ℕ → ClientState → ClientState
after_ack other ms n s = record {
  inbox = s.inbox ++ ms;
  inbox_has_item = if other then true else (if length ms == 0 then s.inbox_has_item else true);
  uid = widen n;
}

wait_loop-after_ack :
    (other : Bool) (ms : List Message) (m : Message) (text : List ℕ) (n : ℕ)
    (rest : List (Option Message)) (s : ClientState)
    → All IsOther ms
    → m.type ≡ ack
    → c_str m.payload ≡ some text
    → atoi text ≡ some n
    → wait_loop other (map some ms ++ some m ∷ rest) s ≡ connected (after_ack other ms n s)
unfolding wait_loop
wait_loop-after_ack other [] m text n rest s h is_ack has_text number =
    ground (arith, is_ack, has_text, number, append-nil s.inbox)
wait_loop-after_ack other (x ∷ ms) m text n rest s h is_ack has_text number = ground (
  arith,
  wait_loop_other x.type x.timestamp x.author x.payload other (map some ms ++ some m ∷ rest) s h.0,
  wait_loop-after_ack true ms m text n rest (record s { inbox = s.inbox ++ x ∷ [] }) h.1 is_ack
      has_text number,
  append_assoc s.inbox (x ∷ []) ms,
)

-- When packets of other types and then an ACK are received, and the text of the ACK is a number, the
-- wait for the server ends connected: the other packets are in the inbox in their order, marked if
-- there were any, and the user id is the number of the ACK.
pub wait_server_response-after_ack :
    (ms : List Message) (m : Message) (text : List ℕ) (n : ℕ) (rest : List (Option Message))
    (s : ClientState)
    → All IsOther ms
    → m.type ≡ ack
    → c_str m.payload ≡ some text
    → atoi text ≡ some n
    → wait_server_response (map some ms ++ some m ∷ rest) s ≡ connected (after_ack false ms n s)
unfolding wait_server_response
wait_server_response-after_ack ms m text n rest s h is_ack has_text number =
    wait_loop-after_ack false ms m text n rest s h is_ack has_text number

atoi_at : (name : List ℕ) → atoi (b'@' ∷ name) ≡ some 0
unfolding atoi skip_spaces scan_digits
atoi_at name = refl

-- The answer, as the client takes it.
answer-taken :
    (env : Env) (accepted : Bool) (name bytes : List ℕ) (k : ClientState)
    → c_str bytes ≡ some (b'@' ∷ name)
    → wait_server_response (some (answer env accepted bytes) ∷ []) k
      ≡ (if accepted then connected (record k { uid = 0 }) else exited k)
unfolding wait_server_response wait_loop
answer-taken env true name bytes k text = ground (arith, text, atoi_at name)
answer-taken env false name bytes k text = refl

-- What a sign-in at the server owes the client: one packet, by which the client is connected with the
-- user id 0 if the name is a user's with fewer than two sessions, and by which its program ends else.
abbrev pub Answers : Tables → ConnectionManager → Session → List ℕ → ClientState → World → Type 0
Answers t c s name k w =
    (p : Message) × (w.session.sent ≡ s.sent ++ p ∷ [])
    × (wait_server_response (some p ∷ []) k ≡ (
        if not (index_of t name == minus_one) && ltb (sessions c (index_of t name)) 2
        then connected (record k { uid = 0 })
        else exited k))

-- When the server, which is not shutting down and can write to the client, handles a SIGN_IN packet
-- whose name begins with `@` and fits the packets, it writes one packet; a client that receives it is
-- connected exactly when the name belongs to a user with fewer than two sessions, and always with the
-- user id 0, whatever the server's index for the name is; else its program ends.
pub dispatch-wait_server_response :
    (env : Env) (t : Tables) (c : ConnectionManager) (s : Session) (m : Message)
    (name bytes : List ℕ) (k : ClientState)
    → env.server_shutdown_notice ≡ false
    → env.alive ≡ true
    → IsValid c
    → m.type ≡ sign_in
    → c_str m.payload ≡ some (b'@' ∷ name)
    → strcpy env.blank.payload (b'@' ∷ name) ≡ some bytes
    → c_str bytes ≡ some (b'@' ∷ name)
    → Returns (dispatch env m (world t c s)) (λ _ w. Answers t c s (b'@' ∷ name) k w)
dispatch-wait_server_response env t c s m name bytes k up alive v is_sign_in text fits copied =
    Returns-weaken (λ _ w. SignsIn env t c s (b'@' ∷ name) bytes w) _ _
      (sign_in-SignsIn env t c s m (b'@' ∷ name) bytes up alive v is_sign_in text fits)
      λ _ w (d, same, facts). (
        answer env (accepts t c (b'@' ∷ name)) bytes,
        ap (λ u. u.session.sent) same,
        answer-taken env (accepts t c (b'@' ∷ name)) name bytes k copied,
      )

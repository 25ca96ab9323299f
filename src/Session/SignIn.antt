-- ===== src/Session/SignIn.antt =====
-- `SIGN_IN` (src/main_server.cpp): who is let in, and what becomes of who is not.
use sisop2_tf.Base.{
  ℕ, ◌≡◌, refl, sym, subst, ◌∙◌, Bool, true, false, not, ◌&&◌, some, List, [], ◌∷◌, ◌++◌, arith,
  ltb, ◌==◌, if◌then◌else◌, ok, ◌>>=◌, Returns, Returns-ok, Returns->>=,
}
use sisop2_tf.Data.{minus_one}
use sisop2_tf.Message.{Message, ack, nack, sign_in, c_str, strcpy, new_message}
use sisop2_tf.Connections.{ConnectionManager, register_connection}
use sisop2_tf.Connections.Limit.{
  IsValid, sessions, Registers, Closes, register_connection-Registers, close_connection-Closes,
}
use sisop2_tf.Connections.Refusal.{users_ne_nil}
use sisop2_tf.Database.State.{Tables, at_rest}
use sisop2_tf.Database.Users.{find_user, index_result, get_user_index}
use sisop2_tf.Session.State.{Session, World}
use sisop2_tf.Session.Connector.{Env, sign_in_client, dispatch, tear_down}

abbrev pub world : Tables → ConnectionManager → Session → World
world t c s = record { server = at_rest t c; session = s }

-- The place of a name among the users, as `getUserIndex` reports it.
abbrev pub index_of : Tables → List ℕ → ℕ
index_of t name = index_result (find_user name t.list_of_users)

abbrev pub accepts : Tables → ConnectionManager → List ℕ → Bool
accepts t c name = not (index_of t name == minus_one) && ltb (sessions c (index_of t name)) 2

-- The answer to a sign-in: an ACK or a NACK with the name in its payload.
abbrev pub answer : Env → Bool → List ℕ → Message
answer env accepted bytes = record env.blank {
  type = if accepted then ack else nack;
  timestamp = env.now;
  payload = bytes;
}

-- What a sign-in owes: the answer is sent, a refused client is to be disconnected, and the
-- connection manager registers the reported index, even the one of an unknown user.
abbrev pub SignsIn : Env → Tables → ConnectionManager → Session → List ℕ → List ℕ → World → Type 0
SignsIn env t c s name bytes w =
    (d : ConnectionManager) × (w
      ≡ world t d (record s {
        client_index = index_of t name;
        client_name = name;
        client_shutdown_notice = not (accepts t c name);
        sent = s.sent ++ answer env (accepts t c name) bytes ∷ [];
      }))
    × Registers (index_of t name) c (ltb (sessions c (index_of t name)) 2) d

abbrev after_sign_in :
    Env → Tables → ConnectionManager → ConnectionManager → Session → List ℕ → List ℕ → World
after_sign_in env t c d s name bytes = world t d (record s {
  client_index = index_of t name;
  client_name = name;
  client_shutdown_notice = not (accepts t c name);
  sent = s.sent ++ answer env (accepts t c name) bytes ∷ [];
})

sign_in_run :
    (env : Env) (t : Tables) (c d : ConnectionManager) (s : Session) (m : Message)
    (name bytes : List ℕ)
    → env.alive ≡ true
    → c_str m.payload ≡ some name
    → strcpy env.blank.payload name ≡ some bytes
    → register_connection (index_of t name) c ≡ ok (ltb (sessions c (index_of t name)) 2) d
    → sign_in_client env m (world t c s) ≡ ok tt (after_sign_in env t c d s name bytes)
unfolding sign_in_client get_user_index new_message
sign_in_run env t c d s m name bytes alive text fits run = ground (arith, alive, text, fits, run)

-- A `SIGN_IN` packet, while the client can be written to and the server is not shutting down, gets
-- ACK exactly when its name belongs to a user with fewer than two sessions, and NACK otherwise, which
-- ends the connection; the tables stay, and a session is registered for the index of the name
-- whenever that index has fewer than two.
pub sign_in-SignsIn :
    (env : Env) (t : Tables) (c : ConnectionManager) (s : Session) (m : Message)
    (name bytes : List ℕ)
    → env.server_shutdown_notice ≡ false
    → env.alive ≡ true
    → IsValid c
    → m.type ≡ sign_in
    → c_str m.payload ≡ some name
    → strcpy env.blank.payload name ≡ some bytes
    → Returns (dispatch env m (world t c s)) λ _ w. SignsIn env t c s name bytes w
unfolding dispatch
sign_in-SignsIn env t c s m name bytes up alive v is_sign_in text fits =
    let index = index_of t name in
    let (b, d, run, facts) =
      Returns-ok (Registers index c) _ (register_connection-Registers index c v) in
    let run' = subst (λ b'. register_connection index c ≡ ok b' d) facts.1 run in
    let runs : dispatch env m (world t c s) ≡ sign_in_client env m (world t c s) =
      simp (up, is_sign_in) in
    subst (λ o. Returns o λ _ u. SignsIn env t c s name bytes u)
      (sym (runs ∙ sign_in_run env t c d s m name bytes alive text fits run'))
      (d, refl, subst (λ b'. Registers index c b' d) facts.1 facts)

abbrev pub LosesOne : ConnectionManager → ℕ → World → Type 0
LosesOne c index w =
    (w.session.client_shutdown_notice ≡ true)
    × (sessions c index ≡ 2)
    × (sessions w.server.connections index ≡ 1)

tear_down-LosesOne :
    (env : Env) (t : Tables) (c : ConnectionManager) (s : Session) (name bytes : List ℕ) (w : World)
    → sessions c (index_of t name) ≡ 2
    → SignsIn env t c s name bytes w
    → Returns (tear_down w) λ _ u. LosesOne c (index_of t name) u
unfolding tear_down
tear_down-LosesOne env t c s name bytes w full (d, e, (valid, _, raised)) =
    let index = index_of t name in
    let two : sessions d index ≡ 2 = ground (arith, raised index, full) in
    let (b, u, run, (valid', _, lowered)) =
      Returns-ok (Closes index d) _
        (close_connection-Closes index d valid (users_ne_nil index d (omega (arith, two)))) in
    let runs : tear_down (after_sign_in env t c d s name bytes)
        ≡ ok b (after_sign_in env t c u s name bytes) =
      ground (arith, run) in
    subst (λ w'. Returns (tear_down w') λ _ u'. LosesOne c index u') (sym e)
      (subst (λ o. Returns o λ _ u'. LosesOne c index u') (sym runs)
        (ground (arith, full), full, ground (arith, lowered index, two)))

-- A `SIGN_IN` for a user with two sessions, under the conditions of `sign_in-SignsIn`, ends the new
-- connection, and the end of that connection leaves one session counted for the user instead of two.
pub sign_in_third-LosesOne :
    (env : Env) (t : Tables) (c : ConnectionManager) (s : Session) (m : Message)
    (name bytes : List ℕ)
    → env.server_shutdown_notice ≡ false
    → env.alive ≡ true
    → IsValid c
    → m.type ≡ sign_in
    → c_str m.payload ≡ some name
    → strcpy env.blank.payload name ≡ some bytes
    → sessions c (index_of t name) ≡ 2
    → Returns
        ((dispatch env m >>= λ _. tear_down) (world t c s))
        λ _ w. LosesOne c (index_of t name) w
sign_in_third-LosesOne env t c s m name bytes up alive v is_sign_in text fits full =
    Returns->>= (λ _ w. SignsIn env t c s name bytes w) (λ _ w. LosesOne c (index_of t name) w)
      (λ _. tear_down) (dispatch env m) (world t c s)
      (sign_in-SignsIn env t c s m name bytes up alive v is_sign_in text fits)
      λ _ w h. tear_down-LosesOne env t c s name bytes w full h

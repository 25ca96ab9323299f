-- ===== src/Session/Tests.antt =====
-- Packets at concrete inputs.
use sisop2_tf.Base.{
  All, str_eq, ℕ, zero, suc, ◌≡◌, refl, true, false, List, [], ◌∷◌, ◌++◌, some, arith, Returns,
  fault, ◌>>=◌,
}
use sisop2_tf.Data.{TweetData, minus_one}
use sisop2_tf.Message.{
  MessageType, shutdown_req, ack, update, sign_in, Message, c_str, strcpy, c_str-strcpy,
}
use sisop2_tf.Connections.Limit.{at_rest as manager_at_rest, sessions}
use sisop2_tf.Database.Users.{find_user}
use sisop2_tf.Database.Tests.{tables_posted, ana, bob, tables, manager, manager-IsValid}
use sisop2_tf.Session.State.{Session, opened}
use sisop2_tf.Session.Connector.{Env, dispatch, tear_down, not_authenticated}
use sisop2_tf.Session.Requests.{IsUpdate}
use sisop2_tf.Session.Deliver.{IsSendable}
use sisop2_tf.Session.SignIn.{
  world, index_of, SignsIn, LosesOne, sign_in-SignsIn, sign_in_third-LosesOne,
}
use sisop2_tf.Session.Unsigned.{dispatch-tear_down}

abbrev pub zeros : ℕ → List ℕ
zeros zero = []
zeros (suc n) = 0 ∷ zeros n

abbrev pub blank : Message
blank = record { type = ack; timestamp = 0; author = zeros 256; payload = zeros 256 }

abbrev pub env : Env
env = record { server_shutdown_notice = false; alive = true; now = 9; blank = blank }

abbrev pub junk : TweetData
junk = record {
  author_id = 0;
  tweet_id = 0;
  timestamp = 0;
  payload = zeros 256;
  num_recipients_remaining = 0;
}

-- The array of a payload that starts with a name of three bytes.
abbrev pub array_of : List ℕ → List ℕ
array_of name = name ++ zeros 253

abbrev pub packet : MessageType → List ℕ → Message
packet type name = record blank { type = type; payload = array_of name }

abbrev pub session : ℕ → Session
session index = record (opened blank) { client_index = index }

pub ana_text : c_str (array_of ana) ≡ some ana
unfolding c_str
ana_text = refl

bob_text : c_str (array_of bob) ≡ some bob
unfolding c_str
bob_text = refl

pub ana_fits : strcpy (zeros 256) ana ≡ some (array_of ana)
unfolding strcpy
ana_fits = refl

bob_fits : strcpy (zeros 256) bob ≡ some (array_of bob)
unfolding strcpy
bob_fits = refl

not_authenticated_fits :
    strcpy (zeros 256) not_authenticated ≡ some (not_authenticated ++ zeros 225)
unfolding strcpy
not_authenticated_fits = refl

bob_index : index_of tables bob ≡ 1
unfolding find_user str_eq
bob_index = refl

c_str-strcpy_example :
    (bytes : List ℕ) × (strcpy (zeros 4) ana ≡ some bytes) × (c_str bytes ≡ some ana)
c_str-strcpy_example =
    c_str-strcpy (zeros 4) ana ((λ e. cc), ((λ e. cc), ((λ e. cc), tt))) (omega arith)

sign_in-SignsIn_example :
    Returns
      (dispatch env (packet sign_in ana) (world tables manager (session minus_one)))
      λ _ w. SignsIn env tables manager (session minus_one) ana (array_of ana) w
sign_in-SignsIn_example =
    sign_in-SignsIn env tables manager (session minus_one) (packet sign_in ana) ana (array_of ana)
      refl refl manager-IsValid refl ana_text ana_fits

sign_in_third-LosesOne_example :
    Returns
      ((dispatch env (packet sign_in bob) >>= λ _. tear_down)
        (world tables manager (session minus_one)))
      λ _ w. LosesOne manager (index_of tables bob) w
sign_in_third-LosesOne_example =
    let two : sessions manager (index_of tables bob) ≡ 2 = rw bob_index refl in
    sign_in_third-LosesOne env tables manager (session minus_one) (packet sign_in bob) bob
      (array_of bob) refl refl manager-IsValid refl bob_text bob_fits two

pub ana-IsUpdate : IsUpdate junk blank (packet update ana)
unfolding c_str strcpy
ana-IsUpdate = (refl, refl, refl, refl)

pub bob-IsUpdate : IsUpdate junk blank (packet update bob)
unfolding c_str strcpy
bob-IsUpdate = (refl, refl, refl, refl)

pub rows-IsSendable :
    All (All (IsSendable tables_posted blank)) tables_posted.list_of_received_tweets
unfolding c_str strcpy
rows-IsSendable = (((omega arith, refl, refl, refl), tt), (tt, (tt, tt)))

dispatch-tear_down_example :
    (dispatch env (packet shutdown_req ana) >>= λ _. tear_down)
      (world tables (manager_at_rest [] []) (session minus_one))
    ≡ fault
dispatch-tear_down_example =
    dispatch-tear_down env tables [] (session minus_one) (packet shutdown_req ana) refl

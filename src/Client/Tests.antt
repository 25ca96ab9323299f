-- ===== src/Client/Tests.antt =====
-- The client at concrete inputs.
use sisop2_tf.Base.{ℕ, ◌≡◌, refl, true, false, List, [], ◌∷◌, some, Returns}
use sisop2_tf.Stream.{skip_spaces, scan_digits}
use sisop2_tf.Message.{c_str, strcpy, sign_in, Message}
use sisop2_tf.Database.Tests.{tables, manager, manager-IsValid}
use sisop2_tf.Session.State.{opened}
use sisop2_tf.Session.Connector.{Env, dispatch}
use sisop2_tf.Session.SignIn.{world}
use sisop2_tf.Client.{atoi, ClientState}
use sisop2_tf.Client.Servers.{lines, split_comma, parse_servers, load_server_list}
use sisop2_tf.Client.Sockets.{zeros, zero_message}
use sisop2_tf.Client.Handshake.{Answers, dispatch-wait_server_response}

abbrev env : Env
env = record { server_shutdown_notice = false; alive = true; now = 9; blank = zero_message }

abbrev client : ClientState
client = record { inbox = []; inbox_has_item = false; uid = 5 }

-- "42"
abbrev forty_two : List ℕ
forty_two = 52 ∷ 50 ∷ []

forty_two_number : atoi forty_two ≡ some 42
unfolding atoi skip_spaces scan_digits
forty_two_number = refl

minus_seven : atoi (32 ∷ 45 ∷ 55 ∷ []) ≡ some 4294967289
unfolding atoi skip_spaces scan_digits
minus_seven = refl

at_text : c_str (64 ∷ 97 ∷ zeros 254) ≡ some (64 ∷ 97 ∷ [])
unfolding c_str
at_text = refl

at_fits : strcpy (zeros 256) (64 ∷ 97 ∷ []) ≡ some (64 ∷ 97 ∷ zeros 254)
unfolding strcpy
at_fits = refl

abbrev greeting : Message
greeting = record zero_message { type = sign_in; payload = 64 ∷ 97 ∷ zeros 254 }

dispatch-wait_server_response_example :
    Returns
      (dispatch env greeting (world tables manager (opened zero_message)))
      λ _ w. Answers tables manager (opened zero_message) (64 ∷ 97 ∷ []) client w
dispatch-wait_server_response_example =
    dispatch-wait_server_response env tables manager (opened zero_message) greeting (97 ∷ [])
      (64 ∷ 97 ∷ zeros 254) client refl refl manager-IsValid refl at_text at_fits at_text

-- The lines "a,1", "b" and "c,22", without a newline at the end.
parsed :
    load_server_list (97 ∷ 44 ∷ 49 ∷ 10 ∷ 98 ∷ 10 ∷ 99 ∷ 44 ∷ 50 ∷ 50 ∷ [])
    ≡ some (
        record { serveraddr = 97 ∷ []; port = 1 } ∷ record { serveraddr = 99 ∷ []; port = 22 } ∷ [])
unfolding load_server_list lines parse_servers split_comma atoi skip_spaces scan_digits
parsed = refl

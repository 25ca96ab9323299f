-- ===== src/Client/Lost.antt =====
-- A connection that ends while the client waits to be accepted (src/Client.cpp, src/SocketClient.cpp).
use sisop2_tf.Base.{◌≡◌, refl, ap, true, false, List, [], ◌∷◌, ◌++◌, map, Option, none, some, All}
use sisop2_tf.Stream.{skip_spaces}
use sisop2_tf.Message.{Message, c_str}
use sisop2_tf.Client.{atoi, ClientState, connected, sign_in_to}
use sisop2_tf.Client.Handshake.{IsOther, after_ack, wait_server_response-after_ack}
use sisop2_tf.Client.Sockets.{zero_message, zeros, receive_message_no_retry, connect_to_server}
use sisop2_tf.Client.Shell.{Contact, contact_server}

zero_text : c_str (zeros 256) ≡ some []
unfolding c_str
zero_text = refl

no_number : atoi [] ≡ some 0
unfolding atoi skip_spaces
no_number = refl

received_then :
    (ms : List Message) (rest : List (Option Message))
    → map (λ r. some (receive_message_no_retry r)) (map some ms ++ none ∷ rest)
      ≡ map some ms ++ some zero_message ∷ map (λ r. some (receive_message_no_retry r)) rest
received_then [] rest = refl
received_then (m ∷ ms) rest = ap (λ l. some m ∷ l) (received_then ms rest)

-- When the client reaches a server and sends its first packet, receives packets of types other than
-- ACK, NACK and SHUTDOWN_REQ, and then the connection ends without an answer, the sign-in ends
-- connected, with the user id 0: a read that fails counts as an ACK.
pub contact_server-lost :
    (c : Contact) (ms : List Message) (rest : List (Option Message)) (s : ClientState)
    → c.has_host ≡ true
    → c.has_socket ≡ true
    → c.accepted ≡ true
    → c.is_sent ≡ true
    → c.received ≡ map some ms ++ none ∷ rest
    → All IsOther ms
    → contact_server c s ≡ connected (after_ack false ms 0 (record s { inbox_has_item = false }))
unfolding sign_in_to connect_to_server
contact_server-lost c ms rest s host socket in_time sent received others =
    rw (host, socket, in_time, sent, received, received_then ms rest)
      (wait_server_response-after_ack ms zero_message [] 0
        (map (λ r. some (receive_message_no_retry r)) rest) (record s { inbox_has_item = false })
        others refl zero_text no_number)

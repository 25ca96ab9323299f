-- ===== src/Client/SendTests.antt =====
-- The client's controller at concrete inputs.
use sisop2_tf.Base.{
  Leaves, ℕ, zero, suc, ◌≡◌, ◌≢◌, refl, true, false, List, [], ◌∷◌, none, some, All, arith, inl,
  fault, Returns, ltb, drop, map, if◌then◌else◌,
}
use sisop2_tf.Stream.{skip_spaces, scan_digits}
use sisop2_tf.Message.{update, Message, c_str}
use sisop2_tf.Client.{atoi, connected, sign_in_to, wait_server_response, wait_loop}
use sisop2_tf.Client.Sockets.{zeros, zero_message, connect_to_server}
use sisop2_tf.Client.Handshake.{after_ack}
use sisop2_tf.Client.Shell.{Contact, contact_server, find_server, Shell}
use sisop2_tf.Client.Sender.{client_sender, update_command}
use sisop2_tf.Client.Retries.{AreAnswered, SendsAll}
use sisop2_tf.Client.Sends.{IsPacket, client_sender-SendsAll, client_sender-overflow}
use sisop2_tf.Client.Lost.{contact_server-lost}
use sisop2_tf.Client.Controller.{Turn, polled, rounds}
use sisop2_tf.Client.Printed.{Shows}
use sisop2_tf.Client.Rounds.{rounds-Shows}
use sisop2_tf.Client.Servers.{StServer, choose_server, start_of}
use sisop2_tf.Client.Start.{IsSettled, signs_in, place_of, find_server-choose_server}

abbrev blank : Message
blank = zero_message

abbrev tweet_packet : Message
tweet_packet = record blank { type = update; author = 97 ∷ zeros 255; payload = 104 ∷ zeros 255 }

-- A server that accepts the client with an ACK that is empty.
abbrev server : Contact
server = record {
  has_host = true;
  has_socket = true;
  accepted = true;
  is_sent = true;
  received = some tweet_packet ∷ some zero_message ∷ [];
}

abbrev line : List ℕ
line = b'h' ∷ b'i' ∷ []

-- Two sends fail, and the third does not.
abbrev shell : Shell
shell = record {
  input = [] ∷ line ∷ line ∷ [];
  errors = 104 ∷ 32 ∷ 0 ∷ 7 ∷ [];
  reads = some tweet_packet ∷ none ∷ some zero_message ∷ [];
  contacts = (server ∷ []) ∷ (server ∷ []) ∷ [];
  sent = [];
  printed = [];
  client = record { inbox = tweet_packet ∷ []; inbox_has_item = true; uid = 0 };
  server_index = 0;
  username = b'@' ∷ b'a' ∷ [];
}

line_text : All (λ b. b ≢ 0) line
line_text = (omega arith, (omega arith, tt))

some_fail : All {A = ℕ} (λ e. e ≢ 0) (104 ∷ 32 ∷ [])
some_fail = (omega arith, (omega arith, tt))

servers_answer : AreAnswered 2 shell.contacts
unfolding find_server sign_in_to connect_to_server wait_server_response wait_loop c_str atoi
    skip_spaces scan_digits
servers_answer = ((λ s. tt), ((λ s. tt), tt))

client_sender-SendsAll_example :
    (m : Message) × IsPacket update 9 line m
    × Returns
        (client_sender blank 9 update_command shell)
        (SendsAll (record shell { input = line ∷ [] }) 3 m (7 ∷ []))
client_sender-SendsAll_example =
    client_sender-SendsAll blank 9 b'h' (b'i' ∷ []) ([] ∷ []) (line ∷ []) line_text (refl, tt)
      (104 ∷ 32 ∷ []) (7 ∷ []) shell refl (omega arith) refl some_fail servers_answer

abbrev many : ℕ → List ℕ
many zero = []
many (suc n) = b'a' ∷ many n

many_text : (n : ℕ) → All (λ b. b ≢ 0) (many n)
many_text zero = tt
many_text (suc n) = (omega arith, many_text n)

client_sender-overflow_example :
    client_sender blank 9 update_command (record shell { input = many 256 ∷ [] }) ≡ fault
client_sender-overflow_example =
    client_sender-overflow blank 9 b'a' (many 255) [] [] (many_text 256) tt update_command
      (record shell { input = many 256 ∷ [] }) (inl refl) refl (omega arith)

-- The server sends a tweet, and then the connection ends.
abbrev lost_server : Contact
lost_server = record server { received = some tweet_packet ∷ none ∷ [] }

contact_server-lost_example :
    contact_server lost_server shell.client
    ≡ connected
        (after_ack false (tweet_packet ∷ []) 0 (record shell.client { inbox_has_item = false }))
contact_server-lost_example =
    contact_server-lost lost_server (tweet_packet ∷ []) [] shell.client refl refl refl refl refl
      (refl, tt)

abbrev reading : Turn
reading = record { poll = polled false true false; is_late = false; now = 9 }

rounds-Shows_example : Leaves (Shows shell) (rounds blank (reading ∷ reading ∷ []) shell)
rounds-Shows_example = rounds-Shows blank (reading ∷ reading ∷ []) shell (refl, (refl, tt))

-- The first server of the list is not known, and the second accepts.
abbrev two_servers : List StServer
two_servers =
    record { serveraddr = 97 ∷ []; port = 1 } ∷ record { serveraddr = 99 ∷ []; port = 22 } ∷ []

abbrev answer_of : StServer → Contact
answer_of s = if ltb 9 s.port then server else record server { has_host = false }

answers-IsSettled :
    All
      (λ s. IsSettled (contact_server (answer_of s) shell.client))
      (drop (start_of true 1) two_servers)
unfolding sign_in_to connect_to_server wait_server_response wait_loop c_str atoi skip_spaces
    scan_digits
answers-IsSettled = (tt, (tt, tt))

find_server-choose_server_example :
    place_of
      (start_of true 1)
      (find_server (map answer_of (drop (start_of true 1) two_servers)) shell.client)
    ≡ choose_server (signs_in answer_of shell.client) true 1 two_servers
find_server-choose_server_example =
    find_server-choose_server answer_of true 1 two_servers shell.client answers-IsSettled

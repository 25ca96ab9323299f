-- ===== src/Client/Sockets.antt =====
-- `SocketClient` (src/SocketClient.cpp). What the system calls do is a parameter: whether each step of a
-- connection succeeds, and what a `read` of one packet gives, where `none` stands for a count that is
-- not positive.
use sisop2_tf.Base.{
  ℕ, zero, suc, ◌-◌, ◌^◌, Bool, not, List, [], ◌∷◌, Option, none, some, if◌then◌else◌,
}
use sisop2_tf.Message.{ack, dummy_message, Message, new_message}

abbrev pub zeros : ℕ → List ℕ
zeros zero = []
zeros (suc n) = 0 ∷ zeros n

-- The memory of a `Message` after `memset`.
abbrev pub zero_message : Message
zero_message = record { type = ack; timestamp = 0; author = zeros 256; payload = zeros 256 }

-- The dummy for a failed read is built over the memory `blank`.
unfoldable pub receive_message : Message → ℕ → Option Message → Option Message
receive_message blank now none = new_message blank dummy_message now []
receive_message blank now (some m) = some m

abbrev pub receive_message_no_retry : Option Message → Message
receive_message_no_retry none = zero_message
receive_message_no_retry (some m) = m

-- -1 where the host is unknown, there is no socket, or nobody accepts.
unfoldable pub connect_to_server : Bool → Bool → Bool → ℕ
connect_to_server has_host has_socket accepted =
    if not has_host
    then 2 ^ 32 - 1
    else (if not has_socket then 2 ^ 32 - 1 else (if not accepted then 2 ^ 32 - 1 else 0))

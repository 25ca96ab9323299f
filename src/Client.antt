-- ===== src/Client.antt =====
-- `Client::sign_in` and `Client::wait_server_response` (src/Client.cpp, inc/Client.hpp). What the socket
-- does is a parameter: whether the connection and the first packet succeed, and what is received,
-- where `none` stands for a `NULL`. `close_client` ends the program.
pub mod Servers
pub mod Handshake
pub mod Sockets
pub mod Shell
pub mod Sender
pub mod Controller
pub mod Retries
pub mod Sends
pub mod Lost
pub mod Quiet
pub mod Printed
pub mod Rounds
pub mod Start
pub mod Endpoint
pub mod Leaks
pub mod FrontEnd
pub mod Reconnect
mod Tests
mod SendTests
mod LinkTests
use sisop2_tf.Base.{
  ℕ, ◌+◌, ◌-◌, ◌%◌, ◌^◌, Bool, true, false, not, List, [], ◌∷◌, ◌++◌, Option, none, some, ltb, ◌==◌,
  if◌then◌else◌,
}
use sisop2_tf.Stream.{show_nat, skip_spaces, scan_digits}
use sisop2_tf.Message.{
  MessageType, ack, nack, sign_in, reconnect, shutdown_req, Message, c_str, new_message,
}

-- The digits of `atoi`, whose value has to fit an `int`; the result is its 32-bit pattern.
abbrev positive : ℕ → Option ℕ
positive n = if ltb n (2 ^ 31) then some n else none

abbrev negative : ℕ → Option ℕ
negative n = if ltb n (2 ^ 31 + 1) then some ((2 ^ 32 - n) % 2 ^ 32) else none

abbrev signed : List ℕ → Option ℕ
signed [] = some 0
signed (c ∷ cs) =
    if c == b'-'
    then negative (scan_digits 0 cs).0
    else (if c == b'+' then positive (scan_digits 0 cs).0 else positive (scan_digits 0 (c ∷ cs)).0)

unfoldable pub atoi : List ℕ → Option ℕ
atoi text = signed (skip_spaces text)

-- An `int` as a `uint64_t`.
abbrev pub widen : ℕ → ℕ
widen n = if ltb n (2 ^ 31) then n else n + (2 ^ 64 - 2 ^ 32)

pub record ClientState : Type 0 where
  pub inbox : List Message
  pub inbox_has_item : Bool
  pub uid : ℕ

-- How a wait or a sign-in ends; `waiting` where nothing more is received yet, `undefined` where the
-- payload is no text or its number too large.
pub data Ending : Type 0 where
  connected exited waiting : ClientState → Ending
  failed undefined : Ending

abbrev payload_number : Message → Option ℕ
payload_number m = elim (c_str m.payload) [ none ↦ none | some text ↦ atoi text ]

-- The loop; the first argument is `readOtherMessages`.
unfoldable pub wait_loop : Bool → List (Option Message) → ClientState → Ending
wait_loop other [] s = waiting s
wait_loop other (none ∷ ms) s = exited s
wait_loop other (some m ∷ ms) s =
    let rest = wait_loop true ms (record s { inbox = s.inbox ++ m ∷ [] }) in
    elim m.type [
      | ack ↦ elim (payload_number m) [
        | none ↦ undefined
        | some n ↦
            connected (record s {
              uid = widen n;
              inbox_has_item = if other then true else s.inbox_has_item;
            })
      ]
      | nack ↦ exited s
      | shutdown_req ↦ exited s
      | _ ↦ rest
    ]

unfoldable pub wait_server_response : List (Option Message) → ClientState → Ending
wait_server_response ms s = wait_loop false ms s

-- The packet that a sign-in sends.
unfoldable pub first_message : Message → Bool → ℕ → List ℕ → ClientState → Option Message
first_message blank first_connect now username s =
    new_message blank (if first_connect then sign_in else reconnect) now
      (if first_connect then username else show_nat s.uid)

-- Whether the server can be reached, whether the packet is sent, and what is received then.
unfoldable pub sign_in_to : Bool → Bool → List (Option Message) → ClientState → Ending
sign_in_to reached sent ms s =
    if not reached
    then failed
    else (if not sent
        then failed
        else wait_server_response ms (record s { inbox_has_item = false }))

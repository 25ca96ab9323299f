-- ===== src/Client/Sends.antt =====
-- What `client_sender` (src/Client.cpp) sends.
use sisop2_tf.Base.{
  ℕ, suc, ◌≤◌, ◌<◌, ◌≡◌, ◌≢◌, refl, ap, sym, subst, ◌∙◌, true, List, [], ◌∷◌, ◌++◌, Option, none,
  some, arith, str_eq, length, All, ok, blocked, fault, ◌⊎◌, Returns, pure, or_fault, ◌>>=◌, ◌>>◌,
  >>=-ok, inl, inr,
}
use sisop2_tf.Message.{
  MessageType, update, follow, Message, new_message, strcpy, c_str, c_str-append, c_str-strcpy,
  or_empty,
}
use sisop2_tf.Client.Shell.{Shell, Action}
use sisop2_tf.Client.Sender.{
  text_of, read_lines, read_payload, send_message, send_until, update_command, follow_command,
  client_sender,
}
use sisop2_tf.Client.Retries.{AreAnswered, SendsAll, send_until-SendsAll}

-- The lines in front of the first that is not empty.
read_lines-first :
    (c : ℕ) (cs : List ℕ) (empties rest : List (List ℕ))
    → All (λ l. l ≡ []) empties
    → read_lines (empties ++ (c ∷ cs) ∷ rest) ≡ some (c ∷ cs, rest)
unfolding read_lines
read_lines-first c cs [] rest h = refl
read_lines-first c cs ([] ∷ empties) rest h = read_lines-first c cs empties rest h.1
read_lines-first c cs ((x ∷ xs) ∷ empties) rest h = absurd (ground (arith, h.0))

read_payload-first :
    (c : ℕ) (cs : List ℕ) (empties rest : List (List ℕ)) (w : Shell)
    → All (λ l. l ≡ []) empties
    → w.input ≡ empties ++ (c ∷ cs) ∷ rest
    → read_payload w ≡ ok (c ∷ cs) (record w { input = rest })
read_payload-first c cs empties rest w h typed =
    ap
      (λ o. elim o [
        | none ↦ blocked (record w { input = [] })
        | some (line, left) ↦ ok line (record w { input = left })
      ])
      (ap read_lines typed ∙ read_lines-first c cs empties rest h)

-- The packet for a line.
pub record IsPacket (type : MessageType) (now : ℕ) (line : List ℕ) (m : Message) : Type 0 where
  pub has_type : m.type ≡ type
  pub has_time : m.timestamp ≡ now
  pub has_text : c_str m.payload ≡ some line

text_of_lem : (line : List ℕ) → All (λ b. b ≢ 0) line → text_of line ≡ line
text_of_lem line h = ap or_empty (c_str-append line [] h)

new_message-IsPacket :
    (blank : Message) (type : MessageType) (now : ℕ) (line : List ℕ)
    → All (λ b. b ≢ 0) line
    → length line < length blank.payload
    → (m : Message) × (new_message blank type now (text_of line) ≡ some m)
      × IsPacket type now line m
unfolding new_message
new_message-IsPacket blank type now line h fits =
    let (bytes, copied, read) = c_str-strcpy blank.payload line h fits in
    (
      record blank { type = type; timestamp = now; payload = bytes },
      ap (new_message blank type now) (text_of_lem line h) ∙ ap packed copied,
      record { has_type = refl; has_time = refl; has_text = read },
    )
  where
    packed : Option (List ℕ) → Option Message
    packed none = none
    packed (some bytes) = some (record blank { type = type; timestamp = now; payload = bytes })

new_message-overflow :
    (blank : Message) (type : MessageType) (now : ℕ) (line : List ℕ)
    → All (λ b. b ≢ 0) line
    → length blank.payload ≤ length line
    → new_message blank type now (text_of line) ≡ none
unfolding new_message strcpy
new_message-overflow blank type now line h long = rw (text_of_lem line h) (ground (arith, long))

-- A line that the user types after a command; lines without a character are passed over.
module _ (blank : Message) (now : ℕ) (c : ℕ) (cs : List ℕ) (empties rest : List (List ℕ))
    (is_text : All (λ b. b ≢ 0) (c ∷ cs)) (skipped : All (λ l. l ≡ []) empties) where
  packet_then :
      {A : Type 0} (type : MessageType) (m : Message) (k : Message → Action A) (w : Shell)
      → w.input ≡ empties ++ (c ∷ cs) ∷ rest
      → new_message blank type now (text_of (c ∷ cs)) ≡ some m
      → (read_payload >>= λ payload. or_fault (new_message blank type now (text_of payload)) >>= k)
          w
        ≡ k m (record w { input = rest })
  packet_then type m k w typed made =
      >>=-ok read_payload _ (read_payload-first c cs empties rest w skipped typed)
      ∙ ap (λ o. (or_fault o >>= k) (record w { input = rest })) made

  no_packet_then :
      {A : Type 0} (type : MessageType) (k : Message → Action A) (w : Shell)
      → w.input ≡ empties ++ (c ∷ cs) ∷ rest
      → length blank.payload ≤ length (c ∷ cs)
      → (read_payload >>= λ payload. or_fault (new_message blank type now (text_of payload)) >>= k)
          w
        ≡ fault
  no_packet_then type k w typed long =
      >>=-ok read_payload _ (read_payload-first c cs empties rest w skipped typed)
      ∙ ap (λ o. (or_fault o >>= k) (record w { input = rest }))
          (new_message-overflow blank type now (c ∷ cs) is_text long)

  -- After UPDATE, maybe empty lines, and a line of text that fits a packet, the packet with that
  -- text is sent until the socket has no error: when the first sends leave an error and the next
  -- does not, and each search in between finds a server, one copy is sent for each error and one
  -- more, and the client goes on.
  pub client_sender-SendsAll :
      (failing later : List ℕ) (w : Shell)
      → w.input ≡ empties ++ (c ∷ cs) ∷ rest
      → length (c ∷ cs) < length blank.payload
      → w.errors ≡ failing ++ 0 ∷ later
      → All (λ e. e ≢ 0) failing
      → AreAnswered (length failing) w.contacts
      → (m : Message) × IsPacket update now (c ∷ cs) m
        × Returns
            (client_sender blank now update_command w)
            (SendsAll (record w { input = rest }) (suc (length failing)) m later)
  unfolding client_sender str_eq
  client_sender-SendsAll failing later w typed fits errors h a =
      let (m, made, packet) = new_message-IsPacket blank update now (c ∷ cs) is_text fits in
      (
        m,
        packet,
        subst (λ o. Returns o (SendsAll (record w { input = rest }) (suc (length failing)) m later))
            (sym (
              packet_then update m (λ m' u. send_until m' u.errors u) w typed made
              ∙ ap (λ es. send_until m es (record w { input = rest })) errors))
            (send_until-SendsAll m failing later (record w { input = rest }) h a),
      )

  -- After FOLLOW and a line of text that fits a packet, the packet with that text is sent once,
  -- whatever error the socket has then, and the client goes on without a search for a server.
  pub client_sender-follow :
      (e : ℕ) (later : List ℕ) (w : Shell)
      → w.input ≡ empties ++ (c ∷ cs) ∷ rest
      → length (c ∷ cs) < length blank.payload
      → w.errors ≡ e ∷ later
      → (m : Message) × IsPacket follow now (c ∷ cs) m
        × (client_sender blank now follow_command w
            ≡ ok true (record w { input = rest; errors = later; sent = w.sent ++ m ∷ [] }))
  unfolding client_sender str_eq
  client_sender-follow e later w typed fits errors =
      let (m, made, packet) = new_message-IsPacket blank follow now (c ∷ cs) is_text fits in
      (
        m,
        packet,
        packet_then follow m (λ m'. send_message m' >> pure true) w typed made
            ∙ >>=-ok (send_message m) _ (
                ap
                  (λ l. elim l [
                    | [] ↦ blocked (record w { input = rest })
                    | e' ∷ es ↦
                        ok e' (record w { input = rest; errors = es; sent = w.sent ++ m ∷ [] })
                  ])
                  errors),
      )

  -- After UPDATE or FOLLOW, maybe empty lines, and a line of text with as many bytes as the payload
  -- of a packet or more, the client writes past the end of the payload.
  pub client_sender-overflow :
      (command : List ℕ) (w : Shell)
      → (command ≡ update_command) ⊎ (command ≡ follow_command)
      → w.input ≡ empties ++ (c ∷ cs) ∷ rest
      → length blank.payload ≤ length (c ∷ cs)
      → client_sender blank now command w ≡ fault
  unfolding client_sender str_eq
  client_sender-overflow command w (inl e) typed long =
      rw e (no_packet_then update (λ m u. send_until m u.errors u) w typed long)
  client_sender-overflow command w (inr e) typed long =
      rw e (no_packet_then follow (λ m. send_message m >> pure true) w typed long)

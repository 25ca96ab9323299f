-- ===== src/Client/Leaks.antt =====
-- A later search for a server (`client_front_end`, src/main_client.cpp) on the global socket, and the sockets
-- that it opens (src/SocketClient.cpp).
use sisop2_tf.Base.{
  ℕ, zero, suc, ◌-◌, ◌<◌, ◌≡◌, refl, sym, subst, ◌∙◌, false, ◌&&◌, List, [], ◌∷◌, ◌++◌, some,
  length, length-append, append_assoc, append-nil, drop, arith, lt→ltb, ok, pure, ◌>>=◌, All,
  Bool-cases, inl, inr, ◌==◌, if◌then◌else◌,
}
use sisop2_tf.Message.{Message, strcpy}
use sisop2_tf.Client.{Ending, connected, exited, waiting, failed, undefined}
use sisop2_tf.Client.Sockets.{connect_to_server}
use sisop2_tf.Client.Endpoint.{
  Endpoint, Action, Attempt, chars_of, own, set_port, set_hostname, set_server, connect, opened_for,
  client_sign_in,
}

-- A server of the list, and what becomes of the attempt to sign in there.
pub record Candidate : Type 0 where
  pub address : List ℕ
  pub port : ℕ
  pub attempt : Attempt

-- The loop of a search that is not the first.
unfoldable pub try_servers : Message → ℕ → List Candidate → Action Ending
try_servers blank now [] = pure failed
try_servers blank now (k ∷ ks) = do
  ending ← client_sign_in blank now false own k.address k.port k.attempt
  elim ending [
    | failed ↦ try_servers blank now ks
    | connected s ↦ pure (connected s)
    | exited s ↦ pure (exited s)
    | waiting s ↦ pure (waiting s)
    | undefined ↦ pure undefined
  ]

-- No connection comes about.
abbrev pub IsUnreached : Candidate → Type 0
IsUnreached k =
    (k.attempt.contact.has_host && k.attempt.contact.has_socket && k.attempt.contact.accepted)
    ≡ false

-- The sockets for servers whose host is known.
abbrev pub sockets_for : List Candidate → List ℕ
sockets_for [] = []
sockets_for (k ∷ ks) =
    if k.attempt.contact.has_host && k.attempt.contact.has_socket
    then k.attempt.descriptor ∷ sockets_for ks
    else sockets_for ks

length-drop : (n : ℕ) (xs : List ℕ) → length (drop n xs) ≡ length xs - n
length-drop zero xs = omega arith
length-drop (suc n) [] = omega arith
length-drop (suc n) (x ∷ xs) = omega (arith, length-drop n xs)

-- A copy keeps the size of the array.
length-strcpy :
    (dst text : List ℕ)
    → length text < length dst
    → (bytes : List ℕ) × (strcpy dst text ≡ some bytes) × (length bytes ≡ length dst)
unfolding strcpy
length-strcpy dst text fits = (
  text ++ 0 ∷ drop (suc (length text)) dst,
  rw (lt→ltb (length text) (length dst) fits) refl,
  omega (
    arith,
    fits,
    length-append text (0 ∷ drop (suc (length text)) dst),
    length-drop (suc (length text)) dst,
  ),
)

-- What an attempt leaves of the sockets.
record Leaves (k : Candidate) (s t : Endpoint) : Type 0 where
  opened : t.opened_sockets ≡ s.opened_sockets ++ sockets_for (k ∷ [])
  closed : t.closed_sockets ≡ s.closed_sockets
  room : length t.hostname ≡ length s.hostname

opened_for-Leaves :
    (k : Candidate) (s t : Endpoint)
    → t.opened_sockets ≡ s.opened_sockets
    → t.closed_sockets ≡ s.closed_sockets
    → length t.hostname ≡ length s.hostname
    → Leaves k s (opened_for k.attempt t)
opened_for-Leaves k s t o c r = elim (Bool-cases k.attempt.contact.has_host) [
  | inl host ↦ elim (Bool-cases k.attempt.contact.has_socket) [
    | inl socket ↦ record {
      opened = ground (arith, host, socket, o);
      closed = ground (arith, host, socket, c);
      room = ground (arith, host, socket, r);
    }
    | inr no_descriptor ↦ record {
      opened = ground (arith, host, no_descriptor, o, append-nil s.opened_sockets);
      closed = ground (arith, host, no_descriptor, c);
      room = ground (arith, host, no_descriptor, r);
    }
  ]
  | inr unknown ↦ record {
    opened = ground (arith, unknown, o, append-nil s.opened_sockets);
    closed = ground (arith, unknown, c);
    room = ground (arith, unknown, r);
  }
]

unreached_code :
    (k : Candidate)
    → IsUnreached k
    → (connect_to_server k.attempt.contact.has_host k.attempt.contact.has_socket
          k.attempt.contact.accepted
        == 0)
      ≡ false
unfolding connect_to_server
unreached_code k h = ground (arith, h)

sign_in-fails :
    (blank : Message) (now : ℕ) (k : Candidate) (s : Endpoint)
    → length (chars_of k.address) < length s.hostname
    → IsUnreached k
    → (t : Endpoint) × (client_sign_in blank now false own k.address k.port k.attempt s
        ≡ ok failed t)
      × Leaves k s t
unfolding client_sign_in set_server set_port set_hostname connect
sign_in-fails blank now k s fits unreached =
    let (host, copied, size) = length-strcpy s.hostname (chars_of k.address) fits in
    let t : Endpoint = record s { port = k.port; hostname = host } in
    (
      opened_for k.attempt t,
      ground (arith, copied, unreached_code k unreached),
      opened_for-Leaves k s t refl refl size,
    )

-- When the addresses fit the socket's array and no connection to any of the servers comes about, a later
-- search for a server tries them all and fails, and then every socket that it opened, one for each
-- server whose host is known and that gets one, is open still: none has been closed.
pub try_servers-leaks :
    (blank : Message) (now : ℕ) (ks : List Candidate) (s : Endpoint)
    → All (λ k. length (chars_of k.address) < length s.hostname) ks
    → All IsUnreached ks
    → (t : Endpoint) × (try_servers blank now ks s ≡ ok failed t)
      × (t.opened_sockets ≡ s.opened_sockets ++ sockets_for ks)
      × (t.closed_sockets ≡ s.closed_sockets)
unfolding try_servers
try_servers-leaks blank now [] s fits unreached = (s, refl, sym (append-nil s.opened_sockets), refl)
try_servers-leaks blank now (k ∷ ks) s fits unreached =
    let (t, run, leaves) = sign_in-fails blank now k s fits.0 unreached.0 in
    let (u, run', opened, closed) =
      try_servers-leaks blank now ks t
        (subst (λ n. All (λ k'. length (chars_of k'.address) < n) ks) (sym leaves.room) fits.1)
        unreached.1 in
    (u, ground (arith, run, run'), opened ∙ sockets_moved k ks s t leaves, closed ∙ leaves.closed)
  where
    sockets_moved :
        (k : Candidate) (ks : List Candidate) (s t : Endpoint)
        → Leaves k s t
        → t.opened_sockets ++ sockets_for ks ≡ s.opened_sockets ++ sockets_for (k ∷ ks)
    sockets_moved k ks s t leaves =
        elim (Bool-cases (k.attempt.contact.has_host && k.attempt.contact.has_socket)) [
          | inl one ↦ ground (
            arith,
            one,
            leaves.opened,
            append_assoc s.opened_sockets (k.attempt.descriptor ∷ []) (sockets_for ks),
          )
          | inr nothing ↦ ground (arith, nothing, leaves.opened, append-nil s.opened_sockets)
        ]

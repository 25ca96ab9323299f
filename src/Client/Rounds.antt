-- ===== src/Client/Rounds.antt =====
-- What rounds of the client's controller (src/Client.cpp) print.
use sisop2_tf.Base.{
  Leaves, Leaves->>=, ℕ, ◌≡◌, refl, Bool, true, false, List, [], ◌∷◌, arith, All, if◌then◌else◌, ok,
  blocked, fault, Outcome, pure, ◌>>=◌,
}
use sisop2_tf.Message.{Message}
use sisop2_tf.Client.Shell.{Shell, Action}
use sisop2_tf.Client.Sender.{text_of}
use sisop2_tf.Client.Controller.{
  on_event, after_event, typed_line, Poll, poll_failed, polled, Turn, round, rounds,
}
use sisop2_tf.Client.Quiet.{look_for_server-Same, check_server_liveness-Same, client_sender-Same}
use sisop2_tf.Client.Printed.{Shows, Shows-refl, Shows-trans, blind-Shows, client_receiver-Shows}

-- No call of `poll` fails.
abbrev pub is_polled : Turn → Bool
is_polled turn = elim turn.poll [ poll_failed ↦ false | polled _ _ _ ↦ true ]

Shows-after :
    {A : Type 0} {w t : Shell} (o : Outcome Shell A)
    → Shows w t
    → Leaves (Shows t) o
    → Leaves (Shows w) o
Shows-after (ok a u) h k = Shows-trans h k
Shows-after (blocked u) h k = Shows-trans h k
Shows-after fault h k = tt

Shows->>= :
    {A B : Type 0} (m : Action A) (f : A → Action B) (w : Shell)
    → Leaves (Shows w) (m w)
    → ((a : A) (t : Shell) → Leaves (Shows t) (f a t))
    → Leaves (Shows w) ((m >>= f) w)
Shows->>= m f w h k =
    Leaves->>= (Shows w) (Shows w) f m w h (λ t shows. shows)
      (λ a t shows. Shows-after (f a t) shows (k a t))

if-Shows :
    (go : Bool) (m : Action Bool) (w : Shell)
    → Leaves (Shows w) (m w)
    → Leaves (Shows w) ((if go then m else pure false) w)
if-Shows true m w h = h
if-Shows false m w h = Shows-refl w

typed-Shows :
    (blank : Message) (now : ℕ) (lines : List (List ℕ)) (w : Shell)
    → Leaves (Shows w) (typed_line blank now lines w)
typed-Shows blank now [] w = Shows-refl w
typed-Shows blank now (line ∷ rest) w =
    blind-Shows w _
      (client_sender-Same blank now (text_of line) w (record w { input = rest }) (refl, refl))

on_event-Shows :
    (blank : Message) (now : ℕ) (typed readable hung_up : Bool) (w : Shell)
    → Leaves (Shows w) (on_event blank now typed readable hung_up w)
on_event-Shows blank now true readable hung_up w = typed-Shows blank now w.input w
on_event-Shows blank now false true hung_up w = client_receiver-Shows blank now w
on_event-Shows blank now false false true w =
    blind-Shows w _ (look_for_server-Same w w (refl, refl))
on_event-Shows blank now false false false w = Shows-refl w

after_event-Shows :
    (blank : Message) (now : ℕ) (late go : Bool) (w : Shell)
    → Leaves (Shows w) (after_event blank now late go w)
after_event-Shows blank now true true w =
    blind-Shows w _ (check_server_liveness-Same blank now w w (refl, refl))
after_event-Shows blank now false true w = Shows-refl w
after_event-Shows blank now late false w = Shows-refl w

polled-Shows :
    (blank : Message) (poll : Poll) (late : Bool) (now : ℕ) (w : Shell)
    → let turn : Turn = record { poll = poll; is_late = late; now = now } in
      is_polled turn ≡ true → Leaves (Shows w) (round blank turn w)
unfolding round
polled-Shows blank poll_failed late now w h = absurd (ground (arith, h))
polled-Shows blank (polled typed readable hung_up) late now w h =
    Shows->>= (on_event blank now typed readable hung_up) (after_event blank now late) w
      (on_event-Shows blank now typed readable hung_up w)
      (λ go t. after_event-Shows blank now late go t)

-- In any number of rounds of the controller in which no call of `poll` fails, what the client prints is
-- what the packets say that it reads in these rounds, in their order: tweets and errors, and nothing of
-- the packets that came before the ACK and wait in the inbox. So it is when the program goes on, waits
-- or has ended, as long as its behaviour is defined.
pub rounds-Shows :
    (blank : Message) (turns : List Turn) (w : Shell)
    → All (λ turn. is_polled turn ≡ true) turns
    → Leaves (Shows w) (rounds blank turns w)
unfolding rounds
rounds-Shows blank [] w h = Shows-refl w
rounds-Shows blank (turn ∷ turns) w h =
    Shows->>= (round blank turn) (λ go. if go then rounds blank turns else pure false) w
      (polled-Shows blank turn.poll turn.is_late turn.now w h.0)
      (λ go t. if-Shows go (rounds blank turns) t (rounds-Shows blank turns t h.1))

-- ===== src/Client/Printed.antt =====
-- What the client's controller (src/Client.cpp) shows to the user.
use sisop2_tf.Base.{
  Leaves, Leaves->>=, Leaves-or_fault, ℕ, ◌≡◌, refl, ap, sym, ◌∙◌, Bool, true, false, List, [], ◌∷◌,
  ◌++◌, append_assoc, append-nil, Option, none, some, some-injective, arith, if◌then◌else◌, ok,
  blocked, fault, Outcome, pure, or_fault, ◌>>=◌, ◌>>◌, Bool-cases, inl, inr,
}
use sisop2_tf.Message.{
  MessageType, update, nack, shutdown_req, dummy_message, Message, c_str, or_empty, strcpy,
  new_message,
}
use sisop2_tf.Client.Shell.{Line, tweet_line, error_line, Shell, Action}
use sisop2_tf.Client.Sockets.{receive_message}
use sisop2_tf.Client.Controller.{
  is_shutdown, read_of, client_receiver, client_receiver, print_message,
}
use sisop2_tf.Client.Quiet.{Same}

-- The lines for a packet, and for what a `read` gives.
abbrev pub line_of : Message → List Line
line_of m = elim m.type [
  | update ↦ tweet_line (or_empty (c_str m.author)) m.timestamp (or_empty (c_str m.payload)) ∷ []
  | nack ↦ error_line (or_empty (c_str m.payload)) ∷ []
  | _ ↦ []
]

abbrev pub shown : List (Option Message) → List Line
shown [] = []
shown (none ∷ rs) = shown rs
shown (some m ∷ rs) = line_of m ++ shown rs

-- What was printed is what the packets read meanwhile say, in their order.
pub record Shows (w t : Shell) : Type 0 where
  pub done : List (Option Message)
  pub reads_done : w.reads ≡ done ++ t.reads
  pub prints : t.printed ≡ w.printed ++ shown done

pub Shows-refl : (w : Shell) → Shows w w
Shows-refl w = record { done = []; reads_done = refl; prints = sym (append-nil w.printed) }

shown-append : (a b : List (Option Message)) → shown (a ++ b) ≡ shown a ++ shown b
shown-append [] b = refl
shown-append (none ∷ a) b = shown-append a b
shown-append (some m ∷ a) b =
    ap (λ l. line_of m ++ l) (shown-append a b) ∙ sym (append_assoc (line_of m) (shown a) (shown b))

pub Shows-trans : {w t u : Shell} → Shows w t → Shows t u → Shows w u
Shows-trans {w} {t} {u} a b = record {
  done = a.done ++ b.done;
  reads_done =
      a.reads_done ∙ ap (λ l. a.done ++ l) b.reads_done ∙ sym (append_assoc a.done b.done u.reads);
  prints =
      b.prints
      ∙ ap (λ l. l ++ shown b.done) a.prints
      ∙ append_assoc w.printed (shown a.done) (shown b.done)
      ∙ ap (λ l. w.printed ++ l) (sym (shown-append a.done b.done));
}

Same-Shows : (w t : Shell) → Same w t → Shows w t
Same-Shows w t (reads, printed) = record {
  done = [];
  reads_done = sym reads;
  prints = printed ∙ sym (append-nil w.printed);
}

pub blind-Shows :
    {A : Type 0} (w : Shell) (o : Outcome Shell A) → Leaves (Same w) o → Leaves (Shows w) o
blind-Shows w (ok a t) h = Same-Shows w t h
blind-Shows w (blocked t) h = Same-Shows w t h
blind-Shows w fault h = tt

-- A packet on the screen.
Adds : Shell → List Line → Shell → Type 0
Adds w ls t = (t.reads ≡ w.reads) × (t.printed ≡ w.printed ++ ls)

print_typed-Adds :
    (type : MessageType) (now : ℕ) (author payload : List ℕ) (w : Shell)
    → let m : Message = record {
      type = type;
      timestamp = now;
      author = author;
      payload = payload;
    } in
      Leaves (Adds w (line_of m)) (print_message m w)
unfolding print_message Adds
print_typed-Adds update now author payload w =
    Leaves-or_fault (Adds w _) (c_str author) _ w λ name named.
      Leaves-or_fault (Adds w _) (c_str payload) _ w λ text read. (refl, rw (named, read) refl)
print_typed-Adds nack now author payload w =
    Leaves-or_fault (Adds w _) (c_str payload) _ w λ text read. (refl, rw read refl)
print_typed-Adds _ now author payload w = (refl, sym (append-nil w.printed))

print_message-Adds : (m : Message) (w : Shell) → Leaves (Adds w (line_of m)) (print_message m w)
print_message-Adds m w = print_typed-Adds m.type m.timestamp m.author m.payload w

-- A failed read and SHUTDOWN_REQ print nothing.
receive-shown :
    (blank : Message) (now : ℕ) (r : Option Message) (m : Message)
    → receive_message blank now r ≡ some m
    → shown (r ∷ []) ≡ line_of m
unfolding receive_message new_message
receive-shown blank now (some x) m e = append-nil (line_of x) ∙ ap line_of (some-injective x m e)
receive-shown blank now none m e = dummy (strcpy blank.payload []) e
  where
    dummy :
        (o : Option (List ℕ))
        → elim o [
          | none ↦ none
          | some bytes ↦
              some (record blank { type = dummy_message; timestamp = now; payload = bytes })
        ]
          ≡ some m
        → [] ≡ line_of m
    dummy none e' = absurd (ground (arith, e'))
    dummy (some bytes) e' = ap line_of (
        some-injective (record blank { type = dummy_message; timestamp = now; payload = bytes }) m
          e')

shutdown-quiet :
    (type : MessageType) (now : ℕ) (author payload : List ℕ)
    → let m : Message = record {
      type = type;
      timestamp = now;
      author = author;
      payload = payload;
    } in
      is_shutdown m ≡ true → line_of m ≡ []
shutdown-quiet shutdown_req now author payload h = refl
shutdown-quiet _ now author payload h = absurd (ground (arith, h))

Adds-none : (t : Shell) → Adds t [] t
unfolding Adds
Adds-none t = (refl, sym (append-nil t.printed))

Adds-Shows :
    (w t u : Shell) (r : Option Message) (ls : List Line)
    → w.reads ≡ r ∷ t.reads
    → t.printed ≡ w.printed
    → shown (r ∷ []) ≡ ls
    → Adds t ls u
    → Shows w u
unfolding Adds
Adds-Shows w t u r ls read same lines (reads, printed) = record {
  done = r ∷ [];
  reads_done = read ∙ ap (λ rs. r ∷ rs) (sym reads);
  prints = printed ∙ ap (λ l. l ++ ls) same ∙ ap (λ l. w.printed ++ l) (sym lines);
}

pub client_receiver-Shows :
    (blank : Message) (now : ℕ) (w : Shell) → Leaves (Shows w) (client_receiver blank now w)
unfolding client_receiver
client_receiver-Shows blank now w = read_one w.reads refl
  where
    take_in : Option Message → Action Bool
    take_in r = or_fault (receive_message blank now r) >>= λ m.
        if is_shutdown m then pure false else (print_message m >> pure true)

    read_one :
        (rs : List (Option Message)) → w.reads ≡ rs → Leaves (Shows w) ((read_of rs >>= take_in) w)
    read_one [] e = Shows-refl w
    read_one (r ∷ rs) e =
        Leaves-or_fault (Shows w) (receive_message blank now r) _ (record w { reads = rs })
          λ m got. elim (Bool-cases (is_shutdown m)) [
            | inl ends ↦ rw ends (
                Adds-Shows w _ (record w { reads = rs }) r [] e refl
                  (receive-shown blank now r m got
                    ∙ shutdown-quiet m.type m.timestamp m.author m.payload ends)
                  (Adds-none (record w { reads = rs })))
            | inr on ↦ rw on (
                Leaves->>= (Adds (record w { reads = rs }) (line_of m)) (Shows w) (λ _. pure true)
                  (print_message m) (record w { reads = rs })
                  (print_message-Adds m (record w { reads = rs }))
                  (λ u added.
                    Adds-Shows w (record w { reads = rs }) u r (line_of m) e refl
                      (receive-shown blank now r m got) added)
                  (λ _ u added.
                    Adds-Shows w (record w { reads = rs }) u r (line_of m) e refl
                      (receive-shown blank now r m got) added))
          ]

-- ===== src/Client/Retries.antt =====
-- The sends of `client_sender` (src/Client.cpp) with the searches for a server between them.
use sisop2_tf.Base.{
  ℕ, zero, suc, ◌≡◌, ◌≢◌, refl, ap, sym, subst, ◌∙◌, Bool, true, false, List, [], ◌∷◌, ◌++◌,
  append_assoc, ◌==◌, arith, if◌then◌else◌, length, All, Returns, Returns->>=, Returns-weaken, pure,
  ◌>>=◌, Bool-cases, inl, inr,
}
use sisop2_tf.Message.{Message}
use sisop2_tf.Client.{ClientState}
use sisop2_tf.Client.Shell.{
  Contact, Search, found, nowhere, ended, hanging, broken, after_search, search_with, Shell, Action,
  find_server, look_for_server,
}
use sisop2_tf.Client.Sender.{send_until}

-- As many copies of a packet.
abbrev pub copies : ℕ → Message → List Message
copies zero m = []
copies (suc k) m = m ∷ copies k m

-- In each of the first searches, whatever the state of the client, some server accepts it.
abbrev IsFound : Search → Type 0
IsFound (found i s) = Unit
IsFound _ = ⊥

abbrev pub AreAnswered : ℕ → List (List Contact) → Type 0
AreAnswered zero contacts = Unit
AreAnswered (suc k) [] = ⊥
AreAnswered (suc k) (cs ∷ rest) =
    ((s : ClientState) → IsFound (find_server cs s)) × AreAnswered k rest

-- The packet was sent `k` times, and no error is left of the first `k`.
abbrev pub SendsAll : Shell → ℕ → Message → List ℕ → Bool → Shell → Type 0
SendsAll w k m later go w' =
    (go ≡ true) × (w'.sent ≡ w.sent ++ copies k m) × (w'.errors ≡ later) × (w'.input ≡ w.input)

-- A search that some server answers.
Answered : Shell → ℕ → Bool → Shell → Type 0
Answered w k go w' =
    (go ≡ true)
    × AreAnswered k w'.contacts
    × (w'.sent ≡ w.sent)
    × (w'.errors ≡ w.errors)
    × (w'.input ≡ w.input)

after_search-Answered :
    (o : Search) (k : ℕ) (w : Shell)
    → IsFound o
    → AreAnswered k w.contacts
    → Returns (after_search o w) (Answered w k)
unfolding Answered
after_search-Answered (found i s) k w h a = (refl, a, refl, refl, refl)
after_search-Answered nowhere k w h a = absurd h
after_search-Answered ended k w h a = absurd h
after_search-Answered hanging k w h a = absurd h
after_search-Answered broken k w h a = absurd h

search_with-Answered :
    (contacts : List (List Contact)) (k : ℕ) (w : Shell)
    → AreAnswered (suc k) contacts
    → Returns (search_with contacts w) (Answered w k)
unfolding Answered
search_with-Answered [] k w h = absurd h
search_with-Answered (cs ∷ rest) k w h =
    after_search-Answered (find_server cs w.client) k (record w { contacts = rest }) (h.0 w.client)
      h.1

look_for_server-Answered :
    (w : Shell) (k : ℕ)
    → AreAnswered (suc k) w.contacts
    → Returns (look_for_server w) (Answered w k)
unfolding look_for_server
look_for_server-Answered w k h = search_with-Answered w.contacts k w h

-- A search after a send that failed, and the sends after it.
search_on :
    (m : Message) (k : ℕ) (later : List ℕ) (w w_sent : Shell) (rest : Action Bool)
    → w_sent.sent ≡ w.sent ++ m ∷ []
    → w_sent.input ≡ w.input
    → AreAnswered (suc k) w_sent.contacts
    → ((u : Shell) → AreAnswered k u.contacts → Returns (rest u) (SendsAll u (suc k) m later))
    → Returns
        ((look_for_server >>= λ go. if go then rest else pure false) w_sent)
        (SendsAll w (suc (suc k)) m later)
unfolding Answered
search_on m k later w w_sent rest one input a ih =
    Returns->>= (Answered w_sent k) (SendsAll w (suc (suc k)) m later)
      (λ go. if go then rest else pure false) look_for_server w_sent
      (look_for_server-Answered w_sent k a)
      λ go w' (goes, more, same, errors, typed).
        subst
          (λ b. Returns ((if b then rest else pure false) w') (SendsAll w (suc (suc k)) m later))
          (sym goes)
          (Returns-weaken (SendsAll w' (suc k) m later) _ _ (ih w' more)
            λ went u (went_on, all, left, kept). (
              went_on,
              all
                  ∙ ap (λ l. l ++ copies (suc k) m) (same ∙ one)
                  ∙ append_assoc w.sent (m ∷ []) (copies (suc k) m),
              left,
              kept ∙ typed ∙ input,
            ))

pub send_until-SendsAll :
    (m : Message) (failing later : List ℕ) (w : Shell)
    → All (λ e. e ≢ 0) failing
    → AreAnswered (length failing) w.contacts
    → Returns (send_until m (failing ++ 0 ∷ later) w) (SendsAll w (suc (length failing)) m later)
unfolding send_until
send_until-SendsAll m [] later w h a = (refl, refl, refl, refl)
send_until-SendsAll m (e ∷ es) later w h a = elim (Bool-cases (e == 0)) [
  | inl fine ↦ absurd (h.0 (ground (arith, fine)))
  | inr fails ↦ rw fails (
      search_on m (length es) later w
        (record w { errors = es ++ 0 ∷ later; sent = w.sent ++ m ∷ [] })
        (send_until m (es ++ 0 ∷ later)) refl refl a
        λ u more. send_until-SendsAll m es later u h.1 more)
]

-- ===== src/Session/Life/Requests.antt =====
-- The requests of a client while its connection serves (src/main_server.cpp): the rounds of the
-- connector that read them and the turns of the speaker, in any order.
use sisop2_tf.Base.{
  ℕ, ◌+◌, ◌^◌, ◌<◌, ◌≡◌, refl, sym, ap, subst, ◌∙◌, true, false, List, [], ◌∷◌, ◌++◌, map,
  map-append, append-nil, append_assoc, length, length-append, All, arith, ok, >>=-ok, ◌==◌,
  if◌then◌else◌,
}
use sisop2_tf.Data.{TweetData}
use sisop2_tf.Message.{Message}
use sisop2_tf.Connections.{ConnectionManager}
use sisop2_tf.Database.State.{Tables}
use sisop2_tf.Database.Tables.{IsValid}
use sisop2_tf.Session.State.{Session}
use sisop2_tf.Session.Connector.{Env, packet, connector_round}
use sisop2_tf.Session.Speaker.{speaker_round}
use sisop2_tf.Session.SignIn.{world}
use sisop2_tf.Session.Requests.{
  IsUpdate, all_posted, all_replied, reply_to, speaker_round-all_posted,
}
use sisop2_tf.Session.Interleaving.{all_posted-append, all_posted-IsValid, All-split}
use sisop2_tf.Session.Life.{
  ConnectorPlace, serving, SpeakerPlace, at_head, waiting, silent, ListenerPlace, in_world,
  speaker_goes, speaker_turn, connects, speaks, take_turn,
}
use sisop2_tf.Session.Life.Joins.{life}
use sisop2_tf.Session.Life.Rounds.{read_in, read_in-IsFlushed, connector_round-update}
use sisop2_tf.Session.Life.Turns.{
  Activity, asks, works, turn_of, asked, IsUp, Log, work, log_one, not_zero, in_world-ok,
  serving_turn, waiting_turn,
}

module _ (junk : TweetData) (blank : Message) (t : Tables) (c : ConnectionManager) (user : ℕ)
    (sent : List Message) where
  abbrev pub posted : List Message → Tables
  posted ms = all_posted junk blank user ms t

  -- The connection does what the log says: the tables are those when its requests have been posted, the
  -- queue holds what waits, and each reply is written or waits to be written, in order.
  pub record Follows (done todo : List Message) (s : Session) : Type 0 where
    pub index : s.client_index ≡ user
    pub incoming : s.incoming_messages ≡ todo
    pub marked : s.incoming_queue_empty ≡ (length todo == 0)
    pub notice : s.client_shutdown_notice ≡ false
    pub replies : s.sent ++ s.outgoing_messages ≡ sent ++ map (reply_to junk blank) done

  -- The session behind a pass of the speaker.
  abbrev pub after_pass : Session → Session
  after_pass s = record (all_replied junk blank s s.incoming_messages) {
    incoming_messages = [];
    incoming_queue_empty = true;
  }

  -- The requests are updates, and tweet numbers last for them and for some more.
  abbrev pub AreReady : List Message → List Message → ℕ → Type 0
  AreReady done todo more =
      All (IsUpdate junk blank) todo × (t.num_tweets + length done + length todo + more < 2 ^ 31)

  module _ (v : IsValid t) (known : user < length t.list_of_users) where
    asks-Follows :
        (env : Env) (m : Message) (done todo : List Message) (p : SpeakerPlace) (l : ListenerPlace)
        (s : Session)
        → IsUp (asks env m)
        → IsUpdate junk blank m
        → t.num_tweets + length done < 2 ^ 31
        → Follows done todo s
        → (u : Session) × (take_turn junk blank
              (connects env (packet m ∷ []))
              (life (world (posted done) c s) serving p l)
            ≡ ok tt (life (world (posted done) c u) serving p l))
          × Follows done (todo ++ m ∷ []) u
    asks-Follows env m done todo p l s (up, alive) h room f =
        let start = life (world (posted done) c s) serving p l in
        let (v', users, _) = all_posted-IsValid junk blank user done t v known room in
        let known' : s.client_index < length (posted done).list_of_users =
          subst (λ i. i < length (posted done).list_of_users) (sym f.index)
            (subst (λ us. user < length us) (sym users) known) in
        let facts = read_in-IsFlushed s m in
        (
          record (read_in s m) {
            incoming_messages = (read_in s m).incoming_messages ++ m ∷ [];
            incoming_queue_empty = false;
            data_read = false;
          },
          serving_turn junk blank env (packet m ∷ []) (world (posted done) c s) p l f.notice
              ∙ in_world-ok (connector_round env (packet m ∷ [])) start
                  (connector_round-update env (posted done) c s m up alive v' known' h.0),
          record {
            index = facts.user ∙ f.index;
            incoming = ap (λ ms. ms ++ m ∷ []) (facts.incoming ∙ f.incoming);
            marked = ground (arith, length-append todo (m ∷ []));
            notice = facts.notice ∙ f.notice;
            replies = ground (
              arith,
              facts.written,
              facts.emptied,
              append-nil (s.sent ++ s.outgoing_messages),
              f.replies,
            );
          },
        )

    -- A pass of the speaker posts what waits.
    pub pass-posted :
        (done todo : List Message) (p : ConnectorPlace) (l : ListenerPlace) (s : Session)
        → s.client_index ≡ user
        → s.incoming_messages ≡ todo
        → AreReady done todo 0
        → in_world (speaker_round junk blank) (life (world (posted done) c s) p waiting l)
          ≡ ok tt (life (world (posted (done ++ todo)) c (after_pass s)) p waiting l)
    pass-posted done todo p l s index incoming (h, room) =
        let start = life (world (posted done) c s) p waiting l in
        let few : t.num_tweets + length done < 2 ^ 31 = omega (arith, room) in
        let (v', users, numbers) = all_posted-IsValid junk blank user done t v known few in
        let known' : s.client_index < length (posted done).list_of_users =
          subst (λ i. i < length (posted done).list_of_users) (sym index)
            (subst (λ us. user < length us) (sym users) known) in
        let room' : (posted done).num_tweets + length s.incoming_messages < 2 ^ 31 =
          subst (λ ms. (posted done).num_tweets + length ms < 2 ^ 31) (sym incoming)
            (omega (arith, room, numbers)) in
        let tables : all_posted junk blank s.client_index s.incoming_messages (posted done)
            ≡ posted (done ++ todo) =
          ap (λ i. all_posted junk blank i s.incoming_messages (posted done)) index
          ∙ ap (λ ms. all_posted junk blank user ms (posted done)) incoming
          ∙ sym (all_posted-append junk blank user done todo t) in
        in_world-ok (speaker_round junk blank) start (
          speaker_round-all_posted junk blank (posted done) c s v' known' room'
            (subst (All (IsUpdate junk blank)) (sym incoming) h))
        ∙ ap (λ t'. ok tt (life (world t' c (after_pass s)) p waiting l)) tables

    after_pass-Follows :
        (done todo : List Message) (s : Session)
        → Follows done todo s
        → Follows (done ++ todo) [] (after_pass s)
    after_pass-Follows done todo s f =
        let reply = reply_to junk blank in
        record {
          index = f.index;
          incoming = refl;
          marked = refl;
          notice = f.notice;
          replies = ground (
            arith,
            f.replies,
            f.incoming,
            append_assoc s.sent s.outgoing_messages (map reply todo),
            append_assoc sent (map reply done) (map reply todo),
            map-append reply done todo,
          );
        }

    works-Follows :
        (done todo : List Message) (p : SpeakerPlace) (l : ListenerPlace) (s : Session)
        → AreReady done todo 0
        → Follows done todo s
        → let g = work done todo p in
          (u : Session) × (take_turn junk blank speaks (life (world (posted done) c s) serving p l)
            ≡ ok tt (life (world (posted g.done) c u) serving g.place l))
          × Follows g.done g.todo u
    unfolding take_turn speaker_turn
    works-Follows done todo at_head l s ready f = (
      s,
      ap
          (λ b.
            (if b then speaker_goes silent else speaker_goes waiting)
              (life (world (posted done) c s) serving at_head l))
          f.notice,
      f,
    )
    works-Follows done [] waiting l s ready f = (
      s,
      waiting_turn junk blank (world (posted done) c s) serving l true false f.marked f.notice,
      f,
    )
    works-Follows done (m ∷ ms) waiting l s ready f = (
      after_pass s,
      waiting_turn junk blank (world (posted done) c s) serving l false false
            (f.marked ∙ not_zero (length ms)) f.notice
          ∙ >>=-ok (in_world (speaker_round junk blank)) (λ _. speaker_goes at_head)
              (pass-posted done (m ∷ ms) serving l s f.index f.incoming ready),
      after_pass-Follows done (m ∷ ms) s f,
    )
    works-Follows done todo silent l s ready f = (s, refl, f)

    pub step-Follows :
        (a : Activity) (g : Log) (l : ListenerPlace) (s : Session)
        → IsUp a
        → AreReady g.done (g.todo ++ asked (a ∷ [])) 0
        → Follows g.done g.todo s
        → (u : Session) × (take_turn junk blank
              (turn_of a)
              (life (world (posted g.done) c s) serving g.place l)
            ≡ ok tt (life (world (posted (log_one a g).done) c u) serving (log_one a g).place l))
          × Follows (log_one a g).done (log_one a g).todo u
    step-Follows (asks env m) g l s up (h, room) f =
        asks-Follows env m g.done g.todo g.place l s up
          (All-split (IsUpdate junk blank) g.todo (m ∷ []) h).1.0 (omega (arith, room)) f
    step-Follows works g l s up ready f =
        works-Follows g.done g.todo g.place l s
          (subst (λ ms. AreReady g.done ms 0) (append-nil g.todo) ready) f

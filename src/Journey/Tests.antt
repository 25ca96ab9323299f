-- ===== src/Journey/Tests.antt =====
-- A tweet's way at concrete inputs.
use sisop2_tf.Base.{ℕ, ◌≡◌, refl, true, false, List, [], ◌∷◌, arith, Returns, All, ◌≢◌}
use sisop2_tf.Data.{TweetData}
use sisop2_tf.Message.{Message}
use sisop2_tf.Database.Follow.{contains, followers_of}
use sisop2_tf.Database.Tests.{tables, tables-IsValid, manager, manager-IsValid}
use sisop2_tf.Session.State.{Session, opened}
use sisop2_tf.Session.Connector.{Env}
use sisop2_tf.Client.Sockets.{zeros, zero_message}
use sisop2_tf.Client.Shell.{Shell}
use sisop2_tf.Client.Sender.{client_sender, update_command}
use sisop2_tf.Session.Life.{at_head}
use sisop2_tf.Journey.{name_of, Travels, typed-Travels}

abbrev line : List ℕ
line = b'h' ∷ b'i' ∷ []

abbrev shell : Shell
shell = record {
  input = line ∷ [];
  errors = 0 ∷ [];
  reads = [];
  contacts = [];
  sent = [];
  printed = [];
  client = record { inbox = []; inbox_has_item = false; uid = 0 };
  server_index = 0;
  username = b'@' ∷ b'a' ∷ [];
}

abbrev env : Env
env = record { server_shutdown_notice = false; alive = true; now = 9; blank = zero_message }

abbrev junk : TweetData
junk = record {
  author_id = 7;
  tweet_id = 7;
  timestamp = 7;
  payload = zeros 256;
  num_recipients_remaining = 7;
}

-- The connection of the first user.
abbrev session : Session
session = record (opened zero_message) { client_index = 0 }

follows : contains 1 (followers_of tables 0) ≡ true
unfolding contains
follows = refl

-- The connection of the second user, who follows the first.
abbrev reader : Session
reader = record (opened zero_message) { client_index = 1 }

name_text : All (λ b. b ≢ 0) (name_of tables 0)
name_text = (omega arith, (omega arith, (omega arith, tt)))

typed-Travels_example :
    (m : Message) × Returns
      (client_sender zero_message 9 update_command shell)
      (λ _ w'. w'.sent ≡ m ∷ [])
    × Travels env junk tables manager session reader at_head 9 line m
typed-Travels_example =
    typed-Travels env junk tables manager session reader at_head refl refl tables-IsValid
      manager-IsValid (omega arith) (omega arith) follows (omega arith) (omega arith) refl refl refl
      (tt, (tt, (tt, tt))) (tt, (tt, tt)) name_text (omega arith) 9 b'h' (b'i' ∷ []) [] zero_message
      shell [] refl refl (omega arith, (omega arith, tt)) (omega arith) (omega arith) (omega arith)

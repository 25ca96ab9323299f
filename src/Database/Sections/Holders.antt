-- ===== src/Database/Sections/Holders.antt =====
-- Which threads at the list of pending tweets (src/main_server.cpp) hold or count what.
use sisop2_tf.Base.{Bool, true, false}
use sisop2_tf.Database.Sections.{
  Phase, r_trying, r_locked, r_first, r_counted, r_passing, reading, r_leaving, r_last, r_uncounted,
  w_locked, w_first, w_counted, w_queued, writing, w_done, w_leaving, w_last, w_uncounted,
}

-- Readers with `read_try`.
abbrev pub has_try : Phase → Bool
has_try r_trying = true
has_try r_locked = true
has_try r_first = true
has_try r_counted = true
has_try r_passing = true
has_try _ = false

abbrev pub has_r_mutex : Phase → Bool
has_r_mutex r_locked = true
has_r_mutex r_first = true
has_r_mutex r_counted = true
has_r_mutex r_leaving = true
has_r_mutex r_last = true
has_r_mutex r_uncounted = true
has_r_mutex _ = false

abbrev pub has_w_mutex : Phase → Bool
has_w_mutex w_locked = true
has_w_mutex w_first = true
has_w_mutex w_counted = true
has_w_mutex w_leaving = true
has_w_mutex w_last = true
has_w_mutex w_uncounted = true
has_w_mutex _ = false

abbrev pub is_reader : Phase → Bool
is_reader r_first = true
is_reader r_counted = true
is_reader r_passing = true
is_reader reading = true
is_reader r_leaving = true
is_reader _ = false

abbrev pub is_writer : Phase → Bool
is_writer w_first = true
is_writer w_counted = true
is_writer w_queued = true
is_writer writing = true
is_writer w_done = true
is_writer w_leaving = true
is_writer _ = false

abbrev pub is_r_first : Phase → Bool
is_r_first r_first = true
is_r_first _ = false

abbrev pub is_r_last : Phase → Bool
is_r_last r_last = true
is_r_last _ = false

abbrev pub is_w_first : Phase → Bool
is_w_first w_first = true
is_w_first _ = false

abbrev pub is_w_last : Phase → Bool
is_w_last w_last = true
is_w_last _ = false

abbrev pub is_writing : Phase → Bool
is_writing writing = true
is_writing _ = false

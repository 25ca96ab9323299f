-- ===== src/Session.antt =====
-- The three threads of one connection (src/main_server.cpp): connector, speaker and listener.
pub mod State
pub mod Connector
pub mod Speaker
pub mod Listener
pub mod SignIn
pub mod Replies
pub mod Unsigned
pub mod Flush
pub mod Requests
pub mod Interleaving
pub mod Deliver
pub mod Life
mod Tests

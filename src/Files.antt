-- ===== src/Files.antt =====
-- The files of `databaseManager` (src/main_server.cpp): the stream operators of the records, and the
-- saving and loading of the four lists.
pub mod Records
pub mod Save
pub mod Load
pub mod RoundTrip
pub mod Lists
pub mod Users
pub mod Damage
pub mod Stuck
pub mod Rounds
pub mod Ending
mod Tests
